-- ===== src/Compliance/Tests.antt =====
-- A report on one event, two alerts and two policies, of which one is off.
use dox.Prelude.{
  ℕ, ◌≡◌, refl, Bool, true, false, String, none, List, [], ◌∷◌, count, ◌&&◌, not, ◌-◌, ◌*◌, ◌==◌,
  String_eq,
}
use dox.Result.{ok}
use dox.Clock.{day, hour}
use dox.Json.{null}
use dox.Sql.Engine.{list_engine}
use dox.Events.{EventRecord}
use dox.Sentinel.{SentinelAlert}
use dox.Policy.{Policy}
use dox.Adapters.{update_at}
use dox.Quota.{Env, Table, QuotaStatus, get_status}
use dox.Quota.Calls.{IsTable}
use dox.Compliance.{
  ComplianceReport, generate_report, summarize_alerts, count_by, is_event_of, is_active_of,
  to_summary,
}
use dox.Compliance.Totals.{Tallies, generate_report-Tallies}

abbrev alert : ℕ → String → Bool → SentinelAlert
alert n severity resolved = record {
  id = n;
  event_id = none;
  tenant_id = "acme";
  agent_id = "bot";
  sentinel_type = "tool_misuse";
  severity = severity;
  details = null;
  action_taken = none;
  is_resolved = resolved;
  resolved_at = none;
  created_at = n;
}

abbrev policy : ℕ → Bool → Policy
policy n active = record {
  id = n;
  tenant_id = "acme";
  name = "rule";
  description = "";
  sentinel_type = "tool_misuse";
  severity = "low";
  action = "warn";
  is_active = active;
  config = null;
  created_at = n;
}

abbrev alerts : List SentinelAlert
alerts = alert 1 "high" false ∷ alert 2 "high" true ∷ alert 3 "low" false ∷ []

abbrev policies : List Policy
policies = policy 1 true ∷ policy 2 false ∷ []

abbrev no_events : List EventRecord
no_events = []

two_severities :
    (summarize_alerts list_engine "acme" alerts).by_severity ≡ ("high", 2) ∷ ("low", 1) ∷ []
unfolding summarize_alerts count_by update_at
two_severities = refl

abbrev now : ℕ
now = 738944 * day

abbrev env : Env
env = record { fresh = 9; created = now; now = now }

no_rows-IsTable : IsTable []
no_rows-IsTable = record { ids = tt; tenants = tt }

generate_report-Tallies_example :
    (report : ComplianceReport) × (st : QuotaStatus) × (rows' : Table) × (generate_report
        list_engine now env "acme" 24 no_events alerts policies []
      ≡ (ok report, rows'))
    × (get_status list_engine env "acme" [] ≡ (ok st, rows'))
    × (report.quota ≡ to_summary st)
    × Tallies
        (λ e. e.event_type)
        (is_event_of "acme" (now - 24 * hour))
        no_events
        "high"
        report.events.by_type
    × (report.events.total_count ≡ count (is_event_of "acme" (now - 24 * hour)) no_events)
    × Tallies (λ a. a.severity) (λ a. a.tenant_id == "acme") alerts "high" report.alerts.by_severity
    × Tallies
        (λ a. a.sentinel_type)
        (λ a. a.tenant_id == "acme")
        alerts
        "high"
        report.alerts.by_type
    × (report.alerts.total_count ≡ count (λ a. a.tenant_id == "acme") alerts)
    × (report.alerts.unresolved_count
        ≡ count (λ a. a.tenant_id == "acme" && not a.is_resolved) alerts)
    × (report.policies.active_count ≡ count (is_active_of "acme") policies)
generate_report-Tallies_example =
    generate_report-Tallies list_engine now env "acme" "high" 24 no_events alerts policies []
      no_rows-IsTable refl
