-- ===== src/Drift/Tests.antt =====
-- Baselines of a small history, and the theorems at it.
use dox.Prelude.{
  String, String_eq, count, ltb, if◌then◌else◌, ◌==◌, map, Option, ◌+◌, ℕ, ◌≡◌, refl, true, false,
  List, [], ◌∷◌, none, some, filter, length, ℕ_eq,
}
use dox.Result.{ok}
use dox.Enums.{
  EventType, Environment, event_type_str, environment_str, sentinel_type_str, severity_str,
}
use dox.Json.{null}
use dox.Events.{EventRecord, from_canonical}
use dox.Sorting.{sort, insert_sorted}
use dox.Sql.{insert, add}
use dox.Sql.Engine.{list_engine}
use dox.Adapters.{value_at, update_at}
use dox.Sentinel.{SentinelAlert, create_alert, new_alert}
use dox.Drift.Decimals.{decimals}
use dox.Drift.{
  AgentBaseline, BaselineCreate, Draw, tally, nub, all_types, sum_over, deviations_over,
  compute_tvd, score_to_severity, deactivate_each, new_baseline, compute_baseline,
  get_active_baseline, active_for,
}
use dox.Drift.Analysis
use dox.Drift.Analysis.{
  measured, AnalyzeRequest, DriftReport, assess, alert_of, alert_on, report_on, analyze,
}
use dox.Drift.Alerting.{Alerted, score_of, analyze-alerts}
use dox.Drift.Baselines.{get_active_baseline-compute_baseline}
use dox.Drift.Distance.{at_most_one, added, occurrences, deviation, gap, compute_tvd-tally}

program : Unit {0}
unfolding event_type_str environment_str sentinel_type_str severity_str from_canonical sort
    insert_sorted insert add value_at update_at create_alert new_alert tally nub all_types sum_over
    deviations_over compute_tvd score_to_severity deactivate_each new_baseline compute_baseline
    get_active_baseline measured assess alert_of alert_on report_on analyze
program = tt

abbrev event : ℕ → EventType → EventRecord
event n kind =
    from_canonical (λ p. "digest") n
      (record {
        event_id = n;
        schema_version = "1.0";
        trace_id = n;
        session_id = "s";
        tenant_id = "acme";
        agent_id = "bot";
        agent_version = "1";
        event_type = kind;
        environment = Environment.prod;
        timestamp = n;
        client_timestamp = n;
        payload = null;
        payload_hash = none;
      })

-- One call and one failure, and then two failures.
abbrev calm : List EventRecord
calm = event 1 EventType.tool_call_completed ∷ event 2 EventType.tool_call_failed ∷ []

abbrev failures : List EventRecord
failures = event 3 EventType.tool_call_failed ∷ event 4 EventType.tool_call_failed ∷ []

abbrev create : BaselineCreate
create = record { tenant_id = "acme"; agent_id = "bot"; lookback_hours = 24 }

abbrev draw : ℕ → Draw
draw n = record { fresh = n; since_now = 5; now = n }

abbrev old : AgentBaseline
old = new_baseline list_engine (draw 1) create calm

abbrev new : AgentBaseline
new = new_baseline list_engine (draw 2) create failures

abbrev replaced : List AgentBaseline
replaced = new ∷ record old { is_active = false } ∷ []

recompute : compute_baseline list_engine (draw 2) create failures (old ∷ []) ≡ (ok new, replaced)
unfolding program
recompute = refl

get_active_baseline-compute_baseline_example :
    (filter (active_for "acme" "bot") replaced ≡ new ∷ [])
    × (get_active_baseline list_engine "acme" "bot" replaced ≡ ok (some new))
get_active_baseline-compute_baseline_example =
    get_active_baseline-compute_baseline list_engine (draw 2) create failures (old ∷ []) replaced
      new recompute

half : (compute_tvd decimals (tally calm []) 2 (tally failures []) 2).0 ≡ decimals.ratio 1 2
unfolding program
half = refl

compute_tvd-tally_example :
    let types = all_types (tally calm []) (tally failures []) in
    ((k : String)
      → count (λ j. j == k) types
        ≡ (if ltb 0 (occurrences calm k + occurrences failures k) then 1 else 0))
    × (compute_tvd decimals (tally calm []) (length calm) (tally failures []) (length failures) ≡ (
      at_most_one decimals
          (decimals.half (added decimals calm failures (decimals.ratio 0 10) types)),
      map (deviation decimals calm failures) (
          filter
            (λ k. decimals.below (decimals.ratio 1 1000) (gap decimals calm failures k))
            types),
    ))
compute_tvd-tally_example = compute_tvd-tally decimals calm failures

abbrev request : AnalyzeRequest
request = record { tenant_id = "acme"; agent_id = "bot"; lookback_hours = 1 }

abbrev when : Analysis.Draw
when = record { since_now = 5; alert_id = 7; created_at = 5 }

abbrev report : DriftReport decimals.Value
report = record (assess decimals (some old) (tally failures []) 2) { alert_created = true }

abbrev alerts : List SentinelAlert
alerts = new_alert 7 5 (alert_of list_engine true decimals request report) ∷ []

analysis :
    analyze list_engine true decimals when request failures (old ∷ []) [] ≡ (ok report, alerts)
unfolding program
analysis = refl

analyze-alerts_example :
    (baseline : Option AgentBaseline) × (get_active_baseline list_engine "acme" "bot" (old ∷ [])
      ≡ ok baseline)
    × Alerted list_engine true decimals when request [] alerts report
        (score_of list_engine true decimals when request failures baseline)
analyze-alerts_example =
    analyze-alerts list_engine true decimals when request failures (old ∷ []) [] alerts report
      analysis
