-- ===== src/Compliance.antt =====
-- services/compliance/service.py: the report on a tenant, from four tables. Only the quota's call
-- writes, so the state of the report is the table of quotas and the other tables are read.
pub mod Totals
mod Tests
use dox.Prelude.{
  ℕ, ◌+◌, ◌-◌, ◌*◌, Bool, true, ◌&&◌, not, String, List, [], ◌∷◌, length, if◌then◌else◌, leb, ◌==◌,
  ℕ_eq, String_eq,
}
use dox.Result.{Exec, ◌>>=◌, pure}
use dox.Clock.{hour}
use dox.Sql.{Sql}
use dox.Adapters.{update_at}
use dox.Events.{EventRecord}
use dox.Sentinel.{SentinelAlert}
use dox.Policy.{Policy}
use dox.Quota.{Env, QuotaStatus, Table, get_status}

-- `dict[str, int]`
abbrev pub Counts : Type 0
Counts = List (String × ℕ)

pub record EventSummary : Type 0 where
  pub total_count : ℕ
  pub by_type : Counts
  pub lookback_hours : ℕ

pub record AlertSummary : Type 0 where
  pub total_count : ℕ
  pub unresolved_count : ℕ
  pub by_severity : Counts
  pub by_type : Counts

pub record QuotaSummary : Type 0 where
  pub subscription_tier : String
  pub daily_remaining : ℕ
  pub monthly_remaining : ℕ
  pub is_over_daily_limit : Bool
  pub is_over_monthly_limit : Bool

pub record PolicySummary : Type 0 where
  pub active_count : ℕ

pub record ComplianceReport : Type 0 where
  pub tenant_id : String
  pub generated_at : ℕ
  pub lookback_hours : ℕ
  pub events : EventSummary
  pub alerts : AlertSummary
  pub quota : QuotaSummary
  pub policies : PolicySummary

-- `d[k] = d.get(k, 0) + 1` for the key of each row.
unfoldable pub count_by : {A : Type 0} → (A → String) → List A → Counts → Counts
unfolding update_at
count_by key [] counts = counts
count_by key (x ∷ xs) counts = count_by key xs (update_at 0 (key x) (λ n. n + 1) counts)

unfoldable pub unresolved_in : List SentinelAlert → ℕ → ℕ
unresolved_in [] n = n
unresolved_in (a ∷ alerts) n = unresolved_in alerts (if not a.is_resolved then n + 1 else n)

abbrev pub is_event_of : String → ℕ → EventRecord → Bool
is_event_of tenant since e = e.tenant_id == tenant && leb since e.timestamp

abbrev pub is_active_of : String → Policy → Bool
is_active_of tenant p = p.tenant_id == tenant && p.is_active

abbrev pub to_summary : QuotaStatus → QuotaSummary
to_summary status = record {
  subscription_tier = status.subscription_tier;
  daily_remaining = status.daily_remaining;
  monthly_remaining = status.monthly_remaining;
  is_over_daily_limit = status.is_over_daily_limit;
  is_over_monthly_limit = status.is_over_monthly_limit;
}

module _ (sql : Sql) where
  unfoldable pub summarize_events : String → ℕ → ℕ → List EventRecord → EventSummary
  unfolding count_by
  summarize_events tenant since lookback_hours rows =
      let events = sql.select EventRecord (is_event_of tenant since) rows in
      record {
        total_count = length events;
        by_type = count_by (λ e. e.event_type) events [];
        lookback_hours = lookback_hours;
      }

  unfoldable pub summarize_alerts : String → List SentinelAlert → AlertSummary
  unfolding count_by unresolved_in
  summarize_alerts tenant rows =
      let alerts = sql.select SentinelAlert (λ a. a.tenant_id == tenant) rows in
      record {
        total_count = length alerts;
        unresolved_count = unresolved_in alerts 0;
        by_severity = count_by (λ a. a.severity) alerts [];
        by_type = count_by (λ a. a.sentinel_type) alerts [];
      }

  unfoldable pub summarize_quota : Env → String → Exec Table QuotaSummary
  summarize_quota env tenant = do status ← get_status sql env tenant; pure (to_summary status)

  unfoldable pub summarize_policies : String → List Policy → PolicySummary
  summarize_policies tenant rows = record {
    active_count = length (sql.select Policy (is_active_of tenant) rows);
  }

  -- `now` is the report's reading of the clock, `env` what the quota service reads.
  unfoldable pub generate_report :
      ℕ
      → Env
      → String
      → ℕ
      → List EventRecord
      → List SentinelAlert
      → List Policy
      → Exec Table ComplianceReport
  unfolding summarize_events summarize_alerts summarize_quota summarize_policies
  generate_report now env tenant lookback_hours events alerts policies =
      let since = now - lookback_hours * hour in
      let event_summary = summarize_events tenant since lookback_hours events in
      let alert_summary = summarize_alerts tenant alerts in
      do
        quota_summary ← summarize_quota env tenant
        pure (record {
          tenant_id = tenant;
          generated_at = now;
          lookback_hours = lookback_hours;
          events = event_summary;
          alerts = alert_summary;
          quota = quota_summary;
          policies = summarize_policies tenant policies;
        })
