-- ===== src/Drift/Analysis.antt =====
-- services/drift/service.py: the analysis of an agent's recent events against its active baseline,
-- and the alert that it raises. The text of the alert is not modelled.
use mathlib.Core.Option
use dox.Prelude.{
  ℕ, ◌-◌, ◌*◌, Bool, true, false, ◌&&◌, ◌||◌, String, Option, none, some, List, [], length,
  if◌then◌else◌, ◌==◌, String_eq,
}
use dox.Result.{Result, ok, err, Exec}
use dox.Clock.{hour}
use dox.Enums.{SentinelType, Severity}
use dox.Events.{EventRecord}
use dox.Json.{obj, num, end, field}
use dox.Sql.{Sql}
use dox.Sentinel.{SentinelAlert, SentinelAlertCreate, create_alert}
use dox.Drift.{
  AgentBaseline, Counts, Float, EventTypeDeviation, tally, compute_tvd, score_to_severity,
  is_recent, get_active_baseline,
}

pub record AnalyzeRequest : Type 0 where
  pub tenant_id : String
  pub agent_id : String
  pub lookback_hours : ℕ

pub record DriftReport (V : Type 0) : Type 0 where
  pub score : V
  pub severity : String
  pub recent_event_count : ℕ
  pub baseline_total_events : ℕ
  pub deviations : List (EventTypeDeviation V)
  pub baseline_id : Option ℕ
  pub alert_created : Bool

module _ (float : Float) where
  -- The score before it is rounded, and the deviations. Without a baseline the score is 0.
  unfoldable pub measured :
      Option AgentBaseline → Counts → ℕ → float.Value × List (EventTypeDeviation float.Value)
  unfolding compute_tvd
  measured none counts total = (float.ratio 0 10, [])
  measured (some b) counts total = compute_tvd float b.event_counts b.total_events counts total

  abbrev severity_of : Option AgentBaseline → float.Value → String
  severity_of none score = "none"
  severity_of (some b) score = score_to_severity float score

  abbrev total_of : Option AgentBaseline → ℕ
  total_of none = 0
  total_of (some b) = b.total_events

  -- The report so far, before the question of an alert. The severity is that of the score before it is
  -- rounded.
  unfoldable pub assess : Option AgentBaseline → Counts → ℕ → DriftReport float.Value
  unfolding measured score_to_severity
  assess baseline counts total =
      let (score, deviations) = measured baseline counts total in
      record {
        score = float.round4 score;
        severity = severity_of baseline score;
        recent_event_count = total;
        baseline_total_events = total_of baseline;
        deviations = deviations;
        baseline_id = Option.map (λ b. b.id) baseline;
        alert_created = false;
      }

-- What the analysis draws: an instant to look back from, and the alert's identifier and time.
pub record Draw : Type 0 where
  pub since_now : ℕ
  pub alert_id : ℕ
  pub created_at : ℕ

-- After the call of the sentinel: `alert_created = True`, unless it raised.
abbrev pub with_alert :
    {V : Type 0}
    → DriftReport V
    → Result SentinelAlert × List SentinelAlert
    → Result (DriftReport V) × List SentinelAlert
with_alert report (r, alerts) = elim r [
  | ok a ↦ (ok (record report { alert_created = true }), alerts)
  | err e ↦ (err e, alerts)
]

module _ (sql : Sql) (has_sentinel : Bool) (float : Float) where
  unfoldable pub alert_of : AnalyzeRequest → DriftReport float.Value → SentinelAlertCreate
  alert_of request report = record {
    event_id = none;
    tenant_id = request.tenant_id;
    agent_id = request.agent_id;
    sentinel_type = SentinelType.drift;
    severity = if report.severity == "high" then Severity.high else Severity.medium;
    details = obj (
        field "score" (float.to_json report.score) (
          field "lookback_hours" (num request.lookback_hours)
            (field "recent_event_count" (num report.recent_event_count) end)));
  }

  -- The agent's events that the analysis looks at.
  abbrev pub recent : Draw → AnalyzeRequest → List EventRecord → List EventRecord
  recent draw request events =
      let since = draw.since_now - request.lookback_hours * hour in
      sql.select EventRecord (is_recent request.tenant_id request.agent_id since) events

  unfoldable pub report_on :
      Draw → AnalyzeRequest → List EventRecord → Option AgentBaseline → DriftReport float.Value
  unfolding tally assess
  report_on draw request events baseline =
      let seen = recent draw request events in assess float baseline (tally seen []) (length seen)

  -- The sentinel's part of the analysis.
  unfoldable pub alert_on :
      Draw
      → AnalyzeRequest
      → DriftReport float.Value
      → Exec (List SentinelAlert) (DriftReport float.Value)
  unfolding create_alert alert_of
  alert_on draw request report alerts =
      if has_sentinel && (report.severity == "medium" || report.severity == "high")
      then with_alert report
          (create_alert draw.alert_id draw.created_at (alert_of request report) alerts)
      else (ok report, alerts)

  unfoldable pub analyze :
      Draw
      → AnalyzeRequest
      → List EventRecord
      → List AgentBaseline
      → Exec (List SentinelAlert) (DriftReport float.Value)
  unfolding get_active_baseline report_on alert_on
  analyze draw request events baselines alerts =
      elim (get_active_baseline sql request.tenant_id request.agent_id baselines) [
        | ok baseline ↦ alert_on draw request (report_on draw request events baseline) alerts
        | err e ↦ (err e, alerts)
      ]
