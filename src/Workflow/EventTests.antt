-- ===== src/Workflow/EventTests.antt =====
-- A session of events and its replay, and a drift that is recorded.
use dox.Prelude.{
  All, Option, ℕ, ◌≡◌, refl, true, false, String, none, some, [], ◌∷◌, arith, ℕ_eq, String_eq, map,
  length, min, count, List,
}
use dox.Result.{ok}
use dox.Json.{null}
use dox.Sql.Engine.{list_engine}
use dox.Sorting.{sort, insert_sorted}
use dox.Sentinel.{SentinelAlert, create_alert, new_alert}
use mathlib.Core.List.{Permᴰ}
use dox.Sql.{insert, add, IsAscending}
use dox.Enums.{EventType, Environment, event_type_str, environment_str}
use dox.Events.{EventRecord, from_canonical}
use dox.Adapters.{value_at, update_at}
use dox.Query.{list_events, conditions}
use dox.Drift.Decimals.{decimals}
use dox.Drift.{
  AgentBaseline, tally, nub, all_types, sum_over, deviations_over, compute_tvd, score_to_severity,
  get_active_baseline,
}
use dox.Drift.Analysis.{
  measured, AnalyzeRequest, DriftReport, assess, alert_of, alert_on, report_on, analyze,
}
use dox.Drift.Alerting.{Alerted, is_high, score_of}
use dox.Workflow.Replay
use dox.Workflow.Replay.{ReplayEvent, filter_of, event_of}
use dox.Workflow.Replay.Session.{InSession, Carries, replayed, session, Replays, replayed-session}
use dox.Workflow.Analysis
use dox.Workflow.Analysis.{request_of}
use dox.Workflow.Analysis.Finding.{Recorded, found, found-Recorded}

abbrev str_id : ℕ → String
str_id n = "7"

abbrev event : ℕ → EventType → EventRecord
event n kind =
    from_canonical (λ p. "digest") n
      (record {
        event_id = n;
        schema_version = "1.0";
        trace_id = n;
        session_id = "s";
        tenant_id = "acme";
        agent_id = "bot";
        agent_version = "1";
        event_type = kind;
        environment = Environment.prod;
        timestamp = n;
        client_timestamp = n;
        payload = null;
        payload_hash = none;
      })

-- A session of three events, stored out of order.
abbrev recording : Replay.Scene
recording = record {
  state = record {
    tenant_id = "acme";
    session_id = "s";
    agent_id = none;
    events = [];
    replayed_count = 0;
    skipped_count = 0;
    replay_log = [];
    has_agent_started = false;
    has_agent_completed = false;
    error = none;
    completed = false;
  };
  rows =
      event 2 EventType.tool_selected
      ∷ event 1 EventType.agent_started
      ∷ event 3 EventType.agent_failed
      ∷ [];
  trail = [];
}

abbrev replay_draw : Replay.Draw
replay_draw = record { entry_id = 30; created_at = 21 }

program : Unit {0}
unfolding event_type_str environment_str from_canonical sort insert_sorted insert add value_at
    update_at create_alert new_alert tally nub all_types sum_over deviations_over compute_tvd
    score_to_severity get_active_baseline measured assess alert_of alert_on report_on analyze
    list_events conditions
program = tt

in_order :
    map (λ r. r.timestamp) (session list_engine str_id str_id true replay_draw recording)
    ≡ 1 ∷ 2 ∷ 3 ∷ []
unfolding program
in_order = refl

replayed-session_example :
    let t = replayed list_engine str_id str_id true replay_draw recording in
    let page = session list_engine str_id str_id true replay_draw recording in
    All (InSession recording.state) page
    × IsAscending (λ r. r.timestamp) page
    × Permᴰ page (list_events list_engine (filter_of recording.state) recording.rows)
    × (length page ≡ min 500 (count (conditions (filter_of recording.state)) recording.rows))
    × (t.rows ≡ recording.rows)
    × ((events : List ReplayEvent) × Carries str_id events page
        × (t.state.events ≡ events)
        × Replays list_engine str_id str_id true replay_draw events recording t)
replayed-session_example = replayed-session list_engine str_id str_id true replay_draw recording

-- A baseline of calls that complete, and two that fail.
abbrev baseline : AgentBaseline
baseline = record {
  id = 1;
  tenant_id = "acme";
  agent_id = "bot";
  lookback_hours = 24;
  event_counts = ("tool_call_completed", 4) ∷ [];
  total_events = 4;
  computed_at = 1;
  is_active = true;
}

abbrev failing : Analysis.Scene decimals.Value
failing = record {
  state = record {
    tenant_id = "acme";
    agent_id = "bot";
    lookback_hours = 0;
    drift_score = none;
    severity = none;
    deviations_count = 0;
    alert_created = false;
    audit_entry_id = none;
    error = none;
  };
  events = event 3 EventType.tool_call_failed ∷ event 4 EventType.tool_call_failed ∷ [];
  baselines = baseline ∷ [];
  alerts = [];
  trail = [];
}

abbrev when : Analysis.Draw
when = record {
  analysis = record { since_now = 5; alert_id = 7; created_at = 5 };
  entry_id = 30;
  created_at = 6;
}

abbrev request : AnalyzeRequest
request = record { tenant_id = "acme"; agent_id = "bot"; lookback_hours = 1 }

abbrev report : DriftReport decimals.Value
report = record (assess decimals (some baseline) (tally failing.events []) 2) {
  alert_created = true;
}

abbrev new_alerts : List SentinelAlert
new_alerts = new_alert 7 5 (alert_of list_engine true decimals request report) ∷ []

valid : request_of failing.state ≡ ok request
unfolding request_of
valid = refl

analysis :
    analyze list_engine true decimals when.analysis request failing.events failing.baselines []
    ≡ (ok report, new_alerts)
unfolding program
analysis = refl

found-Recorded_example :
    (active : Option AgentBaseline) × (get_active_baseline list_engine "acme" "bot"
        failing.baselines
      ≡ ok active)
    × (let score = score_of list_engine true decimals when.analysis request failing.events active in
        Recorded list_engine true decimals when failing report new_alerts
          (is_high decimals score)
          (found list_engine true decimals when failing)
        × Alerted list_engine true decimals when.analysis request [] new_alerts report score)
found-Recorded_example =
    found-Recorded list_engine true decimals when failing request report new_alerts valid analysis
      (omega arith) (omega arith) tt
