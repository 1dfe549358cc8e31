-- ===== src/Workflow/Analysis.antt =====
-- langgraph_workflows/drift_analysis/graph.py: an analysis of drift, and the entry on what it finds.
-- The graph's state is modelled together with the tables. An analysis that looks back a negative number of hours is refused like one of more than 168.
pub mod Finding
use Prim.Native.String.{◌++◌}
use dox.Prelude.{
  ℕ, Bool, true, false, ◌&&◌, ◌||◌, String, Option, none, some, List, length, leb, ◌==◌, String_eq,
  ℕ_eq, if◌then◌else◌,
}
use dox.Result.{Error, Result, ok, err, value_error, Exec, ◌>>=◌, reads}
use dox.Json.{Json, null, str, num, obj, end, field}
use dox.Sql.{Sql}
use dox.Events.{EventRecord}
use dox.Sentinel.{SentinelAlert}
use dox.Drift.{AgentBaseline, Float}
use dox.Drift.Analysis.{AnalyzeRequest, DriftReport, analyze}
use dox.Drift.Analysis
use dox.Audit.{AuditEntry, AuditEntryCreate, record_checked}
use dox.Workflow.{Graph}
use dox.Workflow.Response.{str_or_null}

-- `DriftAnalysisState`
pub record AnalysisState (V : Type 0) : Type 0 where
  pub tenant_id : String
  pub agent_id : String
  pub lookback_hours : ℕ
  pub drift_score : Option V
  pub severity : Option String
  pub deviations_count : ℕ
  pub alert_created : Bool
  pub audit_entry_id : Option ℕ
  pub error : Option Error

pub record Scene (V : Type 0) : Type 0 where
  pub state : AnalysisState V
  pub events : List EventRecord
  pub baselines : List AgentBaseline
  pub alerts : List SentinelAlert
  pub trail : List AuditEntry

pub record Draw : Type 0 where
  pub analysis : Analysis.Draw
  pub entry_id : ℕ
  pub created_at : ℕ

-- The nodes: `analyze_drift`, `record_finding`.
pub data Node : Type 0 where
  analysis finding : Node

-- `AnalyzeRequest(...)`, with `lookback_hours or 1` and the bounds of the schema.
unfoldable pub request_of : {V : Type 0} → AnalysisState V → Result AnalyzeRequest
request_of s =
    let hours = if s.lookback_hours == 0 then 1 else s.lookback_hours in
    if leb 1 hours && leb hours 168
    then ok (record { tenant_id = s.tenant_id; agent_id = s.agent_id; lookback_hours = hours })
    else err value_error

abbrev pub on_analysis : {V : Type 0} → Result (DriftReport V) → AnalysisState V → AnalysisState V
on_analysis (ok report) s = record s {
  drift_score = some report.score;
  severity = some report.severity;
  deviations_count = length report.deviations;
  alert_created = report.alert_created;
  error = none;
}
on_analysis (err e) s = record s {
  drift_score = none;
  severity = some "none";
  deviations_count = 0;
  alert_created = false;
  error = some e;
}

abbrev pub is_severe : String → Bool
is_severe s = s == "medium" || s == "high" || s == "critical"

-- `_route_after_analysis`
abbrev pub route_on_severity : Option String → Option Node
route_on_severity none = none
route_on_severity (some s) = if is_severe s then some Node.finding else none

abbrev pub route_after_analysis : Option Error → Option String → Option Node
route_after_analysis (some e) severity = none
route_after_analysis none severity = route_on_severity severity

abbrev shown : Option String → String
shown none = "None"
shown (some s) = s

module _ (sql : Sql) (has_sentinel : Bool) (float : Float) (audited : Bool) (draw : Draw) where
  -- `state.get("drift_score") or 0.0`
  abbrev or_zero : Option float.Value → float.Value
  or_zero none = float.ratio 0 10
  or_zero (some s) = s

  -- `analyze(AnalyzeRequest(...))`
  unfoldable pub analyzed :
      Scene float.Value → Result (DriftReport float.Value) × List SentinelAlert
  unfolding request_of analyze
  analyzed s =
      (do
        request ← reads (λ alerts. request_of s.state)
        analyze sql has_sentinel float draw.analysis request s.events s.baselines)
        s.alerts

  unfoldable pub analyze_drift : Scene float.Value → Scene float.Value
  unfolding analyzed
  analyze_drift s = record s { state = on_analysis (analyzed s).0 s.state; alerts = (analyzed s).1 }

  unfoldable pub finding_of : AnalysisState float.Value → AuditEntryCreate
  finding_of s = record {
    tenant_id = s.tenant_id;
    actor_id = none;
    actor_email = "system";
    action = "drift_detected";
    resource_type = "agent";
    resource_id = s.agent_id;
    summary =
        "Drift detected for agent "
        ++ s.agent_id
        ++ ": score="
        ++ float.to_text (or_zero s.drift_score)
        ++ " severity="
        ++ shown s.severity;
    extra = obj (
        field "drift_score" (float.to_json (or_zero s.drift_score)) (
          field "severity" (str_or_null s.severity)
            (field "deviations_count" (num s.deviations_count) end)));
  }

  abbrev on_record : Result AuditEntry → AnalysisState float.Value → AnalysisState float.Value
  on_record (ok entry) s = record s { audit_entry_id = some entry.id }
  on_record (err e) s = record s { audit_entry_id = none; error = some e }

  -- Without an audit service nothing is recorded.
  unfoldable pub record_finding : Scene float.Value → Scene float.Value
  unfolding finding_of record_checked
  record_finding s =
      let done = record_checked draw.entry_id draw.created_at (finding_of s.state) s.trail in
      if audited
      then record s { state = on_record done.0 s.state; trail = done.1 }
      else record s { state = record s.state { audit_entry_id = none } }

  unfoldable pub act : Node → Scene float.Value → Scene float.Value
  unfolding analyze_drift record_finding
  act Node.analysis = analyze_drift
  act Node.finding = record_finding

  abbrev pub route : Node → Scene float.Value → Option Node
  route Node.analysis s = route_after_analysis s.state.error s.state.severity
  route Node.finding s = none

  abbrev pub analysis_graph : Graph Node (Scene float.Value)
  analysis_graph = record { start = Node.analysis; act = act; next = route }
