-- ===== src/Workflow/Review.antt =====
-- langgraph_workflows/human_review/graph.py: a human's decision on an alert. The graph's state is
-- modelled together with the tables that its nodes read and write. `UUID(...)` and the text of an alert
-- are parameters; an error stands for its text, which is never empty.
pub mod Actions
pub mod Decision
pub mod Paths
use Prim.Native.String.{◌++◌}
use dox.Prelude.{
  ℕ, Bool, true, false, String, Option, none, some, List, ◌==◌, String_eq, or_text, if◌then◌else◌,
}
use dox.Result.{Error, Result, ok, err, and_then, Exec, ◌>>=◌, reads}
use dox.Enums.{InterventionAction, action_str}
use dox.Json.{Json, null, str, obj, end, field}
use dox.Sql.{Sql}
use dox.Sentinel.{SentinelAlert, get_alert, resolve_alert}
use dox.Audit.{AuditEntry, AuditEntryCreate, record_checked}
use dox.Workflow.{Graph}
use dox.Workflow.Response.{str_or_null}

-- `HumanReviewState`
pub record ReviewState : Type 0 where
  pub alert_id : String
  pub tenant_id : String
  pub alert_severity : Option String
  pub alert_type : Option String
  pub alert_message : Option String
  pub reviewer_id : Option String
  pub decision : Option String
  pub notes : Option String
  pub audit_entry_id : Option ℕ
  pub resolved : Bool
  pub error : Option Error

pub record Scene : Type 0 where
  pub state : ReviewState
  pub alerts : List SentinelAlert
  pub trail : List AuditEntry

-- What a run draws: the time of the resolution, and the identifier and the time of each entry.
pub record Draw : Type 0 where
  pub now : ℕ
  pub request_id : ℕ
  pub requested_at : ℕ
  pub decision_id : ℕ
  pub decided_at : ℕ

-- The nodes: `load_alert`, `request_review`, `record_decision`.
pub data Node : Type 0 where
  load request decide : Node

-- `action_map.get(decision, InterventionAction.warn)`
unfoldable pub action_of : String → InterventionAction
action_of decision =
    if decision == "approve"
    then InterventionAction.allow
    else if decision == "reject"
    then InterventionAction.block_tool_call
    else if decision == "escalate"
    then InterventionAction.request_human_review
    else InterventionAction.warn

-- Python's `str` of a text or of None.
abbrev shown : Option String → String
shown none = "None"
shown (some s) = s

-- `_route_after_load`, and `_route_after_request`, for which an empty decision is none.
abbrev pub route_after_load : Option Error → Option Node
route_after_load none = some Node.request
route_after_load (some e) = none

abbrev pub route_on_decision : Option String → Option Node
route_on_decision none = none
route_on_decision (some String.[]) = none
route_on_decision (some s) = some Node.decide

abbrev pub route_after_request : Option Error → Option String → Option Node
route_after_request none decision = route_on_decision decision
route_after_request (some e) decision = none

module _ (sql : Sql) (parse_id : String → Result ℕ) (message : SentinelAlert → String)
    (draw : Draw) where
  abbrev on_load : Result SentinelAlert → ReviewState → ReviewState
  on_load (ok a) s = record s {
    alert_severity = some a.severity;
    alert_type = some a.sentinel_type;
    alert_message = some (message a);
    error = none;
  }
  on_load (err e) s = record s { error = some e }

  -- `get_alert(UUID(alert_id))`
  unfoldable pub loaded : Scene → Result SentinelAlert
  unfolding get_alert
  loaded s = and_then (parse_id s.state.alert_id) (λ k. get_alert sql k s.alerts)

  unfoldable pub load_alert : Scene → Scene
  unfolding loaded
  load_alert s = record s { state = on_load (loaded s) s.state }

  unfoldable pub request_of : ReviewState → AuditEntryCreate
  request_of s = record {
    tenant_id = s.tenant_id;
    actor_id = none;
    actor_email = "system";
    action = "human_review_requested";
    resource_type = "sentinel_alert";
    resource_id = s.alert_id;
    summary = "Human review requested for alert " ++ s.alert_id ++ ": " ++ shown s.alert_message;
    extra = obj (
        field "severity" (str_or_null s.alert_severity) (
          field "type" (str_or_null s.alert_type)
            (field "reviewer_id" (str_or_null s.reviewer_id) end)));
  }

  abbrev on_request : Result AuditEntry → ReviewState → ReviewState
  on_request (ok entry) s = record s { audit_entry_id = some entry.id }
  on_request (err e) s = record s { error = some e }

  unfoldable pub request_review : Scene → Scene
  unfolding request_of record_checked
  request_review s =
      let done = record_checked draw.request_id draw.requested_at (request_of s.state) s.trail in
      record s { state = on_request done.0 s.state; trail = done.1 }

  unfoldable pub decision_of : ReviewState → String → AuditEntryCreate
  unfolding action_of action_str
  decision_of s decision = record {
    tenant_id = s.tenant_id;
    actor_id = none;
    actor_email = or_text s.reviewer_id "system";
    action = "human_review_completed";
    resource_type = "sentinel_alert";
    resource_id = s.alert_id;
    summary = "Human review decision '" ++ decision ++ "' recorded for alert " ++ s.alert_id;
    extra = obj (
        field "decision" (str decision) (
          field "notes" (str_or_null s.notes)
            (field "action_taken" (str (action_str (action_of decision))) end)));
  }

  -- `resolve_alert(UUID(alert_id), action)`
  unfoldable pub resolve : String → InterventionAction → Exec (List SentinelAlert) SentinelAlert
  unfolding resolve_alert
  resolve alert_id action = do
    k ← reads (λ alerts. parse_id alert_id)
    resolve_alert sql k action draw.now

  abbrev on_decision : Result AuditEntry → ReviewState → ReviewState
  on_decision (ok entry) s = record s { resolved = true; error = none }
  on_decision (err e) s = record s { resolved = false; error = some e }

  -- After the resolution, which stays where the recording raises.
  abbrev resolved_then :
      Result SentinelAlert × List SentinelAlert → AuditEntryCreate → Scene → Scene
  resolved_then (ok a, alerts) create s =
      let done = record_checked draw.decision_id draw.decided_at create s.trail in
      record s { state = on_decision done.0 s.state; alerts = alerts; trail = done.1 }
  resolved_then (err e, alerts) create s = record s {
    state = record s.state { resolved = false; error = some e };
    alerts = alerts;
  }

  unfoldable pub record_decision : Scene → Scene
  unfolding resolve decision_of record_checked action_of
  record_decision s =
      let decision = or_text s.state.decision "reject" in
      resolved_then (resolve s.state.alert_id (action_of decision) s.alerts)
        (decision_of s.state decision) s

  unfoldable pub act : Node → Scene → Scene
  unfolding load_alert request_review record_decision
  act Node.load = load_alert
  act Node.request = request_review
  act Node.decide = record_decision

  abbrev pub route : Node → Scene → Option Node
  route Node.load s = route_after_load s.state.error
  route Node.request s = route_after_request s.state.error s.state.decision
  route Node.decide s = none

  abbrev pub review_graph : Graph Node Scene
  review_graph = record { start = Node.load; act = act; next = route }
