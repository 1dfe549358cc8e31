-- ===== src/Workflow/Response.antt =====
-- langgraph_workflows/sentinels/graph.py: the automated response to an alert. The graph's state is
-- modelled together with the tables that its nodes read and write. `UUID(...)` and `str` of a UUID are
-- parameters; an error stands for its text, which is never empty.
pub mod Paths
pub mod Effects
pub mod Trail
use Prim.Native.String.{◌++◌}
use dox.Prelude.{
  or_text, ℕ, Bool, true, false, String, Option, none, some, List, [], ◌∷◌, filter, ◌==◌, String_eq,
}
use dox.Result.{Error, Result, ok, err, and_then, Exec, ◌>>=◌, reads}
use dox.Enums.{InterventionAction, action_str, parse_action}
use dox.Json.{Json, null, bool, str, obj, Fields, end, field}
use dox.Sql.{Sql}
use dox.Sentinel.{SentinelAlert, get_alert, resolve_alert}
use dox.Policy.{Policy, list_policies, to_action}
use dox.Audit.{AuditEntry, AuditEntryCreate, record_checked}
use dox.Workflow.{Graph}

-- `SentinelResponseState`, without the text of the alert, which no node reads.
pub record ResponseState : Type 0 where
  pub alert_id : String
  pub tenant_id : String
  pub alert_severity : Option String
  pub alert_type : Option String
  pub agent_id : Option String
  pub matched_policy_id : Option ℕ
  pub action_taken : Option String
  pub audit_entry_id : Option ℕ
  pub resolved : Bool
  pub error : Option Error

pub record Scene : Type 0 where
  pub state : ResponseState
  pub alerts : List SentinelAlert
  pub policies : List Policy
  pub trail : List AuditEntry

-- What a run draws: the time of the resolution, and the identifier and the time of the entry.
pub record Draw : Type 0 where
  pub now : ℕ
  pub entry_id : ℕ
  pub created_at : ℕ

-- The nodes: `load_alert`, `find_policy`, `execute_action`, `resolve_with_default`, `record_outcome`.
pub data Node : Type 0 where
  load find execute default outcome : Node

abbrev pub str_or_null : Option String → Json
str_or_null none = null
str_or_null (some s) = str s

abbrev pub is_for : String → Policy → Bool
is_for alert_type p = p.sentinel_type == alert_type

abbrev on_load : Result SentinelAlert → ResponseState → ResponseState
on_load (ok a) s = record s {
  alert_severity = some a.severity;
  alert_type = some a.sentinel_type;
  agent_id = some a.agent_id;
  error = none;
}
on_load (err e) s = record s { error = some e }

-- The action is the first policy's, where there is one.
abbrev pub choose : List Policy → ResponseState → ResponseState
choose [] s = record s { matched_policy_id = none; action_taken = none }
choose (p ∷ matching) s = record s { matched_policy_id = some p.id; action_taken = some p.action }

-- What the resolution of the alert leaves in the state, returned or raised.
abbrev on_execute : Result SentinelAlert → ResponseState → ResponseState
on_execute (ok a) s = record s { resolved = true; error = none }
on_execute (err e) s = record s { resolved = false; error = some e }

abbrev on_default : Result SentinelAlert → ResponseState → ResponseState
on_default (ok a) s = record s {
  resolved = true;
  action_taken = some (action_str InterventionAction.warn);
}
on_default (err e) s = record s { resolved = false; error = some e }

abbrev on_record : Result AuditEntry → ResponseState → ResponseState
on_record (ok entry) s = record s { audit_entry_id = some entry.id }
on_record (err e) s = record s { error = some e }

-- `_route_after_load` and `_route_after_policy`
abbrev pub route_after_load : Option Error → Option Node
route_after_load none = some Node.find
route_after_load (some e) = none

abbrev pub route_after_policy : Option ℕ → Option Node
route_after_policy none = some Node.default
route_after_policy (some k) = some Node.execute

module _ (sql : Sql) (parse_id : String → Result ℕ) (str_id : ℕ → String) (draw : Draw) where
  -- `get_alert(UUID(alert_id))`
  unfoldable pub loaded : Scene → Result SentinelAlert
  unfolding get_alert
  loaded s = and_then (parse_id s.state.alert_id) (λ k. get_alert sql k s.alerts)

  unfoldable pub load_alert : Scene → Scene
  unfolding loaded
  load_alert s = record s { state = on_load (loaded s) s.state }

  unfoldable pub find_policy : Scene → Scene
  unfolding list_policies
  find_policy s =
      let found = list_policies sql s.state.tenant_id true s.policies in
      record s { state = choose (filter (is_for (or_text s.state.alert_type "")) found) s.state }

  -- `resolve_alert(UUID(alert_id), action)`
  unfoldable pub resolve : String → InterventionAction → Exec (List SentinelAlert) SentinelAlert
  unfolding resolve_alert
  resolve alert_id action = do
    k ← reads (λ alerts. parse_id alert_id)
    resolve_alert sql k action draw.now

  -- Nothing is written where the action is no member of the enumeration.
  unfoldable pub apply_action : ResponseState → Exec (List SentinelAlert) SentinelAlert
  unfolding resolve parse_action
  apply_action s = do
    action ← reads (λ alerts. to_action (or_text s.action_taken "warn"))
    resolve s.alert_id action

  unfoldable pub execute_action : Scene → Scene
  unfolding apply_action
  execute_action s =
      let done = apply_action s.state s.alerts in
      record s { state = on_execute done.0 s.state; alerts = done.1 }

  unfoldable pub resolve_with_default : Scene → Scene
  unfolding resolve action_str
  resolve_with_default s =
      let done = resolve s.state.alert_id InterventionAction.warn s.alerts in
      record s { state = on_default done.0 s.state; alerts = done.1 }

  unfoldable pub outcome_of : ResponseState → AuditEntryCreate
  outcome_of s = record {
    tenant_id = s.tenant_id;
    actor_id = none;
    actor_email = "system";
    action = "sentinel_response_applied";
    resource_type = "sentinel_alert";
    resource_id = s.alert_id;
    summary =
        "Automated sentinel response for alert "
        ++ s.alert_id
        ++ ": action="
        ++ or_text s.action_taken "none";
    extra = obj (
        field "alert_severity" (str_or_null s.alert_severity) (
          field "alert_type" (str_or_null s.alert_type) (
            field "policy_id" (elim s.matched_policy_id [ none ↦ null | some k ↦ str (str_id k) ])
              (field "action_taken" (str_or_null s.action_taken)
                (field "resolved" (bool s.resolved) end)))));
  }

  unfoldable pub record_outcome : Scene → Scene
  unfolding outcome_of record_checked
  record_outcome s =
      let done = record_checked draw.entry_id draw.created_at (outcome_of s.state) s.trail in
      record s { state = on_record done.0 s.state; trail = done.1 }

  unfoldable pub act : Node → Scene → Scene
  unfolding load_alert find_policy execute_action resolve_with_default record_outcome
  act Node.load = load_alert
  act Node.find = find_policy
  act Node.execute = execute_action
  act Node.default = resolve_with_default
  act Node.outcome = record_outcome

  abbrev pub route : Node → Scene → Option Node
  route Node.load s = route_after_load s.state.error
  route Node.find s = route_after_policy s.state.matched_policy_id
  route Node.execute s = some Node.outcome
  route Node.default s = some Node.outcome
  route Node.outcome s = none

  abbrev pub response_graph : Graph Node Scene
  response_graph = record { start = Node.load; act = act; next = route }
