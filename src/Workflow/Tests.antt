-- ===== src/Workflow/Tests.antt =====
-- An alert with two policies for it: the newer one asks for a human, the older one only warns.
use dox.Prelude.{
  ℕ, ◌≡◌, refl, true, false, String, none, some, [], ◌∷◌, All, arith, ℕ_eq, String_eq,
  if◌then◌else◌, ◌==◌,
}
use dox.Result.{Result, ok, err, value_error}
use dox.Enums.{InterventionAction, action_str, parse_action}
use dox.Json.{null}
use dox.Sql.{fetch, get, save, change, commit}
use dox.Sql.Engine.{list_engine}
use dox.Sql.Rows.{find}
use dox.Sorting.{sort}
use dox.Sentinel.{SentinelAlert, resolved}
use dox.Policy.{Policy, list_policies}
use dox.Policy.Verdict.{HasAction}
use dox.Workflow.{Reach, here, finish, run}
use dox.Workflow.Response.{
  Scene, Draw, Node, loaded, load_alert, find_policy, resolve, apply_action, execute_action,
  record_outcome, act, response_graph,
}
use dox.Workflow.Review
use dox.Workflow.Review.Decision.{Asked, review, Decides, review-Decides}
use dox.Workflow.Response.Paths.{Way, respond, respond-Reach}
use dox.Workflow.Response.Effects.{Prescribed, IsResolved, respond-Prescribed}
use dox.Workflow.Response.Trail.{IsRecorded, respond-IsRecorded}

abbrev parse_id : String → Result ℕ
parse_id s = if s == "alert-4" then ok 4 else err value_error

abbrev str_id : ℕ → String
str_id n = "7"

abbrev alert : SentinelAlert
alert = record {
  id = 4;
  event_id = none;
  tenant_id = "acme";
  agent_id = "bot";
  sentinel_type = "tool_misuse";
  severity = "high";
  details = null;
  action_taken = none;
  is_resolved = false;
  resolved_at = none;
  created_at = 3;
}

abbrev policy : ℕ → String → Policy
policy n action = record {
  id = n;
  tenant_id = "acme";
  name = "rule";
  description = "";
  sentinel_type = "tool_misuse";
  severity = "low";
  action = action;
  is_active = true;
  config = null;
  created_at = n;
}

abbrev start : Scene
start = record {
  state = record {
    alert_id = "alert-4";
    tenant_id = "acme";
    alert_severity = none;
    alert_type = none;
    agent_id = none;
    matched_policy_id = none;
    action_taken = none;
    audit_entry_id = none;
    resolved = false;
    error = none;
  };
  alerts = alert ∷ [];
  policies = policy 6 "warn" ∷ policy 7 "request_human_review" ∷ [];
  trail = [];
}

abbrev draw : Draw
draw = record { now = 20; entry_id = 30; created_at = 21 }

asked_a_human :
    (respond list_engine parse_id str_id draw start).alerts
    ≡ resolved InterventionAction.request_human_review 20 alert ∷ []
unfolding finish run act load_alert loaded find_policy execute_action apply_action resolve
    record_outcome list_policies change get fetch commit save action_str parse_action sort
asked_a_human = refl

respond-Reach_example :
    let t = respond list_engine parse_id str_id draw start in
    Reach (response_graph list_engine parse_id str_id draw) (some Node.load, start) (none, t)
    × Way list_engine parse_id str_id draw (loaded list_engine parse_id str_id draw start) start t
respond-Reach_example =
    respond-Reach list_engine parse_id str_id draw start (some Node.load, start) (here refl)

start-HasAction : All HasAction start.policies
unfolding parse_action
start-HasAction =
    ((InterventionAction.warn, refl), ((InterventionAction.request_human_review, refl), tt))

respond-Prescribed_example :
    (action : InterventionAction) × Prescribed list_engine parse_id str_id draw "acme" alert
      start.policies action
    × IsResolved list_engine parse_id str_id draw action alert start
        (respond list_engine parse_id str_id draw start)
unfolding find
respond-Prescribed_example =
    respond-Prescribed list_engine parse_id str_id draw start 4 alert refl (tt, tt) refl
      start-HasAction

respond-IsRecorded_example :
    IsRecorded list_engine parse_id str_id draw start
      (respond list_engine parse_id str_id draw start)
unfolding loaded fetch get
respond-IsRecorded_example =
    respond-IsRecorded list_engine parse_id str_id draw start (omega arith) (omega arith) tt

abbrev asked : Review.Scene
asked = record {
  state = record {
    alert_id = "alert-4";
    tenant_id = "acme";
    alert_severity = none;
    alert_type = none;
    alert_message = none;
    reviewer_id = some "ann";
    decision = some "approve";
    notes = none;
    audit_entry_id = none;
    resolved = false;
    error = none;
  };
  alerts = alert ∷ [];
  trail = [];
}

abbrev review_draw : Review.Draw
review_draw = record {
  now = 20;
  request_id = 30;
  requested_at = 21;
  decision_id = 31;
  decided_at = 22;
}

abbrev message : SentinelAlert → String
message a = "tool misuse"

review-Decides_example :
    Asked list_engine parse_id message review_draw alert asked
    × Decides list_engine parse_id message review_draw alert asked
        (some "approve")
        (review list_engine parse_id message review_draw asked)
unfolding find
review-Decides_example =
    review-Decides list_engine parse_id message review_draw asked 4 alert refl (tt, tt) refl
      (omega arith) (omega arith) tt tt refl
