-- ===== src/Policy/Tests.antt =====
-- Two policies that apply to a request, and the theorems at them.
use dox.Prelude.{
  ℕ, ◌≡◌, refl, true, false, ◌&&◌, not, String, List, [], ◌∷◌, none, some, length, ◌==◌, ℕ_eq, All,
  leb,
}
use dox.Result.{ok, err}
use dox.Enums.{SentinelType, Severity, InterventionAction, action_str, parse_action}
use dox.Json.{null}
use dox.Sql.{fetch, get, save, change, commit}
use dox.Sql.Engine.{list_engine}
use dox.Prelude.{map, ◌↔◌, String, some, String_eq}
use dox.Policy.Config
use dox.Sql.Rows.{Distinct}
use dox.Result.{value_error}
use dox.Policy.Config.{load_for_tenant, for_tenant, load_for_tenant-Distinct}
use dox.Policy.{
  Policy, PolicyCreate, PolicyUpdate, PolicyEvaluateRequest, PolicyEvaluationResult, evaluate,
  get_policy, update_policy, create_policy, deactivate_policy, patched, matched, policy_matches,
  action_rank, severity_rank, rank_in, max_by_rank, winning_action, to_matched, block_threshold,
}
use dox.Policy.Verdict.{applies, top_rank, HasAction, action_rank-evaluate, evaluate_total}
use dox.Policy.Updates.{create_policy-update_policy-HasAction, evaluate-deactivate_policy}

abbrev policy : ℕ → String → String → Policy
policy id severity action = record {
  id = id;
  tenant_id = "acme";
  name = "rule";
  description = "";
  sentinel_type = "tool_misuse";
  severity = severity;
  action = action;
  is_active = true;
  config = null;
  created_at = id;
}

abbrev rows : List Policy
rows = policy 1 "low" "warn" ∷ policy 2 "high" "block_tool_call" ∷ []

abbrev request : Severity → PolicyEvaluateRequest
request severity = record {
  tenant_id = "acme";
  sentinel_type = SentinelType.tool_misuse;
  severity = severity;
}

abbrev blocked : PolicyEvaluationResult
blocked = record {
  tenant_id = "acme";
  sentinel_type = SentinelType.tool_misuse;
  severity = Severity.high;
  matched_count = 2;
  matched_policies =
      record { id = 1; name = "rule"; action = InterventionAction.warn }
      ∷ record { id = 2; name = "rule"; action = InterventionAction.block_tool_call }
      ∷ [];
  action = InterventionAction.block_tool_call;
  is_blocked = true;
}

abbrev warned : Severity → PolicyEvaluationResult
warned severity = record {
  tenant_id = "acme";
  sentinel_type = SentinelType.tool_misuse;
  severity = severity;
  matched_count = 1;
  matched_policies = record { id = 1; name = "rule"; action = InterventionAction.warn } ∷ [];
  action = InterventionAction.warn;
  is_blocked = false;
}

program : Unit {0}
unfolding fetch get save change commit evaluate get_policy update_policy create_policy
    deactivate_policy patched matched policy_matches action_rank severity_rank rank_in max_by_rank
    winning_action to_matched parse_action action_str
program = tt

run_high : evaluate list_engine (request Severity.high) rows ≡ ok blocked
unfolding program
run_high = refl

run_low : evaluate list_engine (request Severity.low) rows ≡ ok (warned Severity.low)
unfolding program
run_low = refl

action_rank-evaluate_example :
    (action_rank "block_tool_call" ≡ top_rank (applies (request Severity.high)) rows)
    × (true ≡ leb block_threshold (top_rank (applies (request Severity.high)) rows))
unfolding program
action_rank-evaluate_example =
    action_rank-evaluate list_engine (request Severity.high) rows blocked run_high

rows-HasAction : All HasAction rows
unfolding parse_action action_str
rows-HasAction = ((InterventionAction.warn, refl), ((InterventionAction.block_tool_call, refl), tt))

evaluate_total_example :
    (res : PolicyEvaluationResult) × (evaluate list_engine (request Severity.medium) rows ≡ ok res)
    × (length res.matched_policies ≡ res.matched_count)
evaluate_total_example = evaluate_total list_engine (request Severity.medium) rows rows-HasAction

abbrev milder : PolicyUpdate
milder = record {
  name = none;
  description = none;
  severity = none;
  action = some InterventionAction.redact;
  is_active = none;
  config = none;
}

abbrev new : PolicyCreate
new = record {
  tenant_id = "acme";
  name = "new";
  description = "";
  sentinel_type = SentinelType.drift;
  severity = Severity.low;
  action = InterventionAction.allow;
  config = null;
}

create_policy-update_policy-HasAction_example :
    All HasAction (create_policy 3 7 new rows).1
    × All HasAction (update_policy list_engine 2 milder rows).1
create_policy-update_policy-HasAction_example =
    create_policy-update_policy-HasAction list_engine 3 7 2 new milder rows ((refl, tt), (tt, tt))
      rows-HasAction

after_deactivation :
    evaluate list_engine (request Severity.high) (deactivate_policy list_engine 2 rows).1
    ≡ ok (warned Severity.high)
unfolding program
after_deactivation = refl

evaluate-deactivate_policy_example :
    action_rank (action_str InterventionAction.warn)
    ≡ top_rank (λ p. applies (request Severity.high) p && not (p.id == 2)) rows
evaluate-deactivate_policy_example =
    evaluate-deactivate_policy list_engine 2 (request Severity.high) rows (warned Severity.high)
      ((refl, tt), (tt, tt)) after_deactivation

abbrev entry : String → Config.PolicyConfigEntry
entry name = record {
  name = name;
  description = "";
  sentinel_type = SentinelType.tool_misuse;
  severity = Severity.high;
  action = InterventionAction.warn;
  config = null;
}

abbrev entries : List Config.PolicyConfigEntry
entries = entry "a" ∷ entry "b" ∷ entry "a" ∷ []

load_for_tenant-Distinct_example :
    ((load_for_tenant String (λ path. ok (some entries)) "p" "acme"
        ≡ ok (map (for_tenant String (λ path. ok (some entries)) "acme") entries))
      ↔ Distinct (λ n. n) (map (λ p. p.name) entries))
    × ((load_for_tenant String (λ path. ok (some entries)) "p" "acme" ≡ err value_error)
        ↔ ¬ Distinct (λ n. n) (map (λ p. p.name) entries))
load_for_tenant-Distinct_example =
    load_for_tenant-Distinct String (λ path. ok (some entries)) "p" "acme" entries refl
