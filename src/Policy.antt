-- ===== src/Policy.antt =====
-- services/policy/service.py, the policies of services/sentinel/service.py and
-- common/models/policy.py: the rules of a tenant, and the action that a request meets. The state is
-- the table of policies, as committed.
pub mod Verdict
pub mod Updates
pub mod Config
mod Tests
use mathlib.Core.Option
use dox.Prelude.{
  ℕ, Bool, true, false, ◌&&◌, not, ◌||◌, String, Option, none, some, List, [], ◌∷◌, length, map,
  filter, if◌then◌else◌, leb, ltb, ◌==◌, ℕ_eq, String_eq,
}
use dox.Result.{Result, ok, err, value_error, Exec, and_then, map_ok}
use dox.Enums.{
  SentinelType, Severity, InterventionAction, sentinel_type_str, severity_str, action_str,
  parse_action,
}
use dox.Json.{Json}
use dox.Sql.{Sql, get, add, change}

-- The row holds the values of the enumerations as strings.
pub record Policy : Type 0 where
  pub id : ℕ
  pub tenant_id : String
  pub name : String
  pub description : String
  pub sentinel_type : String
  pub severity : String
  pub action : String
  pub is_active : Bool
  pub config : Json
  pub created_at : ℕ

pub record PolicyCreate : Type 0 where
  pub tenant_id : String
  pub name : String
  pub description : String
  pub sentinel_type : SentinelType
  pub severity : Severity
  pub action : InterventionAction
  pub config : Json

-- A field that is not given is left as it is.
pub record PolicyUpdate : Type 0 where
  pub name : Option String
  pub description : Option String
  pub severity : Option Severity
  pub action : Option InterventionAction
  pub is_active : Option Bool
  pub config : Option Json

pub record PolicyEvaluateRequest : Type 0 where
  pub tenant_id : String
  pub sentinel_type : SentinelType
  pub severity : Severity

pub record MatchedPolicy : Type 0 where
  pub id : ℕ
  pub name : String
  pub action : InterventionAction

pub record PolicyEvaluationResult : Type 0 where
  pub tenant_id : String
  pub sentinel_type : SentinelType
  pub severity : Severity
  pub matched_count : ℕ
  pub matched_policies : List MatchedPolicy
  pub action : InterventionAction
  pub is_blocked : Bool

-- `d.get(k, 0)` of a dictionary.
unfoldable pub rank_in : List (String × ℕ) → String → ℕ
rank_in [] k = 0
rank_in ((j, n) ∷ d) k = if j == k then n else rank_in d k

abbrev pub action_ranks : List (String × ℕ)
action_ranks =
    ("allow", 0)
    ∷ ("warn", 1)
    ∷ ("redact", 2)
    ∷ ("request_human_review", 3)
    ∷ ("block_tool_call", 4)
    ∷ ("pause_agent", 5)
    ∷ ("rollback_memory_write", 6)
    ∷ ("force_safe_response", 7)
    ∷ ("isolate_agent", 8)
    ∷ ("terminate_execution", 9)
    ∷ []

abbrev pub severity_ranks : List (String × ℕ)
severity_ranks = ("low", 0) ∷ ("medium", 1) ∷ ("high", 2) ∷ ("critical", 3) ∷ []

unfoldable pub action_rank : String → ℕ
unfolding rank_in
action_rank = rank_in action_ranks

unfoldable pub severity_rank : String → ℕ
unfolding rank_in
severity_rank = rank_in severity_ranks

-- `_BLOCK_THRESHOLD`
abbrev pub block_threshold : ℕ
block_threshold = 4

unfoldable pub policy_matches : PolicyEvaluateRequest → Policy → Bool
policy_matches request policy =
    leb (severity_rank policy.severity) (severity_rank (severity_str request.severity))

-- `max(policies, key=...)`: the first of those with the greatest rank.
unfoldable pub max_by_rank : Policy → List Policy → Policy
max_by_rank best [] = best
max_by_rank best (p ∷ policies) =
    max_by_rank (if ltb (action_rank best.action) (action_rank p.action) then p else best) policies

-- `InterventionAction(s)`, which raises ValueError for a string that is no member.
abbrev pub to_action : String → Result InterventionAction
to_action s = elim (parse_action s) [ none ↦ err value_error | some a ↦ ok a ]

unfoldable pub winning_action : List Policy → Result InterventionAction
winning_action [] = ok InterventionAction.allow
winning_action (p ∷ policies) = to_action (max_by_rank p policies).action

-- The models of the response: an action that is no member fails its validation.
unfoldable pub to_matched : List Policy → Result (List MatchedPolicy)
to_matched [] = ok []
to_matched (p ∷ policies) = and_then (to_action p.action) λ a.
    map_ok (λ rest. record { id = p.id; name = p.name; action = a } ∷ rest) (to_matched policies)

abbrev pub is_candidate : PolicyEvaluateRequest → Policy → Bool
is_candidate request p =
    p.tenant_id == request.tenant_id
    && (p.sentinel_type == sentinel_type_str request.sentinel_type && p.is_active)

abbrev pub or_same {ℓ} : {A : Type ℓ} → Option A → A → A
or_same none old = old
or_same (some new) old = new

-- `setattr` of each field that the patch has.
unfoldable pub patched : PolicyUpdate → Policy → Policy
unfolding severity_str action_str
patched u p = record p {
  name = or_same u.name p.name;
  description = or_same u.description p.description;
  severity = or_same (Option.map severity_str u.severity) p.severity;
  action = or_same (Option.map action_str u.action) p.action;
  is_active = or_same u.is_active p.is_active;
  config = or_same u.config p.config;
}

abbrev pub clash : Policy → Policy → Bool
clash p r = r.id == p.id

unfoldable pub new_policy : ℕ → ℕ → PolicyCreate → Policy
unfolding sentinel_type_str severity_str action_str
new_policy id created_at create = record {
  id = id;
  tenant_id = create.tenant_id;
  name = create.name;
  description = create.description;
  sentinel_type = sentinel_type_str create.sentinel_type;
  severity = severity_str create.severity;
  action = action_str create.action;
  is_active = true;
  config = create.config;
  created_at = created_at;
}

unfoldable pub create_policy : ℕ → ℕ → PolicyCreate → Exec (List Policy) Policy
unfolding add new_policy
create_policy id created_at create = add clash (new_policy id created_at create)

module _ (sql : Sql) where
  unfoldable pub get_policy : ℕ → List Policy → Result Policy
  unfolding get
  get_policy policy_id = get sql (λ p. p.id) policy_id

  unfoldable pub update_policy : ℕ → PolicyUpdate → Exec (List Policy) Policy
  unfolding change patched
  update_policy policy_id update = change sql (λ p. p.id) policy_id (patched update)

  unfoldable pub deactivate_policy : ℕ → Exec (List Policy) Policy
  unfolding change
  deactivate_policy policy_id =
      change sql (λ p. p.id) policy_id (λ p. record p { is_active = false })

  unfoldable pub list_policies : String → Bool → List Policy → List Policy
  list_policies tenant active_only rows =
      sql.order_desc Policy (λ p. p.created_at)
        (sql.select Policy (λ p. p.tenant_id == tenant && (not active_only || p.is_active)) rows)

  unfoldable pub matched : PolicyEvaluateRequest → List Policy → List Policy
  unfolding policy_matches
  matched request rows =
      filter (policy_matches request) (sql.select Policy (is_candidate request) rows)

  unfoldable pub evaluate : PolicyEvaluateRequest → List Policy → Result PolicyEvaluationResult
  unfolding winning_action to_matched
  evaluate request rows = and_then (winning_action (matched request rows)) λ action.
      map_ok
        (λ models. record {
          tenant_id = request.tenant_id;
          sentinel_type = request.sentinel_type;
          severity = request.severity;
          matched_count = length (matched request rows);
          matched_policies = models;
          action = action;
          is_blocked = leb block_threshold (action_rank (action_str action));
        })
        (to_matched (matched request rows))
