-- ===== src/Policy/Verdict.antt =====
-- services/policy/service.py: the action of `evaluate` against the policies that apply, whatever
-- order the database finds them in.
use mathlib.Core.List.{Permᴰ}
use dox.Prelude.{
  ◌<◌, String_eq, ◌==◌, All-perm, All-filter, ℕ, ◌≤◌, ◌≡◌, refl, ◌∙◌, ap, Bool, true, ◌&&◌, List,
  [], ◌∷◌, arith, filter, any, if◌then◌else◌, leb, ltb, max, inl, inr, All, Option-cases,
  Bool-cases, length, String, some,
}
use dox.Result.{ok-injective, ok, Result-cases}
use dox.Enums.{
  sentinel_type_str, InterventionAction, action_str, parse_action, severity_str, actions,
}
use dox.Sql.{Sql}
use dox.Sql.Rows.{find-key}
use dox.Policy.{
  MatchedPolicy, Policy, PolicyEvaluateRequest, PolicyEvaluationResult, action_rank, severity_rank,
  policy_matches, max_by_rank, winning_action, to_matched, is_candidate, matched, evaluate,
  block_threshold,
}

-- The policy is the tenant's, of the type, active, and of at most the severity of the request.
abbrev pub applies : PolicyEvaluateRequest → Policy → Bool
applies request p = is_candidate request p && policy_matches request p

-- The greatest rank of an action among the policies that pass a test; 0 where there is none.
unfoldable pub top_rank : (Policy → Bool) → List Policy → ℕ
top_rank test [] = 0
top_rank test (p ∷ rows) = max (if test p then action_rank p.action else 0) (top_rank test rows)

top_rank-perm :
    (test : Policy → Bool) {xs ys : List Policy} → Permᴰ xs ys → top_rank test xs ≡ top_rank test ys
unfolding top_rank
top_rank-perm test Permᴰ.nil = refl
top_rank-perm test (Permᴰ.cons {a = a} {b = b} e h) =
    let same = ap (λ (p : Policy). if test p then action_rank p.action else 0) e in
    omega (arith, same, top_rank-perm test h)
top_rank-perm test (Permᴰ.swap e f) =
    let here = ap (λ (p : Policy). if test p then action_rank p.action else 0) e in
    let there = ap (λ (p : Policy). if test p then action_rank p.action else 0) f in
    omega (arith, here, there)
top_rank-perm test (Permᴰ.trans h k) = top_rank-perm test h ∙ top_rank-perm test k

top_rank-filter :
    (p q : Policy → Bool) (rows : List Policy)
    → top_rank q (filter p rows) ≡ top_rank (λ r. p r && q r) rows
unfolding top_rank
top_rank-filter p q [] = refl
top_rank-filter p q (r ∷ rows) = ground (arith, top_rank-filter p q rows)

all_pass : Policy → Bool
all_pass p = true

top_rank-filter_all :
    (p : Policy → Bool) (rows : List Policy) → top_rank all_pass (filter p rows) ≡ top_rank p rows
unfolding top_rank all_pass
top_rank-filter_all p [] = refl
top_rank-filter_all p (r ∷ rows) = ground (arith, top_rank-filter_all p rows)

top_rank-matched :
    (sql : Sql) (request : PolicyEvaluateRequest) (rows : List Policy)
    → top_rank all_pass (matched sql request rows) ≡ top_rank (applies request) rows
unfolding matched
top_rank-matched sql request rows =
    top_rank-filter_all (policy_matches request) (sql.select Policy (is_candidate request) rows)
    ∙ top_rank-perm (policy_matches request) (sql.select_perm Policy (is_candidate request) rows)
    ∙ top_rank-filter (is_candidate request) (policy_matches request) rows

max_by_rank-top_rank :
    (best : Policy) (rows : List Policy)
    → action_rank (max_by_rank best rows).action
      ≡ max (action_rank best.action) (top_rank all_pass rows)
unfolding max_by_rank top_rank all_pass
max_by_rank-top_rank best [] = omega arith
max_by_rank-top_rank best (p ∷ rows) =
    ground (arith, max_by_rank-top_rank best rows, max_by_rank-top_rank p rows)

pub action_str-parse_action :
    (s : String) (a : InterventionAction) → parse_action s ≡ some a → action_str a ≡ s
unfolding parse_action
action_str-parse_action s a h = find-key action_str s a actions h

winning_action-top_rank :
    (rows : List Policy) (a : InterventionAction)
    → winning_action rows ≡ ok a
    → action_rank (action_str a) ≡ top_rank all_pass rows
unfolding winning_action
winning_action-top_rank [] a h =
    let e : InterventionAction.allow ≡ a = ok-injective h in
    rw (← e) (unfold action_rank action_str top_rank in refl)
winning_action-top_rank (p ∷ rows) a h =
    elim (Option-cases (parse_action (max_by_rank p rows).action)) [
      | inl bad ↦ absurd (ground (arith, bad))
      | inr (b, good) ↦
          let same : b ≡ a = ground arith in
          rw (← same, action_str-parse_action (max_by_rank p rows).action b good)
            (max_by_rank-top_rank p rows ∙ (unfold top_rank all_pass in refl))
    ]

-- The action of a result ranks as the highest among the actions of the policies that apply,
-- whatever order the database finds them in, and the result is blocked exactly when that rank
-- reaches the threshold.
pub action_rank-evaluate :
    (sql : Sql) (request : PolicyEvaluateRequest) (rows : List Policy)
    (res : PolicyEvaluationResult)
    → evaluate sql request rows ≡ ok res
    → (action_rank (action_str res.action) ≡ top_rank (applies request) rows)
      × (res.is_blocked ≡ leb block_threshold (top_rank (applies request) rows))
unfolding evaluate
action_rank-evaluate sql request rows res h =
    elim (Result-cases (winning_action (matched sql request rows))) [
      | inr (e, bad) ↦ absurd (ground arith)
      | inl (a, won) ↦ elim (Result-cases (to_matched (matched sql request rows))) [
        | inr (e, bad) ↦ absurd (ground arith)
        | inl (models, made) ↦
            let rank =
              winning_action-top_rank (matched sql request rows) a won
              ∙ top_rank-matched sql request rows in
            (ground (arith, rank), ground (arith, rank))
      ]
    ]

at_least-top_rank :
    (n : ℕ) (test : Policy → Bool) (rows : List Policy)
    → 0 < n
    → leb n (top_rank test rows) ≡ any (λ p. test p && leb n (action_rank p.action)) rows
unfolding top_rank
at_least-top_rank n test [] h = ground arith
at_least-top_rank n test (p ∷ rows) h = ground (arith, at_least-top_rank n test rows h)

-- A result is blocked exactly when some policy that applies has an action that blocks.
pub is_blocked-evaluate :
    (sql : Sql) (request : PolicyEvaluateRequest) (rows : List Policy)
    (res : PolicyEvaluationResult)
    → evaluate sql request rows ≡ ok res
    → res.is_blocked
      ≡ any (λ p. applies request p && leb block_threshold (action_rank p.action)) rows
is_blocked-evaluate sql request rows res h =
    (action_rank-evaluate sql request rows res h).1
    ∙ at_least-top_rank block_threshold (applies request) rows (omega arith)

top_rank_mono :
    (f g : Policy → Bool) (rows : List Policy)
    → ((p : Policy) → f p ≡ true → g p ≡ true)
    → top_rank f rows ≤ top_rank g rows
unfolding top_rank
top_rank_mono f g [] h = omega arith
top_rank_mono f g (p ∷ rows) h = ground (arith, h p, top_rank_mono f g rows h)

applies_mono :
    (low high : PolicyEvaluateRequest) (p : Policy)
    → low.tenant_id ≡ high.tenant_id
    → low.sentinel_type ≡ high.sentinel_type
    → severity_rank (severity_str low.severity) ≤ severity_rank (severity_str high.severity)
    → applies low p ≡ true
    → applies high p ≡ true
unfolding policy_matches
applies_mono low high p t u le a =
    ground (arith, ap (λ s. p.tenant_id == s) t, ap (λ s. p.sentinel_type == sentinel_type_str s) u)

-- A request of higher severity, for the same tenant and type, never meets a milder action.
pub evaluate_mono :
    (sql : Sql) (low high : PolicyEvaluateRequest) (rows : List Policy)
    (r s : PolicyEvaluationResult)
    → low.tenant_id ≡ high.tenant_id
    → low.sentinel_type ≡ high.sentinel_type
    → severity_rank (severity_str low.severity) ≤ severity_rank (severity_str high.severity)
    → evaluate sql low rows ≡ ok r
    → evaluate sql high rows ≡ ok s
    → action_rank (action_str r.action) ≤ action_rank (action_str s.action)
evaluate_mono sql low high rows r s t u le hr hs = omega (
  arith,
  (action_rank-evaluate sql low rows r hr).0,
  (action_rank-evaluate sql high rows s hs).0,
  top_rank_mono (applies low) (applies high) rows (λ p a. applies_mono low high p t u le a),
)

-- The string in a row is a member of the enumeration.
abbrev pub HasAction : Policy → Type 0
HasAction p = (a : InterventionAction) × (parse_action p.action ≡ some a)

max_by_rank-HasAction :
    (best : Policy) (rows : List Policy)
    → HasAction best
    → All HasAction rows
    → HasAction (max_by_rank best rows)
unfolding max_by_rank
max_by_rank-HasAction best [] h a = h
max_by_rank-HasAction best (p ∷ rows) h a =
    elim (Bool-cases (ltb (action_rank best.action) (action_rank p.action))) [
      | inl more ↦ rw (more, max_by_rank) (max_by_rank-HasAction p rows a.0 a.1)
      | inr less ↦ rw (less, max_by_rank) (max_by_rank-HasAction best rows h a.1)
    ]

winning_action-ok :
    (rows : List Policy)
    → All HasAction rows
    → (a : InterventionAction) × (winning_action rows ≡ ok a)
unfolding winning_action
winning_action-ok [] h = (InterventionAction.allow, refl)
winning_action-ok (p ∷ rows) h =
    let (a, e) = max_by_rank-HasAction p rows h.0 h.1 in (a, ground (arith, e))

to_matched-ok :
    (rows : List Policy)
    → All HasAction rows
    → (l : List MatchedPolicy) × (to_matched rows ≡ ok l) × (length l ≡ length rows)
unfolding to_matched
to_matched-ok [] h = ([], refl, refl)
to_matched-ok (p ∷ rows) h =
    let (a, e) = h.0 in
    let (l, made, same) = to_matched-ok rows h.1 in
    (record { id = p.id; name = p.name; action = a } ∷ l, ground (arith, e, made), omega arith)

-- Where every stored action is a member of the enumeration, every request gets a result, which
-- lists as many policies as it counts.
pub evaluate_total :
    (sql : Sql) (request : PolicyEvaluateRequest) (rows : List Policy)
    → All HasAction rows
    → (res : PolicyEvaluationResult) × (evaluate sql request rows ≡ ok res)
      × (length res.matched_policies ≡ res.matched_count)
unfolding evaluate
evaluate_total sql request rows h =
    let chosen =
      (All-perm HasAction (sql.select_perm Policy (is_candidate request) rows)).1
        (All-filter HasAction (is_candidate request) rows h) in
    let kept : All HasAction (matched sql request rows) =
      unfold matched in
      All-filter HasAction (policy_matches request) (sql.select Policy (is_candidate request) rows)
        chosen in
    let (a, won) = winning_action-ok (matched sql request rows) kept in
    let (l, made, same) = to_matched-ok (matched sql request rows) kept in
    (
      record {
        tenant_id = request.tenant_id;
        sentinel_type = request.sentinel_type;
        severity = request.severity;
        matched_count = length (matched sql request rows);
        matched_policies = l;
        action = a;
        is_blocked = leb block_threshold (action_rank (action_str a));
      },
      rw (won, made),
      same,
    )
