-- ===== src/Policy/Updates.antt =====
-- services/policy/service.py and services/sentinel/service.py: what creating, updating and
-- deactivating a policy does to the table and to later evaluations.

use dox.Prelude.{
  ℕ, ◌≡◌, refl, ◌∙◌, false, ◌&&◌, not, List, [], ◌∷◌, arith, if◌then◌else◌, inl, inr, All,
  Option-cases, Bool-cases, none, ◌==◌, ℕ_eq, String_eq, nat_eq_iff,
}
use dox.Result.{ok, err, map_ok}
use dox.Enums.{action_str, parse_action-action_str}
use dox.Sql.{Sql, change, save}
use dox.Sql.Rows.{Distinct, find, add-All, save-All, find-All, find-key}
use dox.Sql.Change.{get-change, change-get, change-table, change_found, change_missing}
use dox.Policy.{
  clash, Policy, PolicyCreate, PolicyUpdate, PolicyEvaluateRequest, PolicyEvaluationResult,
  action_rank, patched, get_policy, update_policy, deactivate_policy, create_policy, evaluate,
  new_policy,
}
use dox.Policy.Verdict.{applies, top_rank, action_rank-evaluate, HasAction}

abbrev pub by_id : Policy → ℕ
by_id p = p.id

-- With unique identifiers, reading a policy after an update shows that policy with the given fields
-- replaced, and every other policy as before; an update of a missing policy raises as the reading
-- does and changes nothing.
pub get_policy-update_policy :
    (sql : Sql) (k j : ℕ) (u : PolicyUpdate) (rows : List Policy)
    → Distinct by_id rows
    → (get_policy sql j (update_policy sql k u rows).1
        ≡ (if k == j then map_ok (patched u) (get_policy sql k rows) else get_policy sql j rows))
      × ((update_policy sql k u rows).0 ≡ map_ok (patched u) (get_policy sql k rows))
      × ((update_policy sql k u rows).1
          ≡ elim (get_policy sql k rows) [ ok p ↦ save by_id (patched u p) rows | err e ↦ rows ])
unfolding get_policy update_policy
get_policy-update_policy sql k j u rows d = (
  get-change sql by_id k j (patched u) rows (λ r. refl) d,
  change-get sql by_id k (patched u) rows,
  change-table sql by_id k (patched u) rows,
)

patched-HasAction : (u : PolicyUpdate) (p : Policy) → HasAction p → HasAction (patched u p)
unfolding patched
patched-HasAction u p h = elim (Option-cases u.action) [
  | inl same ↦ rw same h
  | inr (a, new) ↦ rw new (a, parse_action-action_str a)
]

update_policy-HasAction :
    (sql : Sql) (k : ℕ) (u : PolicyUpdate) (rows : List Policy)
    → Distinct by_id rows
    → All HasAction rows
    → All HasAction (update_policy sql k u rows).1
unfolding update_policy
update_policy-HasAction sql k u rows d h = elim (Option-cases (find by_id k rows)) [
  | inl missing ↦ rw (change_missing sql by_id k (patched u) rows d missing) h
  | inr (p, found) ↦ rw (change_found sql by_id k (patched u) rows p d found) (
      save-All HasAction by_id (patched u p) rows
        (patched-HasAction u p (find-All by_id HasAction k p rows found h)) h)
]

create_policy-HasAction :
    (id created_at : ℕ) (create : PolicyCreate) (rows : List Policy)
    → All HasAction rows
    → All HasAction (create_policy id created_at create rows).1
unfolding create_policy
create_policy-HasAction id created_at create rows h =
    add-All clash HasAction (new_policy id created_at create) rows
      (create.action, parse_action-action_str create.action) h

-- With unique identifiers, creating and updating policies keeps every stored action a member of
-- the enumeration.
pub create_policy-update_policy-HasAction :
    (sql : Sql) (id created_at k : ℕ) (create : PolicyCreate) (u : PolicyUpdate)
    (rows : List Policy)
    → Distinct by_id rows
    → All HasAction rows
    → All HasAction (create_policy id created_at create rows).1
      × All HasAction (update_policy sql k u rows).1
create_policy-update_policy-HasAction sql id created_at k create u rows d h =
    (create_policy-HasAction id created_at create rows h, update_policy-HasAction sql k u rows d h)

abbrev switched_off : Policy → Policy
switched_off p = record p { is_active = false }

-- The row that is switched off no longer counts.
top_rank-save :
    (request : PolicyEvaluateRequest) (k : ℕ) (q : Policy) (rows : List Policy)
    → q.id ≡ k
    → q.is_active ≡ false
    → top_rank (applies request) (save by_id q rows)
      ≡ top_rank (λ p. applies request p && not (p.id == k)) rows
unfolding top_rank save
top_rank-save request k q [] e off = refl
top_rank-save request k q (p ∷ rows) e off =
    ground (arith, top_rank-save request k q rows e off, nat_eq_iff p.id q.id)

top_rank_other :
    (request : PolicyEvaluateRequest) (k : ℕ) (rows : List Policy)
    → find by_id k rows ≡ none
    → top_rank (applies request) rows ≡ top_rank (λ p. applies request p && not (p.id == k)) rows
unfolding top_rank find
top_rank_other request k [] h = refl
top_rank_other request k (p ∷ rows) h = elim (Bool-cases (p.id == k)) [
  | inl hit ↦ absurd (ground arith)
  | inr miss ↦ ground (arith, top_rank_other request k rows)
]

-- With unique identifiers, after a policy is deactivated an evaluation that returns gives an
-- action that ranks as the highest among the other policies that apply.
pub evaluate-deactivate_policy :
    (sql : Sql) (k : ℕ) (request : PolicyEvaluateRequest) (rows : List Policy)
    (res : PolicyEvaluationResult)
    → Distinct by_id rows
    → evaluate sql request (deactivate_policy sql k rows).1 ≡ ok res
    → action_rank (action_str res.action)
      ≡ top_rank (λ p. applies request p && not (p.id == k)) rows
unfolding deactivate_policy
evaluate-deactivate_policy sql k request rows res d h =
    (action_rank-evaluate sql request (change sql by_id k switched_off rows).1 res h).0
    ∙ elim (Option-cases (find by_id k rows)) [
      | inl missing ↦
          rw (change_missing sql by_id k switched_off rows d missing)
            (top_rank_other request k rows missing)
      | inr (p, found) ↦
          rw (change_found sql by_id k switched_off rows p d found)
            (top_rank-save request k (switched_off p) rows (find-key by_id k p rows found) refl)
    ]
