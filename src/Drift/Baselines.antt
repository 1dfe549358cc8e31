-- ===== src/Drift/Baselines.antt =====
-- services/drift/service.py: the baselines of an agent before and after one is computed.
use mathlib.Core.Path.{subst}
use dox.Prelude.{
  perm-singleton, ◌≡◌, ◌∙◌, Bool, true, false, String, some, List, [], ◌∷◌, arith, filter, any, map,
  if◌then◌else◌, inl, inr, All, All-imp, any-perm, filter_drop, Bool-cases, ◌==◌, ℕ_eq, String_eq,
  eq_iff, nat_eq_iff,
}
use mathlib.Core.List.{Permᴰ}
use dox.Result.{ok}
use dox.Events.{EventRecord}
use dox.Sql.{Sql}
use dox.Sql.Rows.{add-cases}
use dox.Drift.{
  AgentBaseline, BaselineCreate, Draw, active_for, switched_off, deactivate_each, clash,
  new_baseline, compute_baseline, get_active_baseline,
}

-- Each row that passes a test is found by its identifier among those that pass.
selected :
    (test : AgentBaseline → Bool) (rows : List AgentBaseline)
    → All (λ r. test r ≡ true → any (λ o. o.id == r.id) (filter test rows) ≡ true) rows
selected test [] = tt
selected test (x ∷ rows) = (
  λ h. ground (arith, nat_eq_iff x.id x.id),
  All-imp (λ r. test r ≡ true → any (λ o. o.id == r.id) (filter test rows) ≡ true)
      (λ r. test r ≡ true → any (λ o. o.id == r.id) (filter test (x ∷ rows)) ≡ true) rows
      (λ r f h. let there = f h in ground (arith, there)) (selected test rows),
)

switch_one :
    (test : AgentBaseline → Bool) (old : AgentBaseline) (olds rows : List AgentBaseline)
    → ((r : AgentBaseline) → test (switched_off r) ≡ false)
    → All (λ r. test r ≡ true → any (λ o. o.id == r.id) (old ∷ olds) ≡ true) rows
    → All
        (λ r. test r ≡ true → any (λ o. o.id == r.id) olds ≡ true)
        (map (λ r. if r.id == old.id then switched_off r else r) rows)
switch_one test old olds [] off h = tt
switch_one test old olds (r ∷ rows) off h = elim (Bool-cases (r.id == old.id)) [
  | inl hit ↦ rw hit (λ a. absurd (ground (arith, off r)), switch_one test old olds rows off h.1)
  | inr miss ↦ rw miss (
    λ a. let there = h.0 a in ground (arith, there, nat_eq_iff old.id r.id),
    switch_one test old olds rows off h.1,
  )
]

-- When every row that passes is switched off, none passes.
deactivate_each-none :
    (test : AgentBaseline → Bool) (olds rows : List AgentBaseline)
    → ((r : AgentBaseline) → test (switched_off r) ≡ false)
    → All (λ r. test r ≡ true → any (λ o. o.id == r.id) olds ≡ true) rows
    → All (λ r. test r ≡ false) (deactivate_each olds rows)
unfolding deactivate_each
deactivate_each-none test [] rows off h =
    All-imp (λ r. test r ≡ true → any (λ (o : AgentBaseline). o.id == r.id) [] ≡ true)
      (λ r. test r ≡ false) rows
      (λ r f. elim (Bool-cases (test r)) [ inl a ↦ absurd (cc (f a)) | inr n ↦ n ]) h
deactivate_each-none test (old ∷ olds) rows off h =
    deactivate_each-none test olds (map (λ r. if r.id == old.id then switched_off r else r) rows)
      off (switch_one test old olds rows off h)

off_for :
    (tenant agent : String) (r : AgentBaseline) → active_for tenant agent (switched_off r) ≡ false
off_for tenant agent r = ground arith

none_active :
    (sql : Sql) (tenant agent : String) (rows : List AgentBaseline)
    → filter
        (active_for tenant agent)
        (deactivate_each (sql.select AgentBaseline (active_for tenant agent) rows) rows)
      ≡ []
none_active sql tenant agent rows =
    let test : AgentBaseline → Bool = active_for tenant agent in
    let olds : List AgentBaseline = sql.select AgentBaseline test rows in
    let found : All (λ r. test r ≡ true → any (λ o. o.id == r.id) olds ≡ true) rows =
      All-imp (λ r. test r ≡ true → any (λ o. o.id == r.id) (filter test rows) ≡ true)
        (λ r. test r ≡ true → any (λ o. o.id == r.id) olds ≡ true) rows
        (λ r f h.
          any-perm (λ (o : AgentBaseline). o.id == r.id) (sql.select_perm AgentBaseline test rows)
          ∙ f h)
        (selected test rows) in
    filter_drop test (deactivate_each olds rows)
      (deactivate_each-none test olds rows (off_for tenant agent) found)

-- The query for the active baseline, where one row passes.
one_active :
    (sql : Sql) (tenant agent : String) (b : AgentBaseline) (rows : List AgentBaseline)
    → filter (active_for tenant agent) rows ≡ b ∷ []
    → get_active_baseline sql tenant agent rows ≡ ok (some b)
unfolding get_active_baseline
one_active sql tenant agent b rows e =
    let chosen : List AgentBaseline = sql.select AgentBaseline (active_for tenant agent) rows in
    let found : chosen ≡ b ∷ [] =
      perm-singleton
        (subst (Permᴰ chosen) e (sql.select_perm AgentBaseline (active_for tenant agent) rows)) in
    let ordered : sql.order_desc AgentBaseline (λ r. r.computed_at) chosen ≡ b ∷ [] =
      perm-singleton (
        subst (Permᴰ (sql.order_desc AgentBaseline (λ r. r.computed_at) chosen)) found
          (sql.order_desc_perm AgentBaseline (λ r. r.computed_at) chosen)) in
    rw (get_active_baseline, ordered) (sql.scalar_one AgentBaseline b)

committed :
    (sql : Sql) (draw : Draw) (create : BaselineCreate) (events : List EventRecord)
    (rows rows' : List AgentBaseline) (b : AgentBaseline)
    → compute_baseline sql draw create events rows ≡ (ok b, rows')
    → (b ≡ new_baseline sql draw create events)
      × (rows'
          ≡ new_baseline sql draw create events
            ∷ deactivate_each
                (sql.select AgentBaseline (active_for create.tenant_id create.agent_id) rows)
                rows)
unfolding compute_baseline
committed sql draw create events rows rows' b h =
    let olds : List AgentBaseline =
      sql.select AgentBaseline (active_for create.tenant_id create.agent_id) rows in
    let new : AgentBaseline = new_baseline sql draw create events in
    elim (add-cases clash new (deactivate_each olds rows)) [
      | inl bad ↦ absurd (ground (arith, bad.1))
      | inr good ↦ (ground (arith, good.1), ground (arith, good.1))
    ]

fresh_head :
    (sql : Sql) (draw : Draw) (create : BaselineCreate) (events : List EventRecord)
    (rows : List AgentBaseline)
    → filter (active_for create.tenant_id create.agent_id) rows ≡ []
    → filter
        (active_for create.tenant_id create.agent_id)
        (new_baseline sql draw create events ∷ rows)
      ≡ new_baseline sql draw create events ∷ []
unfolding new_baseline
fresh_head sql draw create events rows h =
    ground (arith, eq_iff create.tenant_id create.tenant_id, eq_iff create.agent_id create.agent_id)

-- After `compute_baseline` returns, the baseline it returns is the one active baseline of its agent
-- and tenant, and it is what the next analysis of that agent compares with.
pub get_active_baseline-compute_baseline :
    (sql : Sql) (draw : Draw) (create : BaselineCreate) (events : List EventRecord)
    (rows rows' : List AgentBaseline) (b : AgentBaseline)
    → compute_baseline sql draw create events rows ≡ (ok b, rows')
    → (filter (active_for create.tenant_id create.agent_id) rows' ≡ b ∷ [])
      × (get_active_baseline sql create.tenant_id create.agent_id rows' ≡ ok (some b))
get_active_baseline-compute_baseline sql draw create events rows rows' b h =
    let olds : List AgentBaseline =
      sql.select AgentBaseline (active_for create.tenant_id create.agent_id) rows in
    let off : List AgentBaseline = deactivate_each olds rows in
    let new : AgentBaseline = new_baseline sql draw create events in
    let (same, table) = committed sql draw create events rows rows' b h in
    let alone : filter (active_for create.tenant_id create.agent_id) (new ∷ off) ≡ new ∷ [] =
      fresh_head sql draw create events off
        (none_active sql create.tenant_id create.agent_id rows) in
    let final : filter (active_for create.tenant_id create.agent_id) rows' ≡ b ∷ [] =
      rw (table, same) alone in
    (final, one_active sql create.tenant_id create.agent_id b rows' final)
