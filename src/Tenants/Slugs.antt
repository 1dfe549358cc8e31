-- ===== src/Tenants/Slugs.antt =====
-- services/tenant/service.py: the slugs stay unique, and a slug finds its tenant.
use mathlib.Core.Path.{subst}
use dox.Prelude.{
  sym, ℕ, ◌≡◌, refl, true, false, String, none, some, List, ◌∷◌, arith, inl, inr, ℕ_eq, String_eq,
  eq_iff, nat_eq_iff, Option-cases,
}
use dox.Result.{err, conflict, Result-cases, Exec, ◌>>=◌, pure}
use dox.Sql.{Sql, add, change}
use dox.Sql.Rows.{Distinct, find, add-Distinct}
use dox.Sql.Fetch.{fetch-find}
use dox.Sql.Change.{change-Distinct}
use dox.Tenants.{
  Tenant, TenantCreate, TenantUpdate, clash, patched, switched, new_tenant, find_slug,
  create_if_free, create_tenant, update_tenant, deactivate_tenant, activate_tenant,
}

abbrev pub by_id : Tenant → ℕ
by_id t = t.id

abbrev pub by_slug : Tenant → String
by_slug t = t.slug

-- The keys that the model declares.
pub record IsTenants (rows : List Tenant) : Type 0 where
  pub ids : Distinct by_id rows
  pub slugs : Distinct by_slug rows

-- The calls that write.
pub data Call : Type 0 where
  create : ℕ → ℕ → TenantCreate → Call
  update : ℕ → TenantUpdate → Call
  deactivate activate : ℕ → Call

module _ (sql : Sql) where
  -- The table that a call leaves, returned or raised.
  unfoldable pub run : Call → List Tenant → List Tenant
  unfolding create_tenant update_tenant deactivate_tenant activate_tenant
  run (Call.create id now request) rows = (create_tenant sql id now request rows).1
  run (Call.update id u) rows = (update_tenant sql id u rows).1
  run (Call.deactivate id) rows = (deactivate_tenant sql id rows).1
  run (Call.activate id) rows = (activate_tenant sql id rows).1

  unfoldable pub run_all : List Call → List Tenant → List Tenant
  unfolding run
  run_all List.[] rows = rows
  run_all (c ∷ calls) rows = run_all calls (run c rows)

  add-IsTenants :
      (t : Tenant) (rows : List Tenant) → IsTenants rows → IsTenants (add clash t rows).1
  add-IsTenants t rows h = record {
    ids =
        add-Distinct clash by_id
          (λ x y apart. ground (arith, apart, nat_eq_iff x.id y.id, nat_eq_iff y.id x.id)) t rows
          h.ids;
    slugs =
        add-Distinct clash by_slug
          (λ x y apart. ground (arith, apart, eq_iff x.slug y.slug, eq_iff y.slug x.slug)) t rows
          h.slugs;
  }

  -- What `create` does: an existing slug is refused.
  create_tenant_lem :
      (id now : ℕ) (request : TenantCreate) (rows : List Tenant)
      → IsTenants rows
      → create_tenant sql id now request rows ≡ elim (find by_slug request.slug rows) [
        | some taken ↦ (err conflict, rows)
        | none ↦ add clash (new_tenant id now request) rows
      ]
  unfolding create_tenant find_slug create_if_free
  create_tenant_lem id now request rows h =
      let asked = fetch-find sql by_slug request.slug rows h.slugs in
      elim (Option-cases (find by_slug request.slug rows)) [
        | inl free ↦ rw (asked, free) refl
        | inr (t, taken) ↦ rw (asked, taken) refl
      ]

  change-IsTenants :
      (k : ℕ) (set : Tenant → Tenant) (rows : List Tenant)
      → ((t : Tenant) → by_id (set t) ≡ by_id t)
      → ((t : Tenant) → by_slug (set t) ≡ by_slug t)
      → IsTenants rows
      → IsTenants (change sql by_id k set rows).1
  change-IsTenants k set rows keep same h = record {
    ids = change-Distinct sql by_id by_id k set rows keep keep h.ids h.ids;
    slugs = change-Distinct sql by_id by_slug k set rows keep same h.ids h.slugs;
  }

  create-IsTenants :
      (id now : ℕ) (request : TenantCreate) (rows : List Tenant)
      → IsTenants rows
      → IsTenants (create_tenant sql id now request rows).1
  create-IsTenants id now request rows h = elim (Option-cases (find by_slug request.slug rows)) [
    | inl free ↦
        rw (create_tenant_lem id now request rows h, free)
          (add-IsTenants (new_tenant id now request) rows h)
    | inr (t, taken) ↦ rw (create_tenant_lem id now request rows h, taken) h
  ]

  dropped :
      (m : Exec (List Tenant) Tenant) (rows : List Tenant)
      → ((m >>= λ t. pure tt) rows).1 ≡ (m rows).1
  dropped m rows = elim (Result-cases (m rows).0) [ inl (t, e) ↦ rw e | inr (x, e) ↦ rw e ]

  run-IsTenants : (c : Call) (rows : List Tenant) → IsTenants rows → IsTenants (run c rows)
  unfolding run update_tenant activate_tenant deactivate_tenant patched
  run-IsTenants (Call.create id now request) rows h = create-IsTenants id now request rows h
  run-IsTenants (Call.update id u) rows h =
      change-IsTenants id (patched u) rows (λ t. refl) (λ t. refl) h
  run-IsTenants (Call.deactivate id) rows h =
      subst IsTenants (sym (dropped (change sql by_id id (switched false)) rows))
        (change-IsTenants id (switched false) rows (λ t. refl) (λ t. refl) h)
  run-IsTenants (Call.activate id) rows h =
      change-IsTenants id (switched true) rows (λ t. refl) (λ t. refl) h

  -- From tenants with unique identifiers and slugs, any sequence of calls that write, returned or
  -- raised, leaves such tenants; and on them `create` of a slug that is taken raises ConflictError and
  -- writes nothing.
  pub run_all-IsTenants :
      (calls : List Call) (id now : ℕ) (request : TenantCreate) (rows : List Tenant)
      → IsTenants rows
      → let left = run_all calls rows in
        IsTenants left
        × (create_tenant sql id now request left ≡ elim (find by_slug request.slug left) [
          | some taken ↦ (err conflict, left)
          | none ↦ add clash (new_tenant id now request) left
        ])
  unfolding run_all
  run_all-IsTenants List.[] id now request rows h = (h, create_tenant_lem id now request rows h)
  run_all-IsTenants (c ∷ calls) id now request rows h =
      run_all-IsTenants calls id now request (run c rows) (run-IsTenants c rows h)
