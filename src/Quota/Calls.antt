-- ===== src/Quota/Calls.antt =====
-- services/quota/service.py: the table of quotas as a map from tenants to rows, and what the
-- helpers that read and write it do to that map.
use dox.Prelude.{
  ◌≡◌, refl, ◌∙◌, true, false, String, Option, none, some, ◌∷◌, ◌⊎◌, inl, inr, arith, if◌then◌else◌,
  ◌==◌, ℕ_eq, String_eq, eq_iff, All, any, Bool-cases, Option-cases, any_none, any-or, any-false,
  All-imp,
}
use mathlib.Core.Option
use dox.Result.{integrity_error, ok, err}
use dox.Sql.{Sql, insert, save}
use dox.Sql.Rows.{Distinct, find, find-none, find-save, find-key, save-Distinct}
use dox.Sql.Fetch.{fetch-find}
use dox.Quota.{
  TenantQuota, Env, Table, clash, add, commit, by_tenant, or_create, get_or_create, new_quota,
  starter,
}

-- The keys that the model declares unique are unique.
pub record IsTable (rows : Table) : Type 0 where
  pub ids : Distinct (λ q. q.id) rows
  pub tenants : Distinct (λ q. q.tenant_id) rows

-- The quota of a tenant.
abbrev pub quota_of : String → Table → Option TenantQuota
quota_of = find (λ q. q.tenant_id)

-- A tenant's row is `q`, in a table that differs from `rows` for that tenant alone.
pub record Opened (tenant : String) (rows : Table) (q : TenantQuota) (rows' : Table) : Type 0 where
  pub table : IsTable rows'
  pub found : quota_of tenant rows' ≡ some q
  pub others : (j : String) → (tenant == j) ≡ false → quota_of j rows' ≡ quota_of j rows

pub by_tenant_lem :
    (sql : Sql) (tenant : String) (rows : Table)
    → IsTable rows
    → by_tenant sql tenant rows ≡ ok (quota_of tenant rows)
unfolding by_tenant
by_tenant_lem sql tenant rows h = fetch-find sql (λ q. q.tenant_id) tenant rows h.tenants

pub add-cases :
    (q : TenantQuota) (rows : Table)
    → IsTable rows
    → ((any (clash q) rows ≡ true) × (add q rows ≡ (err integrity_error, rows)))
      ⊎ ((add q rows ≡ (ok q, q ∷ rows)) × IsTable (q ∷ rows))
unfolding add insert
add-cases q rows h = elim (Bool-cases (any (clash q) rows)) [
  | inl taken ↦ inl (taken, ground arith)
  | inr free ↦
      let apart : All (λ r. clash q r ≡ false) rows = any_none (clash q) rows free in
      inr (
        ground arith,
        record {
          ids = (
            All-imp (λ r. clash q r ≡ false) (λ r. (q.id == r.id) ≡ false) rows
                (λ r e. ground arith) apart,
            h.ids,
          );
          tenants = (
            All-imp (λ r. clash q r ≡ false) (λ r. (q.tenant_id == r.tenant_id) ≡ false) rows
                (λ r e.
                  ground (arith, eq_iff q.tenant_id r.tenant_id, eq_iff r.tenant_id q.tenant_id))
                apart,
            h.tenants,
          );
        },
      )
]

-- An UPDATE of the row that was found changes the quota of that tenant alone.
pub commit-Opened :
    {tenant : String} {rows rows' : Table} {q : TenantQuota} (q' : TenantQuota)
    → Opened tenant rows q rows'
    → q'.id ≡ q.id
    → q'.tenant_id ≡ q.tenant_id
    → Opened tenant rows q' (commit q' rows').1
unfolding commit
commit-Opened {tenant} {rows} {rows'} {q} q' o i p =
    let keyed : q'.tenant_id ≡ tenant = p ∙ find-key (λ r. r.tenant_id) tenant q rows' o.found in
    let seen : (j : String)
        → quota_of j (save (λ r. r.id) q' rows')
          ≡ (if tenant == j then some q' else quota_of j rows') =
      λ j.
        find-save (λ r. r.tenant_id) (λ r. r.id) tenant j q q' rows' o.table.ids o.found i keyed in
    record {
      table = record {
        ids =
            save-Distinct (λ r. r.tenant_id) (λ r. r.id) (λ r. r.id) tenant q q' rows' o.table.ids
              o.table.ids o.found i i;
        tenants =
            save-Distinct (λ r. r.tenant_id) (λ r. r.tenant_id) (λ r. r.id) tenant q q' rows'
              o.table.ids o.table.tenants o.found i p;
      };
      found = ground (arith, seen tenant, eq_iff tenant tenant);
      others = λ j e. ground (arith, seen j, o.others j e);
    }

-- The row that a call for a tenant works on: its own, or the one that is made for it.
abbrev pub held : Env → String → Table → TenantQuota
held env tenant rows = Option.get_or (quota_of tenant rows) (starter env tenant)

-- The identifier that the call draws is not in the table.
abbrev pub IsFresh : Env → Table → Type 0
IsFresh env rows = any (λ r. r.id == env.fresh) rows ≡ false

-- A clash of a new row for a tenant that has none is one of identifiers.
taken_id :
    (env : Env) (tenant : String) (rows : Table)
    → quota_of tenant rows ≡ none
    → any (clash (starter env tenant)) rows ≡ true
    → any (λ r. r.id == env.fresh) rows ≡ true
unfolding new_quota
taken_id env tenant rows missing h = ground (
  arith,
  any-or (λ (r : TenantQuota). r.id == env.fresh) (λ r. r.tenant_id == tenant) rows,
  any-false (λ (r : TenantQuota). r.tenant_id == tenant) rows
      (find-none (λ r. r.tenant_id) tenant rows missing),
)

-- A new row for a tenant that has none.
pub made-Opened :
    (tenant : String) (rows : Table) (q : TenantQuota)
    → q.tenant_id ≡ tenant
    → IsTable (q ∷ rows)
    → Opened tenant rows q (q ∷ rows)
unfolding find
made-Opened tenant rows q e t = record {
  table = t;
  found = ground (arith, eq_iff q.tenant_id tenant);
  others = λ j apart. ground (arith, eq_iff q.tenant_id j, eq_iff tenant j);
}

pub get_or_create-cases :
    (sql : Sql) (env : Env) (tenant : String) (rows : Table)
    → IsTable rows
    → ((any (λ r. r.id == env.fresh) rows ≡ true)
        × (get_or_create sql env tenant rows ≡ (err integrity_error, rows)))
      ⊎ ((rows' : Table) × (get_or_create sql env tenant rows ≡ (ok (held env tenant rows), rows'))
          × Opened tenant rows (held env tenant rows) rows')
unfolding get_or_create or_create new_quota
get_or_create-cases sql env tenant rows h = elim (Option-cases (quota_of tenant rows)) [
  | inl missing ↦ elim (add-cases (starter env tenant) rows h) [
    | inl bad ↦ inl (
      taken_id env tenant rows missing bad.0,
      rw (by_tenant_lem sql tenant rows h, missing, bad.1),
    )
    | inr good ↦ inr (
      starter env tenant ∷ rows,
      rw (by_tenant_lem sql tenant rows h, missing, good.0),
      let o : Opened tenant rows (starter env tenant) (starter env tenant ∷ rows) =
            made-Opened tenant rows (starter env tenant) refl good.1 in
          rw missing o,
    )
  ]
  | inr (q, present) ↦ inr (
    rows,
    rw (by_tenant_lem sql tenant rows h, present),
    record { table = h; found = rw present; others = λ j e. refl },
  )
]

-- With a fresh identifier the helper never raises.
pub get_or_create-ok :
    (sql : Sql) (env : Env) (tenant : String) (rows : Table)
    → IsTable rows
    → IsFresh env rows
    → (rows' : Table) × (get_or_create sql env tenant rows ≡ (ok (held env tenant rows), rows'))
      × Opened tenant rows (held env tenant rows) rows'
get_or_create-ok sql env tenant rows h f = elim (get_or_create-cases sql env tenant rows h) [
  | inl bad ↦ absurd (cc (bad.0, f))
  | inr good ↦ good
]

-- For a tenant that has a row it changes nothing.
pub get_or_create-found :
    (sql : Sql) (env : Env) (tenant : String) (rows : Table) (q : TenantQuota)
    → IsTable rows
    → quota_of tenant rows ≡ some q
    → get_or_create sql env tenant rows ≡ (ok q, rows)
unfolding get_or_create or_create
get_or_create-found sql env tenant rows q h e = rw (by_tenant_lem sql tenant rows h, e)
