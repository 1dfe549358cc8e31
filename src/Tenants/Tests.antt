-- ===== src/Tenants/Tests.antt =====
-- Two tenants, and a sequence of calls on them.
use dox.Prelude.{ℕ, ◌≡◌, refl, true, false, String, List, [], ◌∷◌, none, some, ℕ_eq, String_eq}
use dox.Result.{ok, err, conflict}
use dox.Enums.{SubscriptionTier}
use dox.Sql.{fetch, add, change, get, commit, save}
use dox.Sql.Rows.{find}
use dox.Sql.Engine.{list_engine}
use dox.Tenants.{
  Tenant, TenantCreate, clash, new_tenant, create_tenant, create_if_free, find_slug,
  deactivate_tenant, switched,
}
use dox.Tenants.Slugs.{IsTenants, by_slug, Call, run_all, run_all-IsTenants}

abbrev tenant : ℕ → String → Tenant
tenant id slug = record {
  id = id;
  slug = slug;
  name = slug;
  subscription_tier = "starter";
  is_active = true;
  created_at = id;
}

abbrev rows : List Tenant
rows = tenant 1 "acme" ∷ tenant 2 "globex" ∷ []

rows-IsTenants : IsTenants rows
rows-IsTenants = record { ids = ((refl, tt), (tt, tt)); slugs = ((refl, tt), (tt, tt)) }

abbrev request : TenantCreate
request = record { slug = "acme"; name = "other"; subscription_tier = SubscriptionTier.starter }

refused : create_tenant list_engine 3 9 request rows ≡ (err conflict, rows)
unfolding create_tenant find_slug create_if_free fetch
refused = refl

switched_off :
    deactivate_tenant list_engine 2 rows
    ≡ (ok tt, tenant 1 "acme" ∷ switched false (tenant 2 "globex") ∷ [])
unfolding deactivate_tenant change get fetch commit save
switched_off = refl

abbrev calls : List Call
calls = Call.deactivate 2 ∷ Call.create 3 9 request ∷ Call.activate 7 ∷ []

run_all-IsTenants_example :
    IsTenants (run_all list_engine calls rows)
    × (create_tenant list_engine 4 10 request (run_all list_engine calls rows)
        ≡ elim (find by_slug "acme" (run_all list_engine calls rows)) [
          | some taken ↦ (err conflict, run_all list_engine calls rows)
          | none ↦ add clash (new_tenant 4 10 request) (run_all list_engine calls rows)
        ])
run_all-IsTenants_example = run_all-IsTenants list_engine calls 4 10 request rows rows-IsTenants
