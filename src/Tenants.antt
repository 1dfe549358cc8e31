-- ===== src/Tenants.antt =====
-- services/tenant/service.py and common/models/tenant.py: the tenants, one for each slug. The table is
-- as committed.
pub mod Slugs
mod Tests
use mathlib.Core.Option
use dox.Prelude.{
  ℕ, Bool, true, false, ◌&&◌, ◌||◌, not, String, Option, none, some, List, ◌==◌, ℕ_eq, String_eq,
}
use dox.Result.{Result, conflict, map_ok, Exec, ◌>>=◌, pure, reads, raise}
use dox.Enums.{SubscriptionTier, tier_str}
use dox.Sql.{Sql, fetch, get, add, change, page, or_not_found}

pub record Tenant : Type 0 where
  pub id : ℕ
  pub slug : String
  pub name : String
  pub subscription_tier : String
  pub is_active : Bool
  pub created_at : ℕ

pub record TenantCreate : Type 0 where
  pub slug : String
  pub name : String
  pub subscription_tier : SubscriptionTier

-- A field that is not given is left as it is.
pub record TenantUpdate : Type 0 where
  pub name : Option String
  pub subscription_tier : Option SubscriptionTier
  pub is_active : Option Bool

-- The primary key, and `unique=True` of `slug`.
abbrev pub clash : Tenant → Tenant → Bool
clash t r = r.id == t.id || r.slug == t.slug

-- The constructor: a tenant starts active.
unfoldable pub new_tenant : ℕ → ℕ → TenantCreate → Tenant
unfolding tier_str
new_tenant id created_at request = record {
  id = id;
  slug = request.slug;
  name = request.name;
  subscription_tier = tier_str request.subscription_tier;
  is_active = true;
  created_at = created_at;
}

abbrev or_kept {ℓ} : {A : Type ℓ} → Option A → A → A
or_kept none old = old
or_kept (some new) old = new

-- `setattr` of each field that the patch has.
unfoldable pub patched : TenantUpdate → Tenant → Tenant
unfolding tier_str
patched u t = record t {
  name = or_kept u.name t.name;
  subscription_tier = or_kept (Option.map tier_str u.subscription_tier) t.subscription_tier;
  is_active = or_kept u.is_active t.is_active;
}

abbrev pub switched : Bool → Tenant → Tenant
switched active t = record t { is_active = active }

abbrev is_listed : Bool → Tenant → Bool
is_listed active_only t = not active_only || t.is_active

module _ (sql : Sql) where
  -- `_get_by_slug`
  unfoldable pub find_slug : String → List Tenant → Result (Option Tenant)
  unfolding fetch
  find_slug slug rows = fetch sql (λ t. t.slug == slug) rows

  -- `create`, once the query has answered.
  unfoldable pub create_if_free : ℕ → ℕ → TenantCreate → Option Tenant → Exec (List Tenant) Tenant
  unfolding add new_tenant
  create_if_free id created_at request none = add clash (new_tenant id created_at request)
  create_if_free id created_at request (some existing) = raise conflict

  unfoldable pub create_tenant : ℕ → ℕ → TenantCreate → Exec (List Tenant) Tenant
  unfolding find_slug create_if_free
  create_tenant id created_at request = do
    existing ← reads (find_slug request.slug)
    create_if_free id created_at request existing

  unfoldable pub get_tenant : ℕ → List Tenant → Result Tenant
  unfolding get
  get_tenant tenant_id = get sql (λ t. t.id) tenant_id

  unfoldable pub get_by_slug : String → List Tenant → Result Tenant
  unfolding find_slug
  get_by_slug slug rows = or_not_found (find_slug slug rows)

  unfoldable pub list_tenants : Bool → ℕ → ℕ → List Tenant → List Tenant
  list_tenants active_only limit offset rows =
      page limit offset
        (sql.order_desc Tenant (λ t. t.created_at) (sql.select Tenant (is_listed active_only) rows))

  unfoldable pub update_tenant : ℕ → TenantUpdate → Exec (List Tenant) Tenant
  unfolding change patched
  update_tenant tenant_id u = change sql (λ t. t.id) tenant_id (patched u)

  unfoldable pub deactivate_tenant : ℕ → Exec (List Tenant) Unit
  unfolding change
  deactivate_tenant tenant_id = do t ← change sql (λ t. t.id) tenant_id (switched false); pure tt

  unfoldable pub activate_tenant : ℕ → Exec (List Tenant) Tenant
  unfolding change
  activate_tenant tenant_id = change sql (λ t. t.id) tenant_id (switched true)
