-- ===== src/Quota.antt =====
-- services/quota/service.py and common/models/quota.py: the events that each tenant may send in a
-- day and in a month. The state is the table of quotas, as committed.
pub mod Calls
pub mod Windows
pub mod Limits
pub mod Isolation
pub mod Status
mod Tests
use dox.Prelude.{
  ℕ, ◌+◌, ◌-◌, Bool, ◌||◌, String, Option, none, some, List, [], ◌∷◌, if◌then◌else◌, ltb, leb, ◌==◌,
  ℕ_eq, String_eq, max,
}
use dox.Result.{
  Window, daily, monthly, Error, quota_exceeded, Result, ok, err, Exec, ◌>>=◌, ◌>>◌, pure, raise,
  reads,
}
use dox.Clock.{date, month_start}
use dox.Enums.{SubscriptionTier, tier_str}
use dox.Sql.{Sql, fetch, insert, save}

pub record TenantQuota : Type 0 where
  pub id : ℕ
  pub tenant_id : String
  pub subscription_tier : String
  pub daily_limit : ℕ
  pub monthly_limit : ℕ
  pub events_today : ℕ
  pub events_this_month : ℕ
  pub day_window_start : ℕ
  pub month_window_start : ℕ

pub record QuotaProvision : Type 0 where
  pub tenant_id : String
  pub subscription_tier : SubscriptionTier

pub record QuotaStatus : Type 0 where
  pub tenant_id : String
  pub subscription_tier : String
  pub daily_limit : ℕ
  pub monthly_limit : ℕ
  pub events_today : ℕ
  pub events_this_month : ℕ
  pub daily_remaining : ℕ
  pub monthly_remaining : ℕ
  pub is_over_daily_limit : Bool
  pub is_over_monthly_limit : Bool
  pub day_window_start : ℕ
  pub month_window_start : ℕ

-- What one call reads from outside: `uuid4()`, and `datetime.now(UTC)` in the constructor of a new
-- row and in the method itself.
pub record Env : Type 0 where
  pub fresh : ℕ
  pub created : ℕ
  pub now : ℕ

-- `_limits_for_tier`: an unknown tier has the limits of a starter.
pub limits_for_tier : String → ℕ × ℕ
unfolding tier_str
limits_for_tier tier =
    if tier == tier_str SubscriptionTier.starter
    then (1000, 20000)
    else if tier == tier_str SubscriptionTier.professional
    then (10000, 200000)
    else if tier == tier_str SubscriptionTier.enterprise
    then (100000, 5000000)
    else (1000, 20000)

-- The constructor: the counters start at 0 and both windows now.
unfoldable pub new_quota : Env → String → String → TenantQuota
unfolding limits_for_tier
new_quota env tenant tier =
    let (per_day, per_month) = limits_for_tier tier in
    record {
      id = env.fresh;
      tenant_id = tenant;
      subscription_tier = tier;
      daily_limit = per_day;
      monthly_limit = per_month;
      events_today = 0;
      events_this_month = 0;
      day_window_start = env.created;
      month_window_start = env.created;
    }

abbrev pub starter : Env → String → TenantQuota
starter env tenant = new_quota env tenant (tier_str SubscriptionTier.starter)

-- The primary key, and `unique=True` of `tenant_id`.
abbrev pub clash : TenantQuota → TenantQuota → Bool
clash q r = r.id == q.id || r.tenant_id == q.tenant_id

abbrev pub Table : Type 0
Table = List TenantQuota

unfoldable pub add : TenantQuota → Exec Table TenantQuota
unfolding insert
add q rows = elim (insert clash q rows) [ ok rows' ↦ (ok q, rows') | err e ↦ (err e, rows) ]

unfoldable pub commit : TenantQuota → Exec Table TenantQuota
commit q rows = (ok q, save (λ r. r.id) q rows)

-- `_maybe_reset_windows`
pub maybe_reset_day : ℕ → TenantQuota → TenantQuota
maybe_reset_day now q =
    if ltb (date q.day_window_start) (date now)
    then record q { events_today = 0; day_window_start = now }
    else q

pub maybe_reset_month : ℕ → TenantQuota → TenantQuota
maybe_reset_month now q =
    if ltb q.month_window_start (month_start now)
    then record q { events_this_month = 0; month_window_start = now }
    else q

unfoldable pub maybe_reset_windows : ℕ → TenantQuota → TenantQuota
unfolding maybe_reset_day maybe_reset_month
maybe_reset_windows now q = maybe_reset_month now (maybe_reset_day now q)

-- `max(0, limit - used)` is the subtraction of ℕ, which stops at 0.
pub to_status : TenantQuota → QuotaStatus
to_status q = record {
  tenant_id = q.tenant_id;
  subscription_tier = q.subscription_tier;
  daily_limit = q.daily_limit;
  monthly_limit = q.monthly_limit;
  events_today = q.events_today;
  events_this_month = q.events_this_month;
  daily_remaining = q.daily_limit - q.events_today;
  monthly_remaining = q.monthly_limit - q.events_this_month;
  is_over_daily_limit = leb q.daily_limit q.events_today;
  is_over_monthly_limit = leb q.monthly_limit q.events_this_month;
  day_window_start = q.day_window_start;
  month_window_start = q.month_window_start;
}

-- The tests of `check_and_increment`, and what it commits.
unfoldable pub charge : TenantQuota → Exec Table Unit
unfolding commit
charge q =
    if leb q.daily_limit q.events_today
    then raise (quota_exceeded daily)
    else if leb q.monthly_limit q.events_this_month
    then raise (quota_exceeded monthly)
    else do
      commit (record q {
        events_today = q.events_today + 1;
        events_this_month = q.events_this_month + 1;
      })
      pure tt

module _ (sql : Sql) where
  unfoldable pub by_tenant : String → Table → Result (Option TenantQuota)
  by_tenant tenant = fetch sql (λ q. q.tenant_id == tenant)

  pub provision_found : Env → QuotaProvision → Option TenantQuota → Exec Table TenantQuota
  unfolding add commit limits_for_tier new_quota
  provision_found env create none =
      add (new_quota env create.tenant_id (tier_str create.subscription_tier))
  provision_found env create (some q) =
      let (per_day, per_month) = limits_for_tier (tier_str create.subscription_tier) in
      commit (record q {
        subscription_tier = tier_str create.subscription_tier;
        daily_limit = per_day;
        monthly_limit = per_month;
      })

  pub provision : Env → QuotaProvision → Exec Table TenantQuota
  provision env create = do
    found ← reads (by_tenant create.tenant_id)
    provision_found env create found

  unfoldable pub or_create : Env → String → Option TenantQuota → Exec Table TenantQuota
  or_create env tenant none = add (starter env tenant)
  or_create env tenant (some q) = pure q

  unfoldable pub get_or_create : Env → String → Exec Table TenantQuota
  unfolding or_create
  get_or_create env tenant = do found ← reads (by_tenant tenant); or_create env tenant found

  pub get_status : Env → String → Exec Table QuotaStatus
  get_status env tenant = do
    quota ← get_or_create env tenant
    kept ← commit (maybe_reset_windows env.now quota)
    pure (to_status kept)

  unfoldable pub check_and_increment : Env → String → Exec Table Unit
  check_and_increment env tenant = do
    quota ← get_or_create env tenant
    charge (maybe_reset_windows env.now quota)

  pub reset_daily : Env → String → Exec Table QuotaStatus
  reset_daily env tenant = do
    quota ← get_or_create env tenant
    kept ← commit (record quota { events_today = 0; day_window_start = env.now })
    pure (to_status kept)
