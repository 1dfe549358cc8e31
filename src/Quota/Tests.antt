-- ===== src/Quota/Tests.antt =====
-- Runs of the quota service, and its theorems at inputs that meet their hypotheses.
use dox.Prelude.{
  ℕ, ◌+◌, ◌≡◌, refl, ◌≤◌, some, List, [], ◌∷◌, min, length, ◌-◌, not, ◌||◌, String_eq, ◌*◌,
}
use dox.Result.{ok}
use dox.Clock.{day, date, month_start, day_of_month}
use dox.Enums.{SubscriptionTier, tier_str}
use dox.Sql.{fetch, insert, save}
use dox.Sql.Rows.{find}
use dox.Sql.Engine.{list_engine}
use dox.Quota.{
  TenantQuota, Env, Table, by_tenant, or_create, get_or_create, add, commit, charge, new_quota,
  get_status, check_and_increment, provision, reset_daily, to_status, maybe_reset_windows,
}
use dox.Quota.Calls.{IsTable, quota_of}
use dox.Quota.Limits.{admissions, admissions-exact, admissions-le_month, used_on, used_in, is_ok}
use dox.Quota.Isolation.{
  Call, provide, status, check, reset, run, run_all, run-other_tenant, run_all-IsTable, AllInRange,
}
use dox.Quota.Status.{get_status-predicts}

program : Unit {0}
unfolding fetch insert save find by_tenant or_create get_or_create add commit charge
    maybe_reset_windows new_quota get_status check_and_increment provision reset_daily month_start
    day_of_month tier_str
program = tt

-- 29 February 2024, and noon on that day.
abbrev leap_day : ℕ
leap_day = 738944 * day

abbrev noon : ℕ
noon = leap_day + 43200000000

abbrev at_noon : ℕ → Env
at_noon n = record { fresh = n; created = noon; now = noon }

-- Two events of the day's thousand are left, of a row that was last used on that day.
abbrev acme : TenantQuota
acme = record {
  id = 1;
  tenant_id = "acme";
  subscription_tier = "starter";
  daily_limit = 1000;
  monthly_limit = 20000;
  events_today = 998;
  events_this_month = 1500;
  day_window_start = leap_day;
  month_window_start = leap_day;
}

abbrev rows : Table
rows = acme ∷ []

rows-IsTable : IsTable rows
rows-IsTable = record { ids = (tt, tt); tenants = (tt, tt) }

found : quota_of "acme" rows ≡ some acme
unfolding find
found = refl

abbrev three : List Env
three = at_noon 7 ∷ at_noon 8 ∷ at_noon 9 ∷ []

three_calls : (admissions list_engine "acme" three rows).0 ≡ 2
unfolding admissions program
three_calls = refl

admissions-exact_example :
    (admissions list_engine "acme" three rows).0
    ≡ min (length three) (
        min
          (acme.daily_limit - used_on (date noon) acme)
          (acme.monthly_limit - used_in (month_start noon) acme))
admissions-exact_example =
    admissions-exact list_engine "acme" noon three rows acme rows-IsTable found
      (refl, (refl, (refl, tt)))

admissions-le_month_example :
    (admissions list_engine "acme" three rows).0 ≤ 20000 - used_in (month_start noon) acme
admissions-le_month_example =
    admissions-le_month list_engine "acme" (month_start noon) three rows acme rows-IsTable found
      (refl, (refl, (refl, tt)))

run-other_tenant_example :
    quota_of "acme" (run list_engine (at_noon 2) (check "globex") rows) ≡ quota_of "acme" rows
run-other_tenant_example =
    run-other_tenant list_engine (at_noon 2) (check "globex") rows "acme" rows-IsTable refl

empty-InRange : AllInRange []
unfolding find
empty-InRange = λ j q e. cc

abbrev calls : List (Env × Call)
calls =
    (
      at_noon 1,
      provide (record { tenant_id = "acme"; subscription_tier = SubscriptionTier.enterprise }),
    )
    ∷ (at_noon 2, check "acme")
    ∷ (at_noon 3, status "globex")
    ∷ (at_noon 4, reset "acme")
    ∷ []

run_all-IsTable_example :
    IsTable (run_all list_engine calls []) × AllInRange (run_all list_engine calls [])
run_all-IsTable_example =
    run_all-IsTable list_engine calls [] (record { ids = tt; tenants = tt }) empty-InRange

shown : get_status list_engine (at_noon 5) "acme" rows ≡ (ok (to_status acme), rows)
unfolding program to_status
shown = refl

get_status-predicts_example :
    is_ok (check_and_increment list_engine (at_noon 6) "acme" rows).0
    ≡ not ((to_status acme).is_over_daily_limit || (to_status acme).is_over_monthly_limit)
get_status-predicts_example =
    get_status-predicts list_engine (at_noon 5) (at_noon 6) "acme" rows rows (to_status acme)
      rows-IsTable refl refl shown
