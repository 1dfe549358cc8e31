-- ===== src/Quota/Isolation.antt =====
-- services/quota/service.py: what a call of any method does to the rows of other tenants, to the unique
-- keys and to the range of the counters.
use dox.Prelude.{
  ℕ, ◌≤◌, ◌≡◌, refl, sym, ◌∙◌, ap, false, String, some, List, [], ◌∷◌, arith, ◌==◌, String_eq,
  eq_iff, Bool-cases, Option-cases, inl, inr,
}
use dox.Result.{Result}
use dox.Enums.{tier_str}
use dox.Sql.{Sql}
use dox.Quota.{
  TenantQuota, QuotaProvision, Env, Table, new_quota, limits_for_tier, maybe_reset_windows, commit,
  provision, provision_found, get_status, check_and_increment, reset_daily,
}
use dox.Quota.Calls.{
  IsTable, quota_of, held, Opened, commit-Opened, get_or_create-cases, by_tenant_lem, add-cases,
  made-Opened,
}
use dox.Quota.Windows.{
  Outcome, refused, admitted, charged, is_over, charge-Outcome, SameTerms, reset-SameTerms,
  Opened-self, events_today-reset, events_this_month-reset,
}

-- A call to a method of the service.
pub data Call : Type 0 where
  provide : QuotaProvision → Call
  status check reset : String → Call

abbrev pub tenant_of : Call → String
tenant_of (provide create) = create.tenant_id
tenant_of (status t) = t
tenant_of (check t) = t
tenant_of (reset t) = t

-- The table that a call leaves.
unfoldable pub run : Sql → Env → Call → Table → Table
run sql env (provide create) rows = (provision sql env create rows).1
run sql env (status t) rows = (get_status sql env t rows).1
run sql env (check t) rows = (check_and_increment sql env t rows).1
run sql env (reset t) rows = (reset_daily sql env t rows).1

-- The greatest limits of `_TIER_LIMITS`; a column of type INTEGER holds more.
pub record InRange (q : TenantQuota) : Type 0 where
  pub daily_limit : q.daily_limit ≤ 100000
  pub monthly_limit : q.monthly_limit ≤ 5000000
  pub events_today : q.events_today ≤ 100000
  pub events_this_month : q.events_this_month ≤ 5000000

abbrev pub AllInRange : Table → Type 0
AllInRange rows = (j : String) (q : TenantQuota) → quota_of j rows ≡ some q → InRange q

-- A table that a method leaves: the one it found, or one with a new row for its tenant.
pub data Ran (tenant : String) (rows rows' : Table) : Type 0 where
  same : rows' ≡ rows → Ran tenant rows rows'
  changed :
      (q : TenantQuota)
      → Opened tenant rows q rows'
      → (AllInRange rows → InRange q)
      → Ran tenant rows rows'

limits-InRange :
    (tier : String) → ((limits_for_tier tier).0 ≤ 100000) × ((limits_for_tier tier).1 ≤ 5000000)
unfolding limits_for_tier
limits-InRange tier = ground arith

starter-InRange : (env : Env) (tenant tier : String) → InRange (new_quota env tenant tier)
unfolding new_quota
starter-InRange env tenant tier = ground (arith, limits-InRange tier)

held-InRange :
    (env : Env) (tenant : String) (rows : Table) → AllInRange rows → InRange (held env tenant rows)
held-InRange env tenant rows h = elim (Option-cases (quota_of tenant rows)) [
  | inl missing ↦
      rw missing (starter-InRange env tenant (tier_str dox.Enums.SubscriptionTier.starter))
  | inr (q, found) ↦ rw found (h tenant q found)
]

reset-InRange : (now : ℕ) (q : TenantQuota) → InRange q → InRange (maybe_reset_windows now q)
reset-InRange now q h = record {
  daily_limit = rw ((reset-SameTerms now q).daily_limit) h.daily_limit;
  monthly_limit = rw ((reset-SameTerms now q).monthly_limit) h.monthly_limit;
  events_today = ground (arith, events_today-reset now q);
  events_this_month = ground (arith, events_this_month-reset now q);
}

charged-InRange : (q : TenantQuota) → InRange q → is_over q ≡ false → InRange (charged q)
charged-InRange q h under = ground arith

Outcome-Ran :
    {tenant : String} {rows rows' : Table} {q : TenantQuota} {out : Result (Unit {0}) × Table}
    → Ran tenant rows rows'
    → (AllInRange rows → InRange q)
    → Outcome tenant rows q rows' out
    → Ran tenant rows out.1
Outcome-Ran {tenant} {rows} r h (refused over e) = rw e r
Outcome-Ran {q = q} r h (admitted under rows' e o) =
    rw e (changed (charged q) o (λ a. charged-InRange q (h a) under))

check-Ran :
    (sql : Sql) (env : Env) (tenant : String) (rows : Table)
    → IsTable rows
    → Ran tenant rows (check_and_increment sql env tenant rows).1
unfolding check_and_increment
check-Ran sql env tenant rows h = elim (get_or_create-cases sql env tenant rows h) [
  | inl bad ↦ rw bad.1 (same refl)
  | inr (rows', got, o) ↦
      let q : TenantQuota = held env tenant rows in
      rw got (
        Outcome-Ran (changed q o (held-InRange env tenant rows))
          (λ a. reset-InRange env.now q (held-InRange env tenant rows a))
          (charge-Outcome (maybe_reset_windows env.now q) o (reset-SameTerms env.now q)))
]

status-Ran :
    (sql : Sql) (env : Env) (tenant : String) (rows : Table)
    → IsTable rows
    → Ran tenant rows (get_status sql env tenant rows).1
unfolding get_status
status-Ran sql env tenant rows h = elim (get_or_create-cases sql env tenant rows h) [
  | inl bad ↦ rw bad.1 (same refl)
  | inr (rows', got, o) ↦
      let q : TenantQuota = held env tenant rows in
      let terms : SameTerms q (maybe_reset_windows env.now q) = reset-SameTerms env.now q in
      unfold commit in
      rw got (
        changed (maybe_reset_windows env.now q)
          (commit-Opened (maybe_reset_windows env.now q) o terms.id terms.tenant_id)
          (λ a. reset-InRange env.now q (held-InRange env tenant rows a)))
]

reset-Ran :
    (sql : Sql) (env : Env) (tenant : String) (rows : Table)
    → IsTable rows
    → Ran tenant rows (reset_daily sql env tenant rows).1
unfolding reset_daily commit
reset-Ran sql env tenant rows h = elim (get_or_create-cases sql env tenant rows h) [
  | inl bad ↦ rw bad.1 (same refl)
  | inr (rows', got, o) ↦
      let q : TenantQuota = held env tenant rows in
      let q' : TenantQuota = record q { events_today = 0; day_window_start = env.now } in
      rw got (
        changed q' (commit-Opened q' o refl refl) (λ a.
          let r = held-InRange env tenant rows a in
          record {
            daily_limit = r.daily_limit;
            monthly_limit = r.monthly_limit;
            events_today = omega arith;
            events_this_month = r.events_this_month;
          }))
]

provide-Ran :
    (sql : Sql) (env : Env) (create : QuotaProvision) (rows : Table)
    → IsTable rows
    → Ran create.tenant_id rows (provision sql env create rows).1
unfolding provision provision_found commit new_quota
provide-Ran sql env create rows h = elim (Option-cases (quota_of create.tenant_id rows)) [
  | inl missing ↦
      let q : TenantQuota = new_quota env create.tenant_id (tier_str create.subscription_tier) in
      elim (add-cases q rows h) [
        | inl bad ↦ rw (by_tenant_lem sql create.tenant_id rows h, missing, bad.1) (same refl)
        | inr good ↦
            rw (by_tenant_lem sql create.tenant_id rows h, missing, good.0)
              (changed q (made-Opened create.tenant_id rows q refl good.1)
                (λ a. starter-InRange env create.tenant_id (tier_str create.subscription_tier)))
      ]
  | inr (q, found) ↦
      let limits = limits_for_tier (tier_str create.subscription_tier) in
      let q' : TenantQuota = record q {
        subscription_tier = tier_str create.subscription_tier;
        daily_limit = limits.0;
        monthly_limit = limits.1;
      } in
      rw (by_tenant_lem sql create.tenant_id rows h, found)
        (changed q' (commit-Opened q' (Opened-self create.tenant_id rows q h found) refl refl) (λ a.
          let r = a create.tenant_id q found in
          record {
            daily_limit = (limits-InRange (tier_str create.subscription_tier)).0;
            monthly_limit = (limits-InRange (tier_str create.subscription_tier)).1;
            events_today = r.events_today;
            events_this_month = r.events_this_month;
          }))
]

run-Ran :
    (sql : Sql) (env : Env) (call : Call) (rows : Table)
    → IsTable rows
    → Ran (tenant_of call) rows (run sql env call rows)
unfolding run
run-Ran sql env (provide create) rows h = provide-Ran sql env create rows h
run-Ran sql env (status t) rows h = status-Ran sql env t rows h
run-Ran sql env (check t) rows h = check-Ran sql env t rows h
run-Ran sql env (reset t) rows h = reset-Ran sql env t rows h

-- In a table with unique keys, a call for one tenant leaves the quota of every other tenant as it was,
-- whether it raises or not.
pub run-other_tenant :
    (sql : Sql) (env : Env) (call : Call) (rows : Table) (j : String)
    → IsTable rows
    → (tenant_of call == j) ≡ false
    → quota_of j (run sql env call rows) ≡ quota_of j rows
run-other_tenant sql env call rows j h apart = elim (run-Ran sql env call rows h) [
  | same e ↦ rw e
  | changed q o r ↦ o.others j apart
]

run-IsTable :
    (sql : Sql) (env : Env) (call : Call) (rows : Table)
    → IsTable rows
    → IsTable (run sql env call rows)
run-IsTable sql env call rows h = elim (run-Ran sql env call rows h) [
  | same e ↦ rw e h
  | changed q o r ↦ o.table
]

run-InRange :
    (sql : Sql) (env : Env) (call : Call) (rows : Table)
    → IsTable rows
    → AllInRange rows
    → AllInRange (run sql env call rows)
run-InRange sql env call rows h a = elim (run-Ran sql env call rows h) [
  | same e ↦ rw e a
  | changed q o r ↦ λ j p found. elim (Bool-cases (tenant_of call == j)) [
    | inl hit ↦
        let here : tenant_of call ≡ j = (eq_iff (tenant_of call) j).0 hit in
        let there : some q ≡ some p =
          sym o.found ∙ ap (λ k. quota_of k (run sql env call rows)) here ∙ found in
        let e : q ≡ p = cc in rw (← e) (r a)
    | inr miss ↦ a j p (sym (o.others j miss) ∙ found)
  ]
]

unfoldable pub run_all : Sql → List (Env × Call) → Table → Table
run_all sql [] rows = rows
run_all sql ((env, call) ∷ calls) rows = run_all sql calls (run sql env call rows)

-- From a table with unique keys and counters in range, any sequence of calls leaves such a table.
pub run_all-IsTable :
    (sql : Sql) (calls : List (Env × Call)) (rows : Table)
    → IsTable rows
    → AllInRange rows
    → IsTable (run_all sql calls rows) × AllInRange (run_all sql calls rows)
unfolding run_all
run_all-IsTable sql [] rows h a = (h, a)
run_all-IsTable sql ((env, call) ∷ calls) rows h a =
    run_all-IsTable sql calls (run sql env call rows) (run-IsTable sql env call rows h)
      (run-InRange sql env call rows h a)
