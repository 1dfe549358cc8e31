-- ===== src/Quota/Limits.antt =====
-- services/quota/service.py: how many of a sequence of `check_and_increment` calls are let through.
use dox.Prelude.{
  ℕ, ◌+◌, ◌-◌, ◌≤◌, ◌<◌, ◌≡◌, Bool, true, false, String, some, List, [], ◌∷◌, arith, if◌then◌else◌,
  ltb, min, length, All,
}
use dox.Result.{Error, Result, ok, err}
use dox.Clock.{date, month_start, month_start-le, month_start-date}
use dox.Sql.{Sql}
use dox.Quota.{TenantQuota, Env, Table, maybe_reset_windows, check_and_increment}
use dox.Quota.Calls.{IsTable, quota_of}
use dox.Quota.Windows.{
  refusal, Outcome, refused, admitted, is_over, charged, check_and_increment-Outcome,
  reset-SameTerms, events_today-reset, day_window-reset, events_this_month-reset,
  month_window-reset,
}

abbrev pub is_ok {ℓ} : {A : Type ℓ} → Result A → Bool
is_ok (ok a) = true
is_ok (err e) = false

-- One call after another; the number of those that did not raise, and the table that is left.
unfoldable pub admissions : Sql → String → List Env → Table → ℕ × Table
admissions sql tenant [] rows = (0, rows)
admissions sql tenant (env ∷ envs) rows =
    let (r, rows') = check_and_increment sql env tenant rows in
    let (n, rows'') = admissions sql tenant envs rows' in (if is_ok r then n + 1 else n, rows'')

-- What a quota has used on a date, and in the month that starts at an instant.
abbrev pub used_on : ℕ → TenantQuota → ℕ
used_on d q = if ltb (date q.day_window_start) d then 0 else q.events_today

abbrev pub used_in : ℕ → TenantQuota → ℕ
used_in m q = if ltb q.month_window_start m then 0 else q.events_this_month

used_on-charged :
    (now d : ℕ) (q : TenantQuota)
    → date now ≡ d
    → used_on d (charged (maybe_reset_windows now q)) ≡ used_on d q + 1
used_on-charged now d q e = ground (arith, events_today-reset now q, day_window-reset now q)

used_in-charged :
    (now m : ℕ) (q : TenantQuota)
    → month_start now ≡ m
    → used_in m (charged (maybe_reset_windows now q)) ≡ used_in m q + 1
used_in-charged now m q e =
    ground (arith, events_this_month-reset now q, month_window-reset now q, month_start-le now)

used_on-lt :
    (now d : ℕ) (q : TenantQuota)
    → is_over (maybe_reset_windows now q) ≡ false
    → date now ≡ d
    → used_on d q < q.daily_limit
used_on-lt now d q under e =
    ground (arith, events_today-reset now q, (reset-SameTerms now q).daily_limit)

used_in-lt :
    (now m : ℕ) (q : TenantQuota)
    → is_over (maybe_reset_windows now q) ≡ false
    → month_start now ≡ m
    → used_in m q < q.monthly_limit
used_in-lt now m q under e =
    ground (arith, events_this_month-reset now q, (reset-SameTerms now q).monthly_limit)

-- A refusal means that the day or the month has nothing left.
none_left :
    (now d m : ℕ) (q : TenantQuota)
    → is_over (maybe_reset_windows now q) ≡ true
    → date now ≡ d
    → month_start now ≡ m
    → min (q.daily_limit - used_on d q) (q.monthly_limit - used_in m q) ≡ 0
none_left now d m q over e f = ground (
  arith,
  events_today-reset now q,
  events_this_month-reset now q,
  (reset-SameTerms now q).daily_limit,
  (reset-SameTerms now q).monthly_limit,
)

-- In a table with unique keys, for a tenant that has a row, the calls let through in one month are at
-- most what the month has left.
pub admissions-le_month :
    (sql : Sql) (tenant : String) (m : ℕ) (envs : List Env) (rows : Table) (q : TenantQuota)
    → IsTable rows
    → quota_of tenant rows ≡ some q
    → All (λ env. month_start env.now ≡ m) envs
    → (admissions sql tenant envs rows).0 ≤ q.monthly_limit - used_in m q
unfolding admissions
admissions-le_month sql tenant m [] rows q h found same = omega arith
admissions-le_month sql tenant m (env ∷ envs) rows q h found same =
    step (check_and_increment-Outcome sql env tenant rows q h found)
      (λ rows' q' h' found'. admissions-le_month sql tenant m envs rows' q' h' found' same.1)
  where
    step :
        Outcome tenant rows
          (maybe_reset_windows env.now q)
          rows
          (check_and_increment sql env tenant rows)
        → ((rows' : Table) (q' : TenantQuota)
            → IsTable rows'
            → quota_of tenant rows' ≡ some q'
            → (admissions sql tenant envs rows').0 ≤ q'.monthly_limit - used_in m q')
        → (admissions sql tenant (env ∷ envs) rows).0 ≤ q.monthly_limit - used_in m q
    step (refused over e) ih = rw e (ih rows q h found)
    step (admitted under rows' e o) ih =
        let rest = ih rows' (charged (maybe_reset_windows env.now q)) o.table o.found in
        let room = used_in-lt env.now m q under same.0 in
        let used = used_in-charged env.now m q same.0 in
        let limit = (reset-SameTerms env.now q).monthly_limit in
        rw e (omega (arith, room, used, limit, rest))

-- In a table with unique keys, of a sequence of calls for a tenant that has a row, all on one date,
-- exactly the minimum of their number, what the day has left and what the month has left is let
-- through.
pub admissions-exact :
    (sql : Sql) (tenant : String) (t : ℕ) (envs : List Env) (rows : Table) (q : TenantQuota)
    → IsTable rows
    → quota_of tenant rows ≡ some q
    → All (λ env. date env.now ≡ date t) envs
    → (admissions sql tenant envs rows).0
      ≡ min
          (length envs)
          (min (q.daily_limit - used_on (date t) q) (q.monthly_limit - used_in (month_start t) q))
unfolding admissions
admissions-exact sql tenant t [] rows q h found same = omega arith
admissions-exact sql tenant t (env ∷ envs) rows q h found same =
    step (check_and_increment-Outcome sql env tenant rows q h found)
      (λ rows' q' h' found'. admissions-exact sql tenant t envs rows' q' h' found' same.1)
  where
    left : TenantQuota → ℕ
    left r = min (r.daily_limit - used_on (date t) r) (r.monthly_limit - used_in (month_start t) r)

    month : month_start env.now ≡ month_start t
    month = month_start-date env.now t same.0

    step :
        Outcome tenant rows
          (maybe_reset_windows env.now q)
          rows
          (check_and_increment sql env tenant rows)
        → ((rows' : Table) (q' : TenantQuota)
            → IsTable rows'
            → quota_of tenant rows' ≡ some q'
            → (admissions sql tenant envs rows').0 ≡ min (length envs) (left q'))
        → (admissions sql tenant (env ∷ envs) rows).0 ≡ min (length (env ∷ envs)) (left q)
    step (refused over e) ih =
        let rest = ih rows q h found in
        let empty = none_left env.now (date t) (month_start t) q over same.0 month in
        rw e (omega (arith, rest, empty))
    step (admitted under rows' e o) ih =
        let q' : TenantQuota = charged (maybe_reset_windows env.now q) in
        let rest = ih rows' q' o.table o.found in
        let day_room = used_on-lt env.now (date t) q under same.0 in
        let month_room = used_in-lt env.now (month_start t) q under month in
        let day_used = used_on-charged env.now (date t) q same.0 in
        let month_used = used_in-charged env.now (month_start t) q month in
        let terms = reset-SameTerms env.now q in
        rw e (
          omega (
            arith, rest, day_room, month_room, day_used, month_used, terms.daily_limit,
            terms.monthly_limit,
          ))

-- What the day and the month of an instant have left for a quota.
abbrev pub left_on : ℕ → TenantQuota → ℕ
left_on t q = min (q.daily_limit - used_on (date t) q) (q.monthly_limit - used_in (month_start t) q)

pub data Charged (tenant : String) (t : ℕ) (rows : Table) (q : TenantQuota)
    (out : Result (Unit {0}) × Table) : Type 0 where
  exhausted : (e : Error) → out ≡ (err e, rows) → left_on t q ≡ 0 → Charged tenant t rows q out
  spent :
      (q' : TenantQuota) (rows' : Table)
      → out ≡ (ok tt, rows')
      → IsTable rows'
      → quota_of tenant rows' ≡ some q'
      → left_on t q ≡ left_on t q' + 1
      → Charged tenant t rows q out

-- A call on the date of `t` takes one of what is left, or finds nothing left and writes nothing.
pub check_and_increment-Charged :
    (sql : Sql) (env : Env) (tenant : String) (t : ℕ) (rows : Table) (q : TenantQuota)
    → IsTable rows
    → quota_of tenant rows ≡ some q
    → date env.now ≡ date t
    → Charged tenant t rows q (check_and_increment sql env tenant rows)
check_and_increment-Charged sql env tenant t rows q h found same =
    step (check_and_increment-Outcome sql env tenant rows q h found)
  where
    month : month_start env.now ≡ month_start t
    month = month_start-date env.now t same

    step :
        Outcome tenant rows
          (maybe_reset_windows env.now q)
          rows
          (check_and_increment sql env tenant rows)
        → Charged tenant t rows q (check_and_increment sql env tenant rows)
    step (refused over e) =
        exhausted (refusal (maybe_reset_windows env.now q)) e
          (none_left env.now (date t) (month_start t) q over same month)
    step (admitted under rows' e o) =
        let q' : TenantQuota = charged (maybe_reset_windows env.now q) in
        let day_room = used_on-lt env.now (date t) q under same in
        let month_room = used_in-lt env.now (month_start t) q under month in
        let day_used = used_on-charged env.now (date t) q same in
        let month_used = used_in-charged env.now (month_start t) q month in
        let terms = reset-SameTerms env.now q in
        spent q' rows' e o.table o.found (
          omega (
            arith, day_room, month_room, day_used, month_used, terms.daily_limit,
            terms.monthly_limit,
          ))
