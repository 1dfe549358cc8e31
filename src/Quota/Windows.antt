-- ===== src/Quota/Windows.antt =====
-- services/quota/service.py: one call of `check_and_increment`, and what the windows do to the
-- counters.
use dox.Prelude.{
  ℕ, ◌+◌, ◌≡◌, refl, Bool, true, false, ◌||◌, String, some, inl, inr, arith, if◌then◌else◌, leb,
  ltb, Bool-cases,
}
use dox.Result.{Error, quota_exceeded, daily, monthly, Result, ok, err}
use dox.Clock.{date, month_start}
use dox.Sql.{Sql}
use dox.Quota.{TenantQuota, Env, Table, commit, charge, maybe_reset_windows, check_and_increment}
use dox.Quota.Calls.{IsTable, quota_of, Opened, commit-Opened, get_or_create-found}

-- One of the two counters has reached its limit.
abbrev pub is_over : TenantQuota → Bool
is_over q = leb q.daily_limit q.events_today || leb q.monthly_limit q.events_this_month

abbrev pub charged : TenantQuota → TenantQuota
charged q = record q {
  events_today = q.events_today + 1;
  events_this_month = q.events_this_month + 1;
}

-- A refusal for the window that is full; the day is tested first.
abbrev pub refusal : TenantQuota → Error
refusal q = quota_exceeded (if leb q.daily_limit q.events_today then daily else monthly)

-- What `charge` does on the table `now_rows`, which differs from `rows` for one tenant alone.
pub data Outcome (tenant : String) (rows : Table) (q : TenantQuota) (now_rows : Table)
    (out : Result (Unit {0}) × Table) : Type 0 where
  refused :
      is_over q ≡ true → out ≡ (err (refusal q), now_rows) → Outcome tenant rows q now_rows out
  admitted :
      is_over q ≡ false
      → (rows' : Table) → out ≡ (ok tt, rows')
      → Opened tenant rows (charged q) rows'
      → Outcome tenant rows q now_rows out

-- The limits and keys of a row do not change when its windows are reset.
pub record SameTerms (q r : TenantQuota) : Type 0 where
  pub id : r.id ≡ q.id
  pub tenant_id : r.tenant_id ≡ q.tenant_id
  pub daily_limit : r.daily_limit ≡ q.daily_limit
  pub monthly_limit : r.monthly_limit ≡ q.monthly_limit

pub reset-SameTerms : (now : ℕ) (q : TenantQuota) → SameTerms q (maybe_reset_windows now q)
unfolding maybe_reset_windows
reset-SameTerms now q = record {
  id = ground arith;
  tenant_id = ground arith;
  daily_limit = ground arith;
  monthly_limit = ground arith;
}

-- The counter of the day starts again on a later date, and only then.
pub events_today-reset :
    (now : ℕ) (q : TenantQuota)
    → (maybe_reset_windows now q).events_today
      ≡ (if ltb (date q.day_window_start) (date now) then 0 else q.events_today)
unfolding maybe_reset_windows
events_today-reset now q = ground arith

pub day_window-reset :
    (now : ℕ) (q : TenantQuota)
    → (maybe_reset_windows now q).day_window_start
      ≡ (if ltb (date q.day_window_start) (date now) then now else q.day_window_start)
unfolding maybe_reset_windows
day_window-reset now q = ground arith

pub events_this_month-reset :
    (now : ℕ) (q : TenantQuota)
    → (maybe_reset_windows now q).events_this_month
      ≡ (if ltb q.month_window_start (month_start now) then 0 else q.events_this_month)
unfolding maybe_reset_windows
events_this_month-reset now q = ground arith

pub month_window-reset :
    (now : ℕ) (q : TenantQuota)
    → (maybe_reset_windows now q).month_window_start
      ≡ (if ltb q.month_window_start (month_start now) then now else q.month_window_start)
unfolding maybe_reset_windows
month_window-reset now q = ground arith

pub charge-Outcome :
    {tenant : String} {rows rows' : Table} {q : TenantQuota} (q' : TenantQuota)
    → Opened tenant rows q rows'
    → SameTerms q q'
    → Outcome tenant rows q' rows' (charge q' rows')
unfolding charge
charge-Outcome {rows' = rows'} q' o s = elim (Bool-cases (is_over q')) [
  | inl over ↦ refused over (ground arith)
  | inr under ↦
      admitted under (commit (charged q') rows').1 (unfold commit in ground arith)
        (commit-Opened (charged q') o s.id s.tenant_id)
]

pub Opened-self :
    (tenant : String) (rows : Table) (q : TenantQuota)
    → IsTable rows
    → quota_of tenant rows ≡ some q
    → Opened tenant rows q rows
Opened-self tenant rows q h found = record { table = h; found = found; others = λ j e. refl }

-- A call for a tenant that has a row.
pub check_and_increment-Outcome :
    (sql : Sql) (env : Env) (tenant : String) (rows : Table) (q : TenantQuota)
    → IsTable rows
    → quota_of tenant rows ≡ some q
    → Outcome tenant rows
        (maybe_reset_windows env.now q)
        rows
        (check_and_increment sql env tenant rows)
unfolding check_and_increment
check_and_increment-Outcome sql env tenant rows q h found =
    rw (get_or_create-found sql env tenant rows q h found) (
      charge-Outcome (maybe_reset_windows env.now q) (Opened-self tenant rows q h found)
        (reset-SameTerms env.now q))
