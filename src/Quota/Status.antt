-- ===== src/Quota/Status.antt =====
-- services/quota/service.py: what `get_status` reports, against what `check_and_increment` does.
use dox.Prelude.{ℕ, ◌≤◌, ◌≡◌, true, not, ◌||◌, String, arith, ◌↔◌}
use dox.Result.{Result, ok}
use dox.Clock.{month_start-le}
use dox.Sql.{Sql}
use dox.Quota.{
  TenantQuota, QuotaStatus, Env, Table, maybe_reset_windows, commit, to_status, get_status,
  check_and_increment,
}
use dox.Quota.Calls.{IsTable, IsFresh, held, Opened, commit-Opened, get_or_create-ok}
use dox.Quota.Windows.{
  Outcome, refused, admitted, is_over, reset-SameTerms, check_and_increment-Outcome,
}
use dox.Quota.Limits.{is_ok}

-- To reset the windows twice at one instant is to reset them once.
reset_idem :
    (now : ℕ) (q : TenantQuota)
    → maybe_reset_windows now (maybe_reset_windows now q) ≡ maybe_reset_windows now q
unfolding maybe_reset_windows
reset_idem now q = ground (arith, month_start-le now)

status_lem :
    (sql : Sql) (env : Env) (tenant : String) (rows : Table)
    → IsTable rows
    → IsFresh env rows
    → (rows' : Table) × (get_status sql env tenant rows
        ≡ (ok (to_status (maybe_reset_windows env.now (held env tenant rows))), rows'))
      × Opened tenant rows (maybe_reset_windows env.now (held env tenant rows)) rows'
unfolding get_status
status_lem sql env tenant rows h f =
    let (rows', got, o) = get_or_create-ok sql env tenant rows h f in
    let q : TenantQuota = held env tenant rows in
    let q' : TenantQuota = maybe_reset_windows env.now q in
    let terms = reset-SameTerms env.now q in
    ((commit q' rows').1, unfold commit in rw got, commit-Opened q' o terms.id terms.tenant_id)

Outcome-is_ok :
    {tenant : String} {rows rows' : Table} {q : TenantQuota} {out : Result (Unit {0}) × Table}
    → Outcome tenant rows q rows' out
    → is_ok out.0 ≡ not (is_over q)
Outcome-is_ok (refused over e) = rw (e, over)
Outcome-is_ok (admitted under rows' e o) = rw (e, under)

-- In a table with unique keys and with a fresh identifier: a tenant whose status shows neither limit
-- reached has its next event at that instant let through, and one whose status shows a limit reached
-- has it refused.
pub get_status-predicts :
    (sql : Sql) (env env' : Env) (tenant : String) (rows rows' : Table) (st : QuotaStatus)
    → IsTable rows
    → IsFresh env rows
    → env'.now ≡ env.now
    → get_status sql env tenant rows ≡ (ok st, rows')
    → is_ok (check_and_increment sql env' tenant rows').0
      ≡ not (st.is_over_daily_limit || st.is_over_monthly_limit)
unfolding to_status
get_status-predicts sql env env' tenant rows rows' st h f same e =
    let (rows'', got, o) = status_lem sql env tenant rows h f in
    let q : TenantQuota = maybe_reset_windows env.now (held env tenant rows) in
    let here : rows'' ≡ rows' = cc in
    let shown : to_status q ≡ st = cc in
    let again : maybe_reset_windows env'.now q ≡ q =
      rw same (reset_idem env.now (held env tenant rows)) in
    let out =
      Outcome-is_ok (check_and_increment-Outcome sql env' tenant rows'' q o.table o.found) in
    rw (← here, ← shown) (rw again at out)

-- In a table with unique keys and with a fresh identifier, `get_status` returns, for a tenant with or
-- without a row; a counter is over its limit exactly when nothing remains, and the daily remainder is
-- within the limit.
pub get_status-remaining :
    (sql : Sql) (env : Env) (tenant : String) (rows : Table)
    → IsTable rows
    → IsFresh env rows
    → (st : QuotaStatus) × (rows' : Table) × (get_status sql env tenant rows ≡ (ok st, rows'))
      × ((st.is_over_daily_limit ≡ true) ↔ (st.daily_remaining ≡ 0))
      × ((st.is_over_monthly_limit ≡ true) ↔ (st.monthly_remaining ≡ 0))
      × (st.daily_remaining ≤ st.daily_limit)
unfolding to_status
get_status-remaining sql env tenant rows h f =
    let (rows', got, o) = status_lem sql env tenant rows h f in
    (
      to_status (maybe_reset_windows env.now (held env tenant rows)),
      rows',
      got,
      (λ e. ground arith, λ e. ground arith),
      (λ e. ground arith, λ e. ground arith),
      omega arith,
    )
