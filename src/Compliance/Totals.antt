-- ===== src/Compliance/Totals.antt =====
-- services/compliance/service.py: the figures of a report against the rows of the four tables.
use dox.Prelude.{
  ℕ, suc, ◌+◌, ◌-◌, ◌*◌, ◌≡◌, refl, ◌∙◌, Bool, ◌&&◌, not, String, List, [], ◌∷◌, filter, count,
  count-perm, length, length-filter, length-perm, arith, ◌==◌, String_eq, eq_iff,
}
use dox.Result.{ok}
use dox.Clock.{hour}
use dox.Sql.{Sql}
use dox.Events.{EventRecord}
use dox.Sentinel.{SentinelAlert}
use dox.Policy.{Policy}
use dox.Adapters.{value_at, update_at, value_at-update_at}
use dox.Quota.{Env, Table, QuotaStatus, get_status}
use dox.Quota.Calls.{IsTable, IsFresh}
use dox.Quota.Status.{get_status-remaining}
use dox.Compliance.{
  Counts, ComplianceReport, count_by, unresolved_in, is_event_of, is_active_of, to_summary,
  summarize_events, summarize_alerts, summarize_quota, summarize_policies, generate_report,
}

-- The sum of the values of a dictionary.
abbrev pub sum_values : Counts → ℕ
sum_values [] = 0
sum_values ((k, n) ∷ d) = n + sum_values d

sum_values-update_at :
    (k : String) (d : Counts) → sum_values (update_at 0 k (λ n. n + 1) d) ≡ suc (sum_values d)
unfolding update_at
sum_values-update_at k [] = refl
sum_values-update_at k ((j, n) ∷ d) = ground (arith, sum_values-update_at k d)

module _ {A : Type 0} (key : A → String) where
  value_at-count_by :
      (xs : List A) (d : Counts) (k : String)
      → value_at 0 k (count_by key xs d) ≡ count (λ x. key x == k) xs + value_at 0 k d
  unfolding count_by
  value_at-count_by [] d k = omega arith
  value_at-count_by (x ∷ xs) d k = ground (
    arith,
    eq_iff (key x) k,
    value_at-count_by xs (update_at 0 (key x) (λ n. n + 1) d) k,
    value_at-update_at 0 (key x) k (λ n. n + 1) d,
  )

  sum_values-count_by :
      (xs : List A) (d : Counts) → sum_values (count_by key xs d) ≡ length xs + sum_values d
  unfolding count_by
  sum_values-count_by [] d = omega arith
  sum_values-count_by (x ∷ xs) d = omega (
    arith,
    sum_values-count_by xs (update_at 0 (key x) (λ n. n + 1) d),
    sum_values-update_at (key x) d,
  )

count-filter :
    {A : Type 0} (p q : A → Bool) (xs : List A) → count q (filter p xs) ≡ count (λ x. p x && q x) xs
count-filter p q [] = refl
count-filter p q (x ∷ xs) = ground (arith, count-filter p q xs)

unresolved_in-count :
    (alerts : List SentinelAlert) (n : ℕ)
    → unresolved_in alerts n ≡ count (λ a. not a.is_resolved) alerts + n
unfolding unresolved_in
unresolved_in-count [] n = omega arith
unresolved_in-count (a ∷ alerts) n =
    ground (arith, unresolved_in-count alerts n, unresolved_in-count alerts (n + 1))

-- A dictionary that counts the rows that pass by a key: the value of each key, and the sum of all.
abbrev pub Tallies : {A : Type 0} → (A → String) → (A → Bool) → List A → String → Counts → Type 0
Tallies key p rows k d =
    (value_at 0 k d ≡ count (λ x. p x && key x == k) rows) × (sum_values d ≡ count p rows)

module _ (sql : Sql) where
  select-count :
      {A : Type 0} (p q : A → Bool) (rows : List A)
      → count q (sql.select A p rows) ≡ count (λ x. p x && q x) rows
  select-count {A} p q rows = count-perm q (sql.select_perm A p rows) ∙ count-filter p q rows

  select-length :
      {A : Type 0} (p : A → Bool) (rows : List A) → length (sql.select A p rows) ≡ count p rows
  select-length {A} p rows = length-perm (sql.select_perm A p rows) ∙ length-filter p rows

  select-Tallies :
      {A : Type 0} (key : A → String) (p : A → Bool) (rows : List A) (k : String)
      → Tallies key p rows k (count_by key (sql.select A p rows) [])
  unfolding value_at
  select-Tallies {A} key p rows k = (
    omega (
      arith,
      value_at-count_by key (sql.select A p rows) [] k,
      select-count p (λ x. key x == k) rows,
    ),
    omega (arith, sum_values-count_by key (sql.select A p rows) [], select-length p rows),
  )

  select-unresolved :
      (p : SentinelAlert → Bool) (rows : List SentinelAlert)
      → unresolved_in (sql.select SentinelAlert p rows) 0
        ≡ count (λ a. p a && not a.is_resolved) rows
  select-unresolved p rows = omega (
    arith,
    unresolved_in-count (sql.select SentinelAlert p rows) 0,
    select-count p (λ a. not a.is_resolved) rows,
  )

  -- In a table of quotas with unique keys and with a fresh identifier, `generate_report` returns. For
  -- every key, each dictionary counts the rows of the tenant with that key, those of the window for the
  -- events, and its values add up to the total, which is the number of those rows; the unresolved
  -- alerts and the active policies are counted likewise, and the quota is what `get_status` reports.
  pub generate_report-Tallies :
      (now : ℕ) (env : Env) (tenant k : String) (lookback : ℕ) (events : List EventRecord)
      (alerts : List SentinelAlert) (policies : List Policy) (rows : Table)
      → IsTable rows
      → IsFresh env rows
      → (report : ComplianceReport) × (st : QuotaStatus) × (rows' : Table) × (generate_report sql
            now env tenant lookback events alerts policies rows
          ≡ (ok report, rows'))
        × (get_status sql env tenant rows ≡ (ok st, rows'))
        × (report.quota ≡ to_summary st)
        × Tallies
            (λ e. e.event_type)
            (is_event_of tenant (now - lookback * hour))
            events
            k
            report.events.by_type
        × (report.events.total_count ≡ count (is_event_of tenant (now - lookback * hour)) events)
        × Tallies (λ a. a.severity) (λ a. a.tenant_id == tenant) alerts k report.alerts.by_severity
        × Tallies (λ a. a.sentinel_type) (λ a. a.tenant_id == tenant) alerts k report.alerts.by_type
        × (report.alerts.total_count ≡ count (λ a. a.tenant_id == tenant) alerts)
        × (report.alerts.unresolved_count
            ≡ count (λ a. a.tenant_id == tenant && not a.is_resolved) alerts)
        × (report.policies.active_count ≡ count (is_active_of tenant) policies)
  unfolding generate_report summarize_quota summarize_events summarize_alerts summarize_policies
  generate_report-Tallies now env tenant k lookback events alerts policies rows h f =
      let (st, rows', got, daily, monthly, within) = get_status-remaining sql env tenant rows h f in
      let since = now - lookback * hour in
      let own : SentinelAlert → Bool = λ a. a.tenant_id == tenant in
      (
        record {
          tenant_id = tenant;
          generated_at = now;
          lookback_hours = lookback;
          events = summarize_events sql tenant since lookback events;
          alerts = summarize_alerts sql tenant alerts;
          quota = to_summary st;
          policies = summarize_policies sql tenant policies;
        },
        st,
        rows',
        rw got,
        got,
        refl,
        select-Tallies (λ e. e.event_type) (is_event_of tenant since) events k,
        select-length (is_event_of tenant since) events,
        select-Tallies (λ a. a.severity) own alerts k,
        select-Tallies (λ a. a.sentinel_type) own alerts k,
        select-length own alerts,
        select-unresolved own alerts,
        select-length (is_active_of tenant) policies,
      )
