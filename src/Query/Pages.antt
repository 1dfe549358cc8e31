-- ===== src/Query/Pages.antt =====
-- services/query/service.py: the pages of `list_events` against the count of `count_events`.
use dox.Prelude.{
  All-imp, leb, ◌==◌, ◌≤◌, ◌↔◌, ◌&&◌, Bool, false, Option, none, some, refl, arith, String_eq,
  eq_iff, ℕ, ◌+◌, ◌-◌, ◌≡◌, ◌∙◌, ap, true, List, ◌++◌, length, count, min, All, filter-All,
  All-perm, ℕ_eq, length-filter, length-perm,
}
use dox.Events.{EventRecord}
use dox.Sql.{Sql, page}
use dox.Sentinel.{matches}
use dox.Enums.{event_type_str, environment_str}
use dox.Sql.Pages.{length-page, All-page, page-append}
use dox.Query.{EventFilter, conditions, list_events, count_events}

-- What a filter says of a column, where it says something.
abbrev pub Given : {A : Type 0} → (A → Type 0) → Option A → Type 0
Given P none = Unit
Given P (some a) = P a

-- The event is the tenant's, and each field of the filter that is set is that of the event or bounds its
-- time.
abbrev pub Passes : EventFilter → EventRecord → Type 0
Passes f e =
    (e.tenant_id ≡ f.tenant_id)
    × (Given (λ a. e.agent_id ≡ a) f.agent_id
        × (Given (λ t. e.event_type ≡ event_type_str t) f.event_type
            × (Given (λ v. e.environment ≡ environment_str v) f.environment
                × (Given (λ s. e.session_id ≡ s) f.session_id
                    × (Given (λ t. t ≤ e.timestamp) f.from_ts
                        × Given (λ t. e.timestamp ≤ t) f.to_ts)))))

both : {A B : Type 0} (a b : Bool) → (a ≡ true) ↔ A → (b ≡ true) ↔ B → ((a && b) ≡ true) ↔ (A × B)
both true b (p, q) (r, s) = (λ h. (p refl, r h), λ h. s h.1)
both false b (p, q) (r, s) = (λ h. cc, λ h. q h.0)

given :
    {A : Type 0} (test : A → Bool) (P : A → Type 0) (o : Option A)
    → ((a : A) → (test a ≡ true) ↔ P a)
    → (matches test o ≡ true) ↔ Given P o
given test P none h = (λ e. tt, λ e. refl)
given test P (some a) h = h a

leb_iff : (m n : ℕ) → (leb m n ≡ true) ↔ (m ≤ n)
leb_iff m n = (λ h. ground arith, λ h. ground arith)

conditions-Passes : (f : EventFilter) (e : EventRecord) → (conditions f e ≡ true) ↔ Passes f e
unfolding conditions
conditions-Passes f e = both (e.tenant_id == f.tenant_id) _ (eq_iff e.tenant_id f.tenant_id) (
    both _ _ (given _ _ f.agent_id (λ a. eq_iff e.agent_id a)) (
      both _ _ (given _ _ f.event_type (λ t. eq_iff e.event_type (event_type_str t))) (
        both _ _ (given _ _ f.environment (λ v. eq_iff e.environment (environment_str v))) (
          both _ _ (given _ _ f.session_id (λ s. eq_iff e.session_id s)) (
            both _ _ (given _ _ f.from_ts (λ t. leb_iff t e.timestamp))
              (given _ _ f.to_ts (λ t. leb_iff e.timestamp t)))))))

module _ (sql : Sql) (f : EventFilter) (rows : List EventRecord) where
  -- The conditions hold of exactly the events that are the tenant's and agree with each field of the
  -- filter that is set; every event that is listed is such an event, and the length of a page is what the
  -- count leaves after the offset, up to the limit; the count is the number of stored events that meet the
  -- conditions.
  pub list_events-count_events :
      ((e : EventRecord) → (conditions f e ≡ true) ↔ Passes f e)
      × All (Passes f) (list_events sql f rows)
      × (length (list_events sql f rows) ≡ min f.limit (count_events sql f rows - f.offset))
      × (count_events sql f rows ≡ count (conditions f) rows)
  unfolding list_events count_events
  list_events-count_events =
      let chosen = sql.select EventRecord (conditions f) rows in
      let sorted = sql.order_desc EventRecord (λ e. e.timestamp) chosen in
      let found = sql.select_perm EventRecord (conditions f) rows in
      let moved = sql.order_desc_perm EventRecord (λ e. e.timestamp) chosen in
      let passes : All (λ e. conditions f e ≡ true) sorted =
        (All-perm (λ e. conditions f e ≡ true) moved).1
          ((All-perm (λ e. conditions f e ≡ true) found).1 (filter-All (conditions f) rows)) in
      let listed = page f.limit f.offset sorted in
      (
        conditions-Passes f,
        All-imp (λ e. conditions f e ≡ true) (Passes f) listed (λ e. (conditions-Passes f e).0)
            (All-page (λ e. conditions f e ≡ true) f.limit f.offset sorted passes),
        length-page f.limit f.offset sorted
            ∙ ap (λ n. min f.limit (n - f.offset)) (length-perm moved),
        length-perm found ∙ length-filter (conditions f) rows,
      )

-- The page at the offset where the last one ended continues it: both together are the page of the
-- two limits' sum.
pub list_events-continues :
    (sql : Sql) (f : EventFilter) (more : ℕ) (rows : List EventRecord)
    → list_events sql f rows
        ++ list_events sql (record f { limit = more; offset = f.offset + f.limit }) rows
      ≡ list_events sql (record f { limit = f.limit + more }) rows
unfolding list_events
list_events-continues sql f more rows =
    let chosen = sql.select EventRecord (conditions f) rows in
    page-append f.offset f.limit more (sql.order_desc EventRecord (λ e. e.timestamp) chosen)
