-- ===== src/Audit/Trail.antt =====
-- services/audit/service.py: recording appends to the trail, and the pages of the trail.
use Prim.Native.String.{count as characters}
use dox.Prelude.{
  any, any-false, ◌≤◌, false, leb, ◌&&◌, ℕ, ◌-◌, ◌≡◌, refl, ◌∙◌, ap, true, List, ◌∷◌, All, All-perm,
  filter-All, length, length-perm, length-filter, min, count, arith, if◌then◌else◌, ◌==◌, ℕ_eq,
  some, Bool-cases, nat_eq_iff, inl, inr,
}
use dox.Result.{ok}
use dox.Sql.{Sql, get, add, insert}
use dox.Sql.Pages.{length-page, All-page}
use dox.Sql.Rows.{Distinct, find, add-cases, add-Distinct}
use dox.Sql.Change.{get-find}
use dox.Audit.{
  AuditEntry, AuditEntryCreate, TrailFilter, clash, new_entry, record_entry, record_checked,
  to_create, get_entry, is_in_trail, list_for_tenant, count_for_tenant,
}

abbrev pub by_id : AuditEntry → ℕ
by_id e = e.id

find-cons :
    (e : AuditEntry) (k : ℕ) (rows : List AuditEntry)
    → find by_id k (e ∷ rows) ≡ (if e.id == k then some e else find by_id k rows)
unfolding find
find-cons e k rows = refl

module _ (sql : Sql) where
  get-cons :
      (e : AuditEntry) (k : ℕ) (rows : List AuditEntry)
      → Distinct by_id (e ∷ rows)
      → get sql by_id k (e ∷ rows) ≡ (if e.id == k then ok e else get sql by_id k rows)
  get-cons e k rows d =
      rw (get-find sql by_id k (e ∷ rows) d, get-find sql by_id k rows d.1, find-cons e k rows)
        (elim (Bool-cases (e.id == k)) [ inl hit ↦ rw hit refl | inr miss ↦ rw miss refl ])

  -- With unique identifiers, an entry that was recorded is read back under its identifier, every
  -- other entry is read as before, and the identifiers stay unique.
  pub get_entry-record_entry :
      (id created_at k : ℕ) (create : AuditEntryCreate) (rows rows' : List AuditEntry)
      (e : AuditEntry)
      → Distinct by_id rows
      → record_entry id created_at create rows ≡ (ok e, rows')
      → (get_entry sql k rows' ≡ (if id == k then ok e else get_entry sql k rows))
        × Distinct by_id rows'
  unfolding record_entry get_entry new_entry
  get_entry-record_entry id created_at k create rows rows' e d h =
      let new : AuditEntry = new_entry id created_at create in
      let kept =
        add-Distinct clash by_id
          (λ x y apart. ground (arith, apart, nat_eq_iff x.id y.id, nat_eq_iff y.id x.id)) new rows
          d in
      elim (add-cases clash new rows) [
        | inl taken ↦ absurd (ground (arith, taken.1))
        | inr stored ↦
            let same : e ≡ new = ground (arith, stored.1) in
            let table : rows' ≡ new ∷ rows = ground (arith, stored.1) in
            let d' : Distinct by_id (new ∷ rows) = rw stored.1 at kept in
            rw (table, same) (get-cons new k rows d', d')
      ]

  -- Every entry that is listed passes the filter, and a page has as many entries as the count leaves
  -- after the offset, up to the limit; the count is the number of entries that pass.
  pub list_for_tenant-count_for_tenant :
      (f : TrailFilter) (limit offset : ℕ) (rows : List AuditEntry)
      → All (λ e. is_in_trail f e ≡ true) (list_for_tenant sql f limit offset rows)
        × (length (list_for_tenant sql f limit offset rows)
            ≡ min limit (count_for_tenant sql f rows - offset))
        × (count_for_tenant sql f rows ≡ count (is_in_trail f) rows)
  unfolding list_for_tenant count_for_tenant
  list_for_tenant-count_for_tenant f limit offset rows =
      let chosen = sql.select AuditEntry (is_in_trail f) rows in
      let sorted = sql.order_desc AuditEntry (λ e. e.created_at) chosen in
      let found = sql.select_perm AuditEntry (is_in_trail f) rows in
      let moved = sql.order_desc_perm AuditEntry (λ e. e.created_at) chosen in
      let passes : All (λ e. is_in_trail f e ≡ true) sorted =
        (All-perm (λ e. is_in_trail f e ≡ true) moved).1
          ((All-perm (λ e. is_in_trail f e ≡ true) found).1 (filter-All (is_in_trail f) rows)) in
      (
        All-page (λ e. is_in_trail f e ≡ true) limit offset sorted passes,
        length-page limit offset sorted ∙ ap (λ n. min limit (n - offset)) (length-perm moved),
        length-perm found ∙ length-filter (is_in_trail f) rows,
      )

-- An entry whose fields are within the schema's bounds and whose identifier is fresh is added.
pub record_checked_fresh :
    (id now : ℕ) (create : AuditEntryCreate) (trail : List AuditEntry)
    → 1 ≤ characters create.resource_id
    → characters create.resource_id ≤ 255
    → All (λ e. (e.id == id) ≡ false) trail
    → record_checked id now create trail
      ≡ (ok (new_entry id now create), new_entry id now create ∷ trail)
unfolding record_checked to_create record_entry add insert
record_checked_fresh id now create trail low high fresh =
    let checked : (leb 1 (characters create.resource_id) && leb (characters create.resource_id) 255)
        ≡ true =
      ground arith in
    let free : any (clash (new_entry id now create)) trail ≡ false =
      any-false (clash (new_entry id now create)) trail fresh in
    rw (checked, free)
