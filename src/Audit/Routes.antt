-- ===== src/Audit/Routes.antt =====
-- services/audit/router.py: the routes of the trail, over the table of the service. A body that FastAPI
-- refuses does not reach a route.
use dox.Prelude.{
  ℕ, ◌≡◌, refl, Bool, false, String, List, [], ◌∷◌, Option, none, some, All, All-filter, All-imp,
  filter, if◌then◌else◌, ◌==◌, ◌&&◌, leb, ℕ_eq, String_eq, Bool-cases, inl, inr, arith, nat_eq_iff,
}
use dox.Result.{Result, ok, err, not_found}
use dox.Sql.{Sql}
use dox.Sql.Rows.{Distinct, find}
use dox.Sql.Change.{found_or_404, get-find}
use dox.Api.{Reply, reply, refused, raised}
use dox.Audit.{
  AuditEntry, AuditEntryCreate, TrailFilter, list_for_tenant, count_for_tenant,
  record_entry as service_record, get_entry as service_get,
}
use dox.Audit.Trail.{by_id}

pub record AuditListResponse : Type 0 where
  pub entries : List AuditEntry
  pub total : ℕ
  pub limit : ℕ
  pub offset : ℕ

-- `AuditEntryResponse` has the fields of the entry.
unfoldable pub created : Result AuditEntry → Reply AuditEntry
created (ok entry) = reply 201 entry
created (err e) = raised e

-- The handler's `except`, and the comparison of the tenants.
unfoldable pub shown : String → Result AuditEntry → Reply AuditEntry
shown tenant_id (ok entry) = if entry.tenant_id == tenant_id then reply 200 entry else refused 404
shown tenant_id (err not_found) = refused 404
shown tenant_id (err e) = raised e

unfoldable pub record_entry :
    ℕ → ℕ → AuditEntryCreate → List AuditEntry → Reply AuditEntry × List AuditEntry
unfolding service_record created
record_entry id created_at create rows =
    let (result, rows') = service_record id created_at create rows in (created result, rows')

module _ (sql : Sql) where
  -- FastAPI answers 422 to a limit out of its bounds.
  unfoldable pub list_entries : TrailFilter → ℕ → ℕ → List AuditEntry → Reply AuditListResponse
  unfolding list_for_tenant count_for_tenant
  list_entries f limit offset rows =
      if leb 1 limit && leb limit 500
      then reply 200 (record {
        entries = list_for_tenant sql f limit offset rows;
        total = count_for_tenant sql f rows;
        limit = limit;
        offset = offset;
      })
      else refused 422

  unfoldable pub get_entry : String → ℕ → List AuditEntry → Reply AuditEntry
  unfolding service_get shown
  get_entry tenant_id entry_id rows = shown tenant_id (service_get sql entry_id rows)

-- What a tenant sees of the entry that is there for it, or not.
abbrev pub entry_of : Option AuditEntry → Reply AuditEntry
entry_of none = refused 404
entry_of (some entry) = reply 200 entry

abbrev is_own : String → AuditEntry → Bool
is_own tenant_id e = e.tenant_id == tenant_id

find_miss :
    (k : ℕ) (rows : List AuditEntry)
    → All (λ e. (by_id e == k) ≡ false) rows
    → find by_id k rows ≡ none
unfolding find
find_miss k [] h = refl
find_miss k (e ∷ rows) h = rw h.0 (find_miss k rows h.1)

shown-find :
    (tenant_id : String) (k : ℕ) (rows : List AuditEntry)
    → Distinct by_id rows
    → shown tenant_id (found_or_404 (find by_id k rows))
      ≡ entry_of (find by_id k (filter (is_own tenant_id) rows))
unfolding find shown
shown-find tenant_id k [] d = refl
shown-find tenant_id k (e ∷ rows) d =
    let later = shown-find tenant_id k rows d.1 in
    elim (Bool-cases (by_id e == k)) [
      | inl hit ↦ elim (Bool-cases (is_own tenant_id e)) [
        | inl own ↦ rw (hit, own, hit) refl
        | inr other ↦
            let same : e.id ≡ k = (nat_eq_iff e.id k).0 hit in
            let apart : All (λ r. (by_id r == k) ≡ false) rows =
              All-imp (λ r. (by_id e == by_id r) ≡ false) (λ r. (by_id r == k) ≡ false) rows
                (λ r differs. ground arith) d.0 in
            let none_left : find by_id k (filter (is_own tenant_id) rows) ≡ none =
              find_miss k (filter (is_own tenant_id) rows)
                (All-filter (λ r. (by_id r == k) ≡ false) (is_own tenant_id) rows apart) in
            rw (hit, other, none_left) refl
      ]
      | inr miss ↦ elim (Bool-cases (is_own tenant_id e)) [
        | inl own ↦ rw (miss, own, miss) later
        | inr other ↦ rw (miss, other) later
      ]
    ]

-- With unique identifiers a tenant that asks for an entry gets the one with that identifier among its own
-- entries, and a 404 where it has none, whether or not another tenant has one.
pub get_entry-filter :
    (sql : Sql) (tenant_id : String) (entry_id : ℕ) (rows : List AuditEntry)
    → Distinct by_id rows
    → get_entry sql tenant_id entry_id rows
      ≡ entry_of (find by_id entry_id (filter (λ e. e.tenant_id == tenant_id) rows))
unfolding get_entry service_get
get_entry-filter sql tenant_id entry_id rows d =
    rw (get-find sql by_id entry_id rows d) (shown-find tenant_id entry_id rows d)
