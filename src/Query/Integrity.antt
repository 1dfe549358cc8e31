-- ===== src/Query/Integrity.antt =====
-- common/audit/integrity.py: reports against the hashes of the records, and the hash of a new row.
use mathlib.Core.List.{Permᴰ}
use dox.Prelude.{
  Option, ℕ, zero, suc, length-perm, ◌+◌, ◌≤◌, ◌≡◌, refl, ap, true, ◌↔◌, String, none, some, List,
  [], ◌∷◌, map, length, count, arith, ◌==◌, ℕ_eq, String_eq, eq_iff, All, filter, All-perm, take,
  ◌⊎◌, count-le-length, inl, inr, Option-cases, length-filter,
}
use dox.Events.{CanonicalEvent, EventRecord, from_canonical, hash_or}
use dox.Json.{Json}
use dox.Sql.{Sql}
use dox.Query.{is_clean, is_ok, status_of, check_record, verify_tenant_integrity, verify_integrity}

-- The stored hash is the hash of the stored payload.
abbrev pub IsIntact : (Json → String) → EventRecord → Type 0
IsIntact digest r = r.payload_hash ≡ some (digest r.payload)

module _ (digest : Json → String) where
  is_ok-check_record :
      (r : EventRecord) → (is_ok (check_record digest r) ≡ true) ↔ IsIntact digest r
  unfolding check_record status_of
  is_ok-check_record r = elim (Option-cases r.payload_hash) [
    | inl missing ↦ ground (arith, missing)
    | inr (h, stored) ↦ ground (arith, stored, eq_iff h (digest r.payload))
  ]

  every_check :
      (records : List EventRecord)
      → (count is_ok (map (check_record digest) records)
          ≡ length (map (check_record digest) records))
        ↔ All (IsIntact digest) records
  every_check [] = (λ h. tt, λ h. refl)
  every_check (r ∷ records) =
      let most = count-le-length is_ok (map (check_record digest) records) in
      let (to, from) = every_check records in
      let (good, back) = is_ok-check_record r in
      (
        λ h. (good (ground (arith, most)), to (ground (arith, most))),
        λ h. let here = back h.0 in let there = from h.1 in ground arith,
      )

  -- A report is clean exactly when every record that it was given has the hash of its payload; what
  -- passed and what failed add up to what was checked.
  pub verify_tenant_integrity-clean :
      (records : List EventRecord)
      → ((is_clean (verify_tenant_integrity digest records) ≡ true) ↔ All (IsIntact digest) records)
        × (let report = verify_tenant_integrity digest records in
            report.passed + report.failed ≡ report.total_checked)
  unfolding verify_tenant_integrity
  verify_tenant_integrity-clean records =
      let most = count-le-length is_ok (map (check_record digest) records) in
      let (to, from) = every_check records in
      ((λ h. to (ground (arith, most)), λ h. let whole = from h in ground arith), ground arith)

take_whole : {A : Type 0} (n : ℕ) (xs : List A) → length xs ≤ n → take n xs ≡ xs
take_whole zero [] h = refl
take_whole zero (x ∷ xs) h = absurd (omega arith)
take_whole (suc n) [] h = refl
take_whole (suc n) (x ∷ xs) h = ap (λ l. x ∷ l) (take_whole n xs (omega arith))

-- With a limit of at least the number of a tenant's rows, `verify_integrity` is clean exactly when
-- each of the tenant's rows has the hash of its payload.
pub verify_integrity-clean :
    (sql : Sql) (digest : Json → String) (tenant : String) (limit : ℕ) (rows : List EventRecord)
    → count (λ e. e.tenant_id == tenant) rows ≤ limit
    → (is_clean (verify_integrity sql digest tenant limit rows) ≡ true)
      ↔ All (IsIntact digest) (filter (λ e. e.tenant_id == tenant) rows)
unfolding verify_integrity
verify_integrity-clean sql digest tenant limit rows h =
    let chosen = sql.select EventRecord (λ e. e.tenant_id == tenant) rows in
    let sorted = sql.order_asc EventRecord (λ e. e.timestamp) chosen in
    let found = sql.select_perm EventRecord (λ e. e.tenant_id == tenant) rows in
    let moved = sql.order_asc_perm EventRecord (λ e. e.timestamp) chosen in
    let same_rows : Permᴰ sorted (filter (λ e. e.tenant_id == tenant) rows) =
      Permᴰ.trans moved found in
    let small : length sorted ≤ limit = omega (
      arith,
      length-perm same_rows,
      length-filter (λ (e : EventRecord). e.tenant_id == tenant) rows,
    ) in
    let (clean, sound) = (verify_tenant_integrity-clean digest (take limit sorted)).0 in
    let same = take_whole limit sorted small in
    let (to, from) = All-perm (IsIntact digest) same_rows in
    (λ c. to (rw same at (clean c)), λ a. sound (rw same (from a)))

-- The event has no hash, an empty one, or the hash of its payload.
abbrev pub IsHonest : (Json → String) → CanonicalEvent → Type 0
IsHonest digest event =
    (event.payload_hash ≡ none)
    ⊎ ((event.payload_hash ≡ some "") ⊎ (event.payload_hash ≡ some (digest event.payload)))

hash_or_intact :
    (digest : Json → String) (payload : Json) (given : Option String)
    → (hash_or digest payload given ≡ digest payload)
      ↔ ((given ≡ none) ⊎ ((given ≡ some "") ⊎ (given ≡ some (digest payload))))
hash_or_intact digest payload none = (λ h. inl refl, λ h. refl)
hash_or_intact digest payload (some String.[]) = (λ h. inr (inl refl), λ h. refl)
hash_or_intact digest payload (some (String.◌∷◌ c h)) =
    (λ e. inr (inr (ap some e)), λ e. elim e [ inl a ↦ cc | inr (inl a) ↦ cc | inr (inr a) ↦ cc ])

from_canonical-IsIntact :
    (digest : Json → String) (id : ℕ) (event : CanonicalEvent)
    → IsIntact digest (from_canonical digest id event) ↔ IsHonest digest event
unfolding from_canonical
from_canonical-IsIntact digest id event =
    let (to, from) = hash_or_intact digest event.payload event.payload_hash in
    (λ h. to (cc), λ h. ap some (from h))

filter_own :
    (digest : Json → String) (id : ℕ) (event : CanonicalEvent) (rows : List EventRecord)
    → filter (λ e. e.tenant_id == event.tenant_id) (from_canonical digest id event ∷ rows)
      ≡ from_canonical digest id event ∷ filter (λ e. e.tenant_id == event.tenant_id) rows
unfolding from_canonical
filter_own digest id event rows = rw ((eq_iff event.tenant_id event.tenant_id).1 refl) refl

-- With a limit of at least the number of the tenant's rows, once the row that is made of an event is
-- stored, `verify_integrity` of its tenant is clean exactly when the event had no hash, an empty one or
-- that of its payload, and each older row of the tenant has the hash of its payload: an event that
-- brings a wrong hash is found.
pub verify_integrity-from_canonical :
    (sql : Sql) (digest : Json → String) (id : ℕ) (event : CanonicalEvent) (limit : ℕ)
    (rows : List EventRecord)
    → count (λ e. e.tenant_id == event.tenant_id) (from_canonical digest id event ∷ rows) ≤ limit
    → (is_clean (
          verify_integrity sql digest event.tenant_id limit (from_canonical digest id event ∷ rows))
        ≡ true)
      ↔ (IsHonest digest event
          × All (IsIntact digest) (filter (λ e. e.tenant_id == event.tenant_id) rows))
verify_integrity-from_canonical sql digest id event limit rows h =
    let row = from_canonical digest id event in
    let (to, from) = verify_integrity-clean sql digest event.tenant_id limit (row ∷ rows) h in
    let own = filter_own digest id event rows in
    let (honest, intact) = from_canonical-IsIntact digest id event in
    (λ c. let all = rw own at (to c) in (honest all.0, all.1), λ a. from (rw own (intact a.0, a.1)))
