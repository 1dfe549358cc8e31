-- ===== src/Ingestion/Batch.antt =====
-- services/ingestion/service.py: what `ingest_batch` stores and what it charges, also when it raises.
use dox.Prelude.{
  ℕ, ◌-◌, ◌<◌, ◌≡◌, refl, ◌∙◌, true, String, List, [], ◌∷◌, map, arith, inl, inr, ◌⊎◌, length, All,
  leb, any, suc, some, Bool-cases,
}
use dox.Result.{Result, ok, err, Error, integrity_error, Result-cases}
use dox.Clock.{date}
use dox.Events.{CanonicalEvent, EventRecord, clash}
use dox.Sql.{insert}
use dox.Quota
use dox.Quota.{TenantQuota, Table}
use dox.Quota.Calls.{IsTable, quota_of}
use dox.Quota.Limits.{is_ok, left_on, Charged, exhausted, spent, check_and_increment-Charged}
use dox.Ingestion.{
  Draw, Parts, State, charge_quota, charge_all, commit_events, insert_all, record_of, ingest_batch,
}

-- The records go in one after the other.
abbrev pub push_all : List EventRecord → List EventRecord → List EventRecord
push_all [] rows = rows
push_all (r ∷ records) rows = push_all records (r ∷ rows)

insert_all-push_all :
    (records rows rows' : List EventRecord)
    → insert_all records rows ≡ ok rows'
    → rows' ≡ push_all records rows
unfolding insert_all insert
insert_all-push_all [] rows rows' h = ground arith
insert_all-push_all (r ∷ records) rows rows' h =
    ground (arith, insert_all-push_all records (r ∷ rows) rows')

insert_all-cases :
    (records rows : List EventRecord)
    → (insert_all records rows ≡ err integrity_error)
      ⊎ (insert_all records rows ≡ ok (push_all records rows))
unfolding insert_all insert
insert_all-cases [] rows = inr refl
insert_all-cases (r ∷ records) rows = elim (Bool-cases (any (clash r) rows)) [
  | inl taken ↦ inl (ground arith)
  | inr free ↦ elim (insert_all-cases records (r ∷ rows)) [
    | inl later ↦ inl (ground arith)
    | inr done ↦ inr (ground arith)
  ]
]

commit_events-cases :
    (parts : Parts) (records rows : List EventRecord)
    → (commit_events parts records rows ≡ (err integrity_error, rows))
      ⊎ (commit_events parts records rows ≡ (ok tt, push_all records rows))
commit_events-cases parts records rows = elim (insert_all-cases records rows) [
  | inl e ↦ inl (unfold commit_events in ground arith)
  | inr e ↦ inr (unfold commit_events in ground arith)
]

module _ (parts : Parts) where
  -- A batch that returns is stored whole. One that raises is stored whole, where a later step
  -- raised, or not at all.
  pub ingest_batch-atomic :
      (batch : List (Draw × CanonicalEvent)) (w : State parts)
      → ((ingest_batch parts batch w).1.events ≡ push_all (map (record_of parts) batch) w.events)
        ⊎ ((e : Error) × ((ingest_batch parts batch w).0 ≡ err e)
            × ((ingest_batch parts batch w).1.events ≡ w.events))
  unfolding ingest_batch
  ingest_batch-atomic [] w = inl refl
  ingest_batch-atomic (item ∷ items) w =
      elim (Result-cases (charge_all parts (item ∷ items) w.quotas).0) [
        | inr (e, over) ↦ inr (e, ground arith, ground arith)
        | inl (u, under) ↦
            elim (commit_events-cases parts (map (record_of parts) (item ∷ items)) w.events) [
              | inl clashes ↦ inr (integrity_error, ground arith, ground arith)
              | inr stored ↦ inl (ground arith)
            ]
      ]

  -- Every event of a batch is one tenant's, and is charged on the date of `t`.
  abbrev pub OneDay : String → ℕ → List (Draw × CanonicalEvent) → Type 0
  OneDay tenant t = All (λ item. (item.1.tenant_id ≡ tenant) × (date item.0.quota.now ≡ date t))

  charge_quota-on :
      (draw : Draw) (tenant : String) (event : CanonicalEvent) (rows : Table)
      → parts.has_quota ≡ true
      → event.tenant_id ≡ tenant
      → charge_quota parts draw.quota event.tenant_id rows
        ≡ Quota.check_and_increment parts.sql draw.quota tenant rows
  unfolding charge_quota
  charge_quota-on draw tenant event rows on e = simp (on, e)

  charge_all-cons_err :
      (draw : Draw) (event : CanonicalEvent) (batch : List (Draw × CanonicalEvent))
      (rows rows' : Table) {e : Error}
      → charge_quota parts draw.quota event.tenant_id rows ≡ (err e, rows')
      → charge_all parts ((draw, event) ∷ batch) rows ≡ (err e, rows')
  unfolding charge_all
  charge_all-cons_err draw event batch rows rows' h = ground arith

  charge_all-cons_ok :
      (draw : Draw) (event : CanonicalEvent) (batch : List (Draw × CanonicalEvent))
      (rows rows' : Table)
      → charge_quota parts draw.quota event.tenant_id rows ≡ (ok tt, rows')
      → charge_all parts ((draw, event) ∷ batch) rows ≡ charge_all parts batch rows'
  unfolding charge_all
  charge_all-cons_ok draw event batch rows rows' h = ground arith

  -- Charging a batch takes what it needs, or all that is left if that is less, and then raises.
  pub charge_all-left :
      (tenant : String) (t : ℕ) (batch : List (Draw × CanonicalEvent)) (rows : Table)
      (q : TenantQuota)
      → parts.has_quota ≡ true
      → IsTable rows
      → quota_of tenant rows ≡ some q
      → OneDay tenant t batch
      → (r : Result (Unit {0})) × (rows' : Table) × (q' : TenantQuota) × (charge_all parts batch
            rows
          ≡ (r, rows'))
        × (quota_of tenant rows' ≡ some q')
        × (left_on t q' ≡ left_on t q - length batch)
        × (is_ok r ≡ leb (length batch) (left_on t q))
  charge_all-left tenant t [] rows q on h found same =
      (ok tt, rows, q, unfold charge_all in refl, found, omega arith, ground arith)
  charge_all-left tenant t ((draw, event) ∷ batch) rows q on h found same =
      step (check_and_increment-Charged parts.sql draw.quota tenant t rows q h found same.0.1)
        (λ rows' q' h' found'. charge_all-left tenant t batch rows' q' on h' found' same.1)
    where
      here :
          charge_quota parts draw.quota event.tenant_id rows
          ≡ Quota.check_and_increment parts.sql draw.quota tenant rows
      here = charge_quota-on draw tenant event rows on same.0.0

      step :
          Charged tenant t rows q (Quota.check_and_increment parts.sql draw.quota tenant rows)
          → ((rows' : Table) (q' : TenantQuota)
              → IsTable rows'
              → quota_of tenant rows' ≡ some q'
              → (r : Result (Unit {0})) × (rows'' : Table) × (p : TenantQuota) × (charge_all parts
                    batch rows'
                  ≡ (r, rows''))
                × (quota_of tenant rows'' ≡ some p)
                × (left_on t p ≡ left_on t q' - length batch)
                × (is_ok r ≡ leb (length batch) (left_on t q')))
          → (r : Result (Unit {0})) × (rows' : Table) × (q' : TenantQuota) × (charge_all parts
                ((draw, event) ∷ batch)
                rows
              ≡ (r, rows'))
            × (quota_of tenant rows' ≡ some q')
            × (left_on t q' ≡ left_on t q - suc (length batch))
            × (is_ok r ≡ leb (suc (length batch)) (left_on t q))
      step (exhausted e out empty) ih = (
        err e,
        rows,
        q,
        charge_all-cons_err draw event batch rows rows (here ∙ out),
        found,
        omega arith,
        ground arith,
      )
      step (spent q' rows' out h' found' less) ih =
          let (r, rows'', p, rest, found'', left, fits) = ih rows' q' h' found' in
          (
            r,
            rows'',
            p,
            charge_all-cons_ok draw event batch rows rows' (here ∙ out) ∙ rest,
            found'',
            omega arith,
            ground arith,
          )

  -- With a quota service and a quota table with unique keys: a batch on one date of one tenant
  -- that has a row, larger than what its quota has left, is refused. No event is stored,
  -- published, counted or judged, and the whole remainder is used up.
  pub ingest_batch-overrun :
      (tenant : String) (t : ℕ) (batch : List (Draw × CanonicalEvent)) (w : State parts)
      (q : TenantQuota)
      → parts.has_quota ≡ true
      → IsTable w.quotas
      → quota_of tenant w.quotas ≡ some q
      → OneDay tenant t batch
      → left_on t q < length batch
      → (e : Error) × (quotas : Table) × (q' : TenantQuota) × (ingest_batch parts batch w
          ≡ (err e, record w { quotas = quotas }))
        × (quota_of tenant quotas ≡ some q')
        × (left_on t q' ≡ 0)
  unfolding ingest_batch
  ingest_batch-overrun tenant t [] w q on h found same large = absurd (omega arith)
  ingest_batch-overrun tenant t (item ∷ items) w q on h found same large =
      raised (charge_all-left tenant t (item ∷ items) w.quotas q on h found same)
    where
      raised :
          ((r : Result (Unit {0})) × (rows' : Table) × (q' : TenantQuota) × (charge_all parts
                (item ∷ items)
                w.quotas
              ≡ (r, rows'))
            × (quota_of tenant rows' ≡ some q')
            × (left_on t q' ≡ left_on t q - length (item ∷ items))
            × (is_ok r ≡ leb (length (item ∷ items)) (left_on t q)))
          → (e : Error) × (quotas : Table) × (q' : TenantQuota) × (ingest_batch parts
                (item ∷ items)
                w
              ≡ (err e, record w { quotas = quotas }))
            × (quota_of tenant quotas ≡ some q')
            × (left_on t q' ≡ 0)
      raised (ok u, rows', q', out, found', left, fits) = absurd (ground arith)
      raised (err e, rows', q', out, found', left, fits) =
          (e, rows', q', rw out, found', omega arith)
