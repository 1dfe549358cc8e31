-- ===== src/Ingestion.antt =====
-- services/ingestion/service.py: an event is charged to its tenant's quota, stored, published,
-- counted and judged. Each `commit` of a helper stands even if a later step raises.
pub mod Batch
pub mod Single
mod Tests
use dox.Prelude.{
  pos, ℕ, ◌+◌, Bool, true, false, String, List, [], ◌∷◌, length, map, any, ◌||◌, if◌then◌else◌,
}
use dox.Result.{Result, ok, err, Exec, ◌>>=◌, ◌>>◌, pure, raise, integrity_error}
use dox.Events.{CanonicalEvent, EventRecord, clash, from_canonical}
use dox.Events
use dox.Json.{Json}
use dox.Sql.{Sql, insert, add}
use dox.Quota
use dox.Quota.{TenantQuota, Env}
use dox.Sentinel.{SentinelAlert, SentinelAlertCreate, create_alert, evaluate_event}
use dox.Adapters.{EventBus, Counters, increment}

-- The tables that the service and its helpers write, the bus and the counters.
pub record World (Bus : Type 0) : Type 0 where
  pub quotas : List TenantQuota
  pub events : List EventRecord
  pub alerts : List SentinelAlert
  pub bus : Bus
  pub counters : Counters

-- What is drawn for one event: for its quota call, its row and its alert.
pub record Draw : Type 0 where
  pub quota : Env
  pub record_id : ℕ
  pub alert_id : ℕ
  pub created_at : ℕ

-- The service as it was constructed: without the sentinel or the quota service, or with them.
pub record Parts : Type 1 where
  pub sql : Sql
  pub bus : EventBus
  pub digest : Json → String
  pub has_sentinel : Bool
  pub has_quota : Bool

abbrev pub ingested_topic : String
ingested_topic = "dox.events.ingested"

-- `session.add` of each record and one `commit`: a clash undoes them all.
unfoldable pub insert_all : List EventRecord → List EventRecord → Result (List EventRecord)
unfolding insert
insert_all [] rows = ok rows
insert_all (r ∷ records) rows = elim (insert clash r rows) [
  | ok rows' ↦ insert_all records rows'
  | err e ↦ err e
]

-- The loop over the alerts that an event triggers.
unfoldable pub create_all : Draw → List SentinelAlertCreate → Exec (List SentinelAlert) (Unit {0})
create_all draw [] alerts = (ok tt, alerts)
create_all draw (c ∷ creates) alerts =
    let (r, alerts') = create_alert draw.alert_id draw.created_at c alerts in
    let rest = create_all draw creates alerts' in elim r [ ok a ↦ rest | err e ↦ (err e, alerts') ]

module _ (parts : Parts) where
  abbrev pub State : Type 0
  State = World parts.bus.State

  -- What `_check_quota` does to the quotas; nothing, without a quota service.
  unfoldable pub charge_quota : Env → String → Exec (List TenantQuota) (Unit {0})
  charge_quota env tenant quotas =
      if parts.has_quota
      then Quota.check_and_increment parts.sql env tenant quotas
      else (ok tt, quotas)

  abbrev pub check_quota : Env → String → Exec State (Unit {0})
  check_quota env tenant w =
      let (r, quotas) = charge_quota env tenant w.quotas in (r, record w { quotas = quotas })

  unfoldable pub commit_events : List EventRecord → Exec (List EventRecord) (Unit {0})
  unfolding insert_all
  commit_events records rows = elim (insert_all records rows) [
    | ok rows' ↦ (ok tt, rows')
    | err e ↦ (err e, rows)
  ]

  abbrev pub store : List EventRecord → Exec State (Unit {0})
  store records w =
      let (r, rows) = commit_events records w.events in (r, record w { events = rows })

  abbrev pub publish : CanonicalEvent → Exec State (Unit {0})
  publish event w =
      let (r, bus) = parts.bus.publish ingested_topic event w.bus in (r, record w { bus = bus })

  abbrev pub count : String → ℕ → Exec State (Unit {0})
  count name value w = (ok tt, record w { counters = increment name (pos value) w.counters })

  -- What `_run_sentinel` does to the alerts; nothing, without a sentinel service.
  unfoldable pub judge : Draw → CanonicalEvent → Exec (List SentinelAlert) (Unit {0})
  judge draw event alerts =
      if parts.has_sentinel then create_all draw (evaluate_event event) alerts else (ok tt, alerts)

  abbrev pub run_sentinel : Draw → CanonicalEvent → Exec State (Unit {0})
  run_sentinel draw event w =
      let (r, alerts) = judge draw event w.alerts in (r, record w { alerts = alerts })

  abbrev pub record_of : Draw × CanonicalEvent → EventRecord
  record_of (draw, event) = from_canonical parts.digest draw.record_id event

  unfoldable pub ingest : Draw → CanonicalEvent → Exec State EventRecord
  ingest draw event = do
    check_quota draw.quota event.tenant_id
    store (record_of (draw, event) ∷ [])
    publish event
    count "events.ingested" 1
    run_sentinel draw event
    pure (record_of (draw, event))

  -- The loops of `ingest_batch`, over the quotas, the bus and the alerts.
  unfoldable pub charge_all : List (Draw × CanonicalEvent) → Exec (List TenantQuota) (Unit {0})
  charge_all [] quotas = (ok tt, quotas)
  charge_all ((draw, event) ∷ batch) quotas =
      let (r, quotas') = charge_quota draw.quota event.tenant_id quotas in
      let rest = charge_all batch quotas' in elim r [ ok u ↦ rest | err e ↦ (err e, quotas') ]

  unfoldable pub publish_all : List (Draw × CanonicalEvent) → Exec parts.bus.State (Unit {0})
  publish_all [] bus = (ok tt, bus)
  publish_all ((draw, event) ∷ batch) bus =
      let (r, bus') = parts.bus.publish ingested_topic event bus in
      let rest = publish_all batch bus' in elim r [ ok u ↦ rest | err e ↦ (err e, bus') ]

  unfoldable pub judge_all : List (Draw × CanonicalEvent) → Exec (List SentinelAlert) (Unit {0})
  judge_all [] alerts = (ok tt, alerts)
  judge_all ((draw, event) ∷ batch) alerts =
      let (r, alerts') = judge draw event alerts in
      let rest = judge_all batch alerts' in elim r [ ok u ↦ rest | err e ↦ (err e, alerts') ]

  abbrev pub check_batch : List (Draw × CanonicalEvent) → Exec State (Unit {0})
  check_batch batch w =
      let (r, quotas) = charge_all batch w.quotas in (r, record w { quotas = quotas })

  abbrev pub publish_batch : List (Draw × CanonicalEvent) → Exec State (Unit {0})
  publish_batch batch w = let (r, bus) = publish_all batch w.bus in (r, record w { bus = bus })

  abbrev pub judge_batch : List (Draw × CanonicalEvent) → Exec State (Unit {0})
  judge_batch batch w =
      let (r, alerts) = judge_all batch w.alerts in (r, record w { alerts = alerts })

  unfoldable pub ingest_batch : List (Draw × CanonicalEvent) → Exec State (List EventRecord)
  ingest_batch [] = pure []
  ingest_batch (item ∷ items) = do
    let batch = item ∷ items
    check_batch batch
    store (map record_of batch)
    publish_batch batch
    count "events.ingested_batch" (length batch)
    judge_batch batch
    pure (map record_of batch)
