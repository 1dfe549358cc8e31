-- ===== src/Ingestion/Single.antt =====
-- services/ingestion/service.py: what `ingest` leaves behind when it returns and when it raises.

use dox.Prelude.{
  pos, true, any, any-or, ◌==◌, ◌≡◌, List, [], ◌∷◌, ◌++◌, map, arith, if◌then◌else◌, inl, inr, ℕ_eq,
  Option-cases,
}
use dox.Result.{Error, integrity_error, err, ok}
use dox.Events.{from_canonical, CanonicalEvent, EventRecord}
use dox.Quota.{TenantQuota}
use dox.Sql.{insert}
use dox.Sentinel.{SentinelAlert, new_alert, create_alert, evaluate_event, trigger}
use dox.Adapters.{increment}
use dox.Ingestion.{
  Draw, Parts, State, create_all, charge_quota, commit_events, judge, record_of, ingest, insert_all,
  ingested_topic,
}

push_all-cons :
    (r : EventRecord) (rows rows' : List EventRecord)
    → insert_all (r ∷ []) rows ≡ ok rows'
    → rows' ≡ r ∷ rows
unfolding insert_all insert
push_all-cons r rows rows' h = ground arith

create_all-evaluate_event :
    (draw : Draw) (event : CanonicalEvent) (alerts alerts' : List SentinelAlert)
    → create_all draw (evaluate_event event) alerts ≡ (ok tt, alerts')
    → alerts' ≡ map (new_alert draw.alert_id draw.created_at) (evaluate_event event) ++ alerts
unfolding create_all create_alert insert evaluate_event
create_all-evaluate_event draw event alerts alerts' h =
    elim (Option-cases (trigger event.event_type)) [
      | inl quiet ↦ ground arith
      | inr (t, fires) ↦ ground arith
    ]

-- The alerts of an event are stored, or there is no sentinel service.
judge-alerts :
    (parts : Parts) (draw : Draw) (event : CanonicalEvent) (alerts alerts' : List SentinelAlert)
    → judge parts draw event alerts ≡ (ok tt, alerts')
    → alerts' ≡ (
        if parts.has_sentinel
        then map (new_alert draw.alert_id draw.created_at) (evaluate_event event) ++ alerts
        else alerts)
unfolding judge
judge-alerts parts draw event alerts alerts' h =
    ground (arith, create_all-evaluate_event draw event alerts alerts')

module _ (parts : Parts) where
  -- An event that comes back was let through by the quota, is the newest row, was published and
  -- counted once, and each alert that it triggers was stored.
  pub ingest-effects :
      (draw : Draw) (event : CanonicalEvent) (w w' : State parts) (r : EventRecord)
      → ingest parts draw event w ≡ (ok r, w')
      → (r ≡ record_of parts (draw, event))
        × (charge_quota parts draw.quota event.tenant_id w.quotas ≡ (ok tt, w'.quotas))
        × (w'.events ≡ r ∷ w.events)
        × (parts.bus.publish ingested_topic event w.bus ≡ (ok tt, w'.bus))
        × (w'.counters ≡ increment "events.ingested" (pos 1) w.counters)
        × (w'.alerts ≡ (
            if parts.has_sentinel
            then map (new_alert draw.alert_id draw.created_at) (evaluate_event event) ++ w.alerts
            else w.alerts))
  unfolding ingest commit_events
  ingest-effects draw event w w' r h = ground (
    arith,
    push_all-cons (record_of parts (draw, event)) w.events w'.events,
    judge-alerts parts draw event w.alerts w'.alerts,
  )

  commit_events-clash :
      (r : EventRecord) (rows : List EventRecord)
      → any (λ s. s.event_id == r.event_id) rows ≡ true
      → commit_events parts (r ∷ []) rows ≡ (err integrity_error, rows)
  unfolding commit_events insert_all insert
  commit_events-clash r rows h =
      ground
        (arith, any-or (λ (s : EventRecord). s.id == r.id) (λ s. s.event_id == r.event_id) rows)

  -- An event that the quota refuses raises, and is not stored, published, counted or judged.
  pub ingest_refused :
      (draw : Draw) (event : CanonicalEvent) (w : State parts) (quotas : List TenantQuota)
      (e : Error)
      → charge_quota parts draw.quota event.tenant_id w.quotas ≡ (err e, quotas)
      → ingest parts draw event w ≡ (err e, record w { quotas = quotas })
  unfolding ingest
  ingest_refused draw event w quotas e h = rw h

  -- An event that the quota lets through and whose identifier is stored already raises, and is not
  -- stored, published, counted or judged; what the quota call committed stays.
  pub ingest_repeated :
      (draw : Draw) (event : CanonicalEvent) (w : State parts) (quotas : List TenantQuota)
      → charge_quota parts draw.quota event.tenant_id w.quotas ≡ (ok tt, quotas)
      → any (λ s. s.event_id == event.event_id) w.events ≡ true
      → ingest parts draw event w ≡ (err integrity_error, record w { quotas = quotas })
  unfolding ingest
  ingest_repeated draw event w quotas h seen =
      let r : EventRecord = record_of parts (draw, event) in
      let there : any (λ s. s.event_id == r.event_id) w.events ≡ true =
        unfold from_canonical in seen in
      rw (h, commit_events-clash r w.events there)
