-- ===== src/Ingestion/Tests.antt =====
-- Runs of the ingestion service over a quota with two events left, and the theorems at them.
use dox.Prelude.{
  ◌+ℤ◌, pos, ℕ, ◌≡◌, refl, true, List, [], ◌∷◌, none, some, any, map, ◌==◌, ℕ_eq, ◌⊎◌, arith, ◌++◌,
}
use dox.Result.{Error, ok, err, integrity_error, Exec}
use dox.Clock.{month_start, day_of_month}
use dox.Enums.{EventType, Environment, event_type_str}
use dox.Json.{null}
use dox.Sql.{fetch, insert, save}
use dox.Sql.Rows.{find}
use dox.Sql.Engine.{list_engine}
use dox.Events.{CanonicalEvent, EventRecord, from_canonical}
use dox.Quota
use dox.Quota.{TenantQuota, Table, Env}
use dox.Quota.Calls.{IsTable, quota_of}
use dox.Quota.Limits.{left_on}
use dox.Sentinel.{evaluate_event, new_alert, create_alert, trigger, alert_for}
use dox.Adapters.{in_memory, increment, publish, update_at}
use dox.Ingestion.{
  Draw, Parts, State, charge_quota, ingest, ingest_batch, record_of, ingested_topic, commit_events,
  insert_all, create_all, judge, charge_all, publish_all, judge_all,
}
use dox.Ingestion.Single.{ingest-effects, ingest_repeated}
use dox.Ingestion.Batch.{push_all, ingest_batch-atomic, ingest_batch-overrun}

program : Unit {0}
unfolding ◌+ℤ◌ fetch insert save find Quota.by_tenant Quota.or_create Quota.get_or_create Quota.add
    Quota.commit Quota.charge Quota.maybe_reset_windows Quota.new_quota Quota.check_and_increment
    month_start day_of_month from_canonical event_type_str evaluate_event new_alert create_alert
    trigger alert_for increment publish update_at charge_quota ingest ingest_batch commit_events
    insert_all create_all judge charge_all publish_all judge_all
program = tt

abbrev acme : TenantQuota
acme = record {
  id = 1;
  tenant_id = "acme";
  subscription_tier = "starter";
  daily_limit = 2;
  monthly_limit = 100;
  events_today = 0;
  events_this_month = 0;
  day_window_start = 0;
  month_window_start = 0;
}

abbrev quotas : Table
quotas = acme ∷ []

abbrev parts : Parts
parts = record {
  sql = list_engine;
  bus = in_memory;
  digest = λ payload. "digest";
  has_sentinel = true;
  has_quota = true;
}

abbrev event : ℕ → CanonicalEvent
event n = record {
  event_id = n;
  schema_version = "1.0";
  trace_id = n;
  session_id = "s";
  tenant_id = "acme";
  agent_id = "bot";
  agent_version = "1";
  event_type = EventType.tool_call_blocked;
  environment = Environment.prod;
  timestamp = 5;
  client_timestamp = 5;
  payload = null;
  payload_hash = none;
}

abbrev draw : ℕ → Draw
draw n = record {
  quota = record { fresh = 9; created = 5; now = 5 };
  record_id = n;
  alert_id = n;
  created_at = 5;
}

abbrev start : State parts
start = record { quotas = quotas; events = []; alerts = []; bus = []; counters = [] }

abbrev after_one : State parts
after_one = record {
  quotas = record acme { events_today = 1; events_this_month = 1 } ∷ [];
  events = record_of parts (draw 1, event 1) ∷ [];
  alerts = map (new_alert 1 5) (evaluate_event (event 1));
  bus = (ingested_topic, event 1 ∷ []) ∷ [];
  counters = ("events.ingested", pos 1) ∷ [];
}

run_one :
    ingest parts (draw 1) (event 1) start ≡ (ok (record_of parts (draw 1, event 1)), after_one)
unfolding program
run_one = refl

ingest-effects_example :
    (record_of parts (draw 1, event 1) ≡ record_of parts (draw 1, event 1))
    × (charge_quota parts (draw 1).quota "acme" quotas ≡ (ok tt, after_one.quotas))
    × (after_one.events ≡ record_of parts (draw 1, event 1) ∷ [])
    × (publish ingested_topic (event 1) [] ≡ (ok tt, after_one.bus))
    × (after_one.counters ≡ increment "events.ingested" (pos 1) [])
    × (after_one.alerts ≡ map (new_alert 1 5) (evaluate_event (event 1)) ++ [])
ingest-effects_example =
    ingest-effects parts (draw 1) (event 1) start after_one (record_of parts (draw 1, event 1))
      run_one

abbrev spent : Table
spent = record acme { events_today = 2; events_this_month = 2 } ∷ []

refusal :
    charge_quota parts (draw 1).quota "acme" spent
    ≡ (err (Error.quota_exceeded dox.Result.Window.daily), spent)
unfolding program
refusal = refl

charged_again : charge_quota parts (draw 2).quota "acme" after_one.quotas ≡ (ok tt, spent)
unfolding program
charged_again = refl

seen : any (λ (s : EventRecord). s.event_id == 1) after_one.events ≡ true
unfolding program
seen = refl

ingest_repeated_example :
    ingest parts (draw 2) (event 1) after_one
    ≡ (err integrity_error, record after_one { quotas = spent })
ingest_repeated_example =
    ingest_repeated parts (draw 2) (event 1) after_one spent charged_again seen

abbrev three : List (Draw × CanonicalEvent)
three = (draw 1, event 1) ∷ (draw 2, event 2) ∷ (draw 3, event 3) ∷ []

ingest_batch-atomic_example :
    ((ingest_batch parts three start).1.events ≡ push_all (map (record_of parts) three) [])
    ⊎ ((e : Error) × ((ingest_batch parts three start).0 ≡ err e)
        × ((ingest_batch parts three start).1.events ≡ []))
ingest_batch-atomic_example = ingest_batch-atomic parts three start

quotas-IsTable : IsTable quotas
quotas-IsTable = record { ids = (tt, tt); tenants = (tt, tt) }

found : quota_of "acme" quotas ≡ some acme
unfolding find
found = refl

ingest_batch-overrun_example :
    (e : Error) × (after : Table) × (q : TenantQuota) × (ingest_batch parts three start
      ≡ (err e, record start { quotas = after }))
    × (quota_of "acme" after ≡ some q)
    × (left_on 5 q ≡ 0)
unfolding program
ingest_batch-overrun_example =
    ingest_batch-overrun parts "acme" 5 three start acme refl quotas-IsTable found
      ((refl, refl), ((refl, refl), ((refl, refl), tt))) (omega arith)
