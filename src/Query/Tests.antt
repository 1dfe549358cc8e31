-- ===== src/Query/Tests.antt =====
-- Three stored events, one with a wrong hash, and the theorems at them.
use dox.Prelude.{
  ℕ, ◌-◌, ◌≤◌, ◌≡◌, refl, true, false, ◌↔◌, String, List, [], ◌∷◌, none, some, count, filter,
  length, min, All, arith, ◌==◌, String_eq,
}
use dox.Enums.{EventType, Environment, event_type_str, environment_str}
use dox.Json.{Json, null}
use dox.Events.{CanonicalEvent, EventRecord, from_canonical}
use dox.Sorting.{sort, insert_sorted}
use dox.Sql.Engine.{list_engine}
use dox.Query.{
  EventFilter, conditions, list_events, count_events, verify_tenant_integrity, verify_integrity,
  check_record, status_of, is_clean,
}
use dox.Query.Integrity.{
  IsIntact, verify_integrity-clean, IsHonest, verify_integrity-from_canonical,
}
use dox.Query.Pages.{Passes, list_events-count_events}

program : Unit {0}
unfolding event_type_str environment_str from_canonical sort insert_sorted conditions list_events
    count_events verify_tenant_integrity verify_integrity check_record status_of
program = tt

abbrev digest : Json → String
digest payload = "digest"

abbrev canonical : ℕ → CanonicalEvent
canonical n = record {
  event_id = n;
  schema_version = "1.0";
  trace_id = n;
  session_id = "s";
  tenant_id = "acme";
  agent_id = "bot";
  agent_version = "1";
  event_type = EventType.tool_call_failed;
  environment = Environment.prod;
  timestamp = n;
  client_timestamp = n;
  payload = null;
  payload_hash = none;
}

abbrev stored : ℕ → EventRecord
stored n = from_canonical digest n (canonical n)

abbrev rows : List EventRecord
rows = stored 1 ∷ record (stored 2) { payload_hash = some "forged" } ∷ stored 3 ∷ []

abbrev filters : EventFilter
filters = record {
  tenant_id = "acme";
  agent_id = none;
  event_type = some EventType.tool_call_failed;
  environment = none;
  session_id = none;
  from_ts = none;
  to_ts = some 2;
  limit = 1;
  offset = 0;
}

forged : is_clean (verify_integrity list_engine digest "acme" 10 rows) ≡ false
unfolding program
forged = refl

few : count (λ (e : EventRecord). e.tenant_id == "acme") rows ≤ 10
unfolding program
few = omega arith

verify_integrity-clean_example :
    (is_clean (verify_integrity list_engine digest "acme" 10 rows) ≡ true)
    ↔ All (IsIntact digest) (filter (λ e. e.tenant_id == "acme") rows)
verify_integrity-clean_example = verify_integrity-clean list_engine digest "acme" 10 rows few

-- An event with a forged hash is found.
abbrev forged_event : CanonicalEvent
forged_event = record (canonical 4) { payload_hash = some "forged" }

verify_integrity-from_canonical_example :
    (is_clean (
        verify_integrity list_engine digest "acme" 10
          (from_canonical digest 4 forged_event ∷ stored 1 ∷ []))
      ≡ true)
    ↔ (IsHonest digest forged_event
        × All (IsIntact digest) (filter (λ e. e.tenant_id == "acme") (stored 1 ∷ [])))
unfolding program
verify_integrity-from_canonical_example =
    verify_integrity-from_canonical list_engine digest 4 forged_event 10 (stored 1 ∷ [])
      (omega arith)

list_events-count_events_example :
    ((e : EventRecord) → (conditions filters e ≡ true) ↔ Passes filters e)
    × All (Passes filters) (list_events list_engine filters rows)
    × (length (list_events list_engine filters rows)
        ≡ min 1 (count_events list_engine filters rows - 0))
    × (count_events list_engine filters rows ≡ count (conditions filters) rows)
list_events-count_events_example = list_events-count_events list_engine filters rows
