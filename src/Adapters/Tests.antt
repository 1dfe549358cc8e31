-- ===== src/Adapters/Tests.antt =====
-- Runs of the adapters.
use dox.Prelude.{
  pos, negsuc, ◌+ℤ◌, List, true, ◌&&◌, ◌≡◌, refl, [], ◌∷◌, none, ℕ, Bool, false, some, Option, ◌++◌,
  ◌≢◌, Bool-cases, inl, inr, ◌==◌, String_eq, eq_iff, if◌then◌else◌,
}
use dox.Enums.{EventType, Environment}
use dox.Json.{null}
use dox.Events.{CanonicalEvent}
use dox.Result.{ok, Result, err, value_error, key_error}
use dox.Adapters.Registry.{
  Settings, EventBusKind, ObjectStoreKind, SecretStoreKind, MetricsKind, new_registry,
  build_event_bus, build_object_store, build_secret_store, build_metrics,
}
use dox.Adapters.Files
use dox.Adapters.Files.{Location, Disk, is_under, resolve_path, Guards, put-is_under}
use dox.Adapters.Stores
use dox.Adapters.Stores.{Store, put, delete, exists, is_ok, get-put}
use dox.Adapters.Metrics.{
  perform, gauge, histogram, lookup, assign, Metrics, Call, clear, total, last_set, observed,
  perform_all, get_gauge, get_histogram, get_counter-perform_all-clear,
}
use dox.Adapters.{increment, get_counter, value_at, update_at}

abbrev event : CanonicalEvent
event = record {
  event_id = 1;
  schema_version = "1.0";
  trace_id = 1;
  session_id = "s";
  tenant_id = "acme";
  agent_id = "bot";
  agent_version = "1";
  event_type = EventType.tool_call_failed;
  environment = Environment.prod;
  timestamp = 5;
  client_timestamp = 5;
  payload = null;
  payload_hash = none;
}

counted :
    get_counter "events" (increment "events" (pos 2) (increment "events" (negsuc 0) [])) ≡ pos 1
unfolding ◌+ℤ◌ get_counter increment value_at update_at
counted = refl

abbrev settings : Settings
settings = record {
  event_bus = "redis_streams";
  object_store = "in_memory";
  secret_store = "env";
  metrics = "prometheus";
  redis_url = "redis://localhost";
  local_fs_path = "store";
}

made :
    new_registry settings
    ≡ ok (record {
      event_bus = EventBusKind.redis_streams "redis://localhost";
      object_store = ObjectStoreKind.in_memory;
      secret_store = SecretStoreKind.env;
      metrics = MetricsKind.noop;
    })
unfolding new_registry build_event_bus build_object_store build_secret_store build_metrics
made = refl

abbrev store : Store ℕ
store = ("a", 1) ∷ ("b", 2) ∷ []

read_back : Stores.get "b" (put "a" 5 (delete "a" store)) ≡ ok 2
unfolding Stores.get put delete
read_back = refl

-- A disk whose files are a function of the location, and on which only `../secret` leaves the root.
same_names : (p q : Location) → is_under p q ≡ true → is_under q p ≡ true → p ≡ q
unfolding is_under
same_names [] [] h k = refl
same_names [] (n ∷ q) h k = cc
same_names (m ∷ p) [] h k = cc
same_names (m ∷ p) (n ∷ q) h k = elim (Bool-cases (m == n)) [
  | inr other ↦ absurd (cc (rw other at h))
  | inl same ↦ elim (Bool-cases (n == m)) [
    | inr other ↦ absurd (cc (rw other at k))
    | inl back ↦
        let e : m ≡ n = (eq_iff m n).0 same in
        let tail : p ≡ q = same_names p q (rw same at h) (rw back at k) in cc (e, tail)
  ]
]

abbrev written_at : Location → Option ℕ → (Location → Option ℕ) → Location → Option ℕ
written_at p v s q = if is_under p q && is_under q p then v else s q

written_at_frame :
    (p q : Location) (v : Option ℕ) (s : Location → Option ℕ) → p ≢ q → written_at p v s q ≡ s q
written_at_frame p q v s apart = elim (Bool-cases (is_under p q)) [
  | inr other ↦ rw other refl
  | inl there ↦ elim (Bool-cases (is_under q p)) [
    | inr other ↦ rw (there, other) refl
    | inl back ↦ absurd (apart (same_names p q there back))
  ]
]

abbrev or_missing : Option ℕ → Result ℕ
or_missing none = err key_error
or_missing (some v) = ok v

abbrev is_there : Option ℕ → Bool
is_there none = false
is_there (some v) = true

abbrev disk : Disk ℕ
disk = record {
  State = Location → Option ℕ;
  look = λ q s. s q;
  resolve = λ base key. if key == "../secret" then "secret" ∷ [] else base ++ key ∷ [];
  make_parents = λ p s. (ok tt, s);
  write_bytes = λ p v s. (ok tt, written_at p (some v) s);
  unlink = λ p s. (ok tt, written_at p none s);
  read_bytes = λ p s. or_missing (s p);
  path_exists = λ p s. is_there (s p);
  make_parents_frame = λ p q s. refl;
  write_frame = λ p q v s apart. written_at_frame p q (some v) s apart;
  unlink_frame = λ p q s apart. written_at_frame p q none s apart;
}

abbrev root : Location
root = "data" ∷ []

abbrev secrets : Location → Option ℕ
secrets q = if is_under ("secret" ∷ []) q then some 7 else none

escapes : (Files.get disk root "../secret" secrets).0 ≡ err value_error
unfolding Files.get resolve_path is_under
escapes = refl

outside : is_under root ("secret" ∷ []) ≡ false
unfolding is_under
outside = refl

put-is_under_example :
    ((Files.put disk root "a" 5 secrets).1 ("secret" ∷ []) ≡ secrets ("secret" ∷ []))
    × ((Files.delete disk root "a" secrets).1 ("secret" ∷ []) ≡ secrets ("secret" ∷ []))
    × Guards disk root (resolve_path disk root "a") "a" 5 secrets
put-is_under_example = put-is_under disk root "a" ("secret" ∷ []) 5 secrets outside

abbrev metric_calls : List (Call ℕ)
metric_calls =
    Call.count_up "events" (pos 2)
    ∷ Call.set_gauge "load" 5
    ∷ Call.observe "delay" 7
    ∷ Call.count_up "events" (pos 1)
    ∷ Call.set_gauge "load" 4
    ∷ Call.observe "delay" 6
    ∷ []

abbrev used_before : Metrics ℕ
used_before = record {
  counters = ("events", pos 9) ∷ [];
  gauges = ("load", 1) ∷ [];
  histograms = ("delay", 3 ∷ []) ∷ [];
}

measured :
    (total "events" metric_calls ≡ pos 3)
    × (last_set "load" none metric_calls ≡ some 4)
    × (observed "delay" metric_calls ≡ 7 ∷ 6 ∷ [])
unfolding ◌+ℤ◌ total last_set observed
measured = (refl, refl, refl)

get_counter-perform_all-clear_example :
    (get_counter "events" (perform_all metric_calls (clear used_before)).counters
      ≡ total "events" metric_calls)
    × (get_gauge "events" (perform_all metric_calls (clear used_before))
        ≡ last_set "events" none metric_calls)
    × (get_histogram "events" (perform_all metric_calls (clear used_before))
        ≡ observed "events" metric_calls)
get_counter-perform_all-clear_example =
    get_counter-perform_all-clear "events" metric_calls used_before

run_of_metrics :
    let m = perform_all metric_calls (clear used_before) in
    (get_counter "events" m.counters ≡ pos 3)
    × (get_gauge "load" m ≡ some 4)
    × (get_histogram "delay" m ≡ 7 ∷ 6 ∷ [])
unfolding ◌+ℤ◌ perform_all perform clear gauge histogram get_gauge get_histogram lookup assign
    increment get_counter value_at update_at
run_of_metrics = (refl, refl, refl)
