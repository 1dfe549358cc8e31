-- ===== src/Events.antt =====
-- common/schemas/events.py and common/models/event.py: the canonical event and the row that holds it.
use dox.Prelude.{ℕ, Bool, String, Option, none, some, ◌||◌, ◌==◌, ℕ_eq}
use dox.Enums.{EventType, Environment, event_type_str, environment_str}
use dox.Json.{Json}

-- The fields that the services read or store. The payload's hash is `none` where the SDK left it out.
pub record CanonicalEvent : Type 0 where
  pub event_id : ℕ
  pub schema_version : String
  pub trace_id : ℕ
  pub session_id : String
  pub tenant_id : String
  pub agent_id : String
  pub agent_version : String
  pub event_type : EventType
  pub environment : Environment
  pub timestamp : ℕ
  pub client_timestamp : ℕ
  pub payload : Json
  pub payload_hash : Option String

-- `raw_event` is the dump of the event.
pub record EventRecord : Type 0 where
  pub id : ℕ
  pub event_id : ℕ
  pub trace_id : ℕ
  pub session_id : String
  pub tenant_id : String
  pub agent_id : String
  pub agent_version : String
  pub event_type : String
  pub environment : String
  pub timestamp : ℕ
  pub client_timestamp : ℕ
  pub schema_version : String
  pub payload : Json
  pub raw_event : CanonicalEvent
  pub payload_hash : Option String

-- The primary key, and `unique=True` of `event_id`.
abbrev pub clash : EventRecord → EventRecord → Bool
clash r s = s.id == r.id || s.event_id == r.event_id

-- `event.payload_hash or compute_payload_hash(event.payload)`: an empty string counts as none.
-- `digest` is SHA-256 of the payload's canonical dump.
abbrev pub hash_or : (Json → String) → Json → Option String → String
hash_or digest payload none = digest payload
hash_or digest payload (some String.[]) = digest payload
hash_or digest payload (some h) = h

unfoldable pub from_canonical : (Json → String) → ℕ → CanonicalEvent → EventRecord
unfolding event_type_str environment_str
from_canonical digest id event = record {
  id = id;
  event_id = event.event_id;
  trace_id = event.trace_id;
  session_id = event.session_id;
  tenant_id = event.tenant_id;
  agent_id = event.agent_id;
  agent_version = event.agent_version;
  event_type = event_type_str event.event_type;
  environment = environment_str event.environment;
  timestamp = event.timestamp;
  client_timestamp = event.client_timestamp;
  schema_version = event.schema_version;
  payload = event.payload;
  raw_event = event;
  payload_hash = some (hash_or digest event.payload event.payload_hash);
}
