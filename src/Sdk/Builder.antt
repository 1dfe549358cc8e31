-- ===== src/Sdk/Builder.antt =====
-- sdk/python/dox_sdk/builder.py: the events of one session. The state is the builder; a method draws
-- the time and two UUIDs. `str` of a UUID is a parameter.

pub mod Sequence
use dox.Prelude.{ℕ, ◌+◌, String, Option, none, some, List, [], ◌∷◌, or_text}
use dox.Result.{Result, Exec}
use dox.Json.{Json, str, num, obj, Fields, field}
use dox.Schema.{Platform, EventFields, canonical_event}

pub record EventBuilder : Type 0 where
  pub tenant_id : String
  pub agent_id : String
  pub agent_version : String
  pub environment : String
  pub session_id : String
  pub trace_id : ℕ
  pub sequence : ℕ

pub record Draw : Type 0 where
  pub now : ℕ
  pub event_id : ℕ
  pub correlation_id : ℕ

-- The methods; the last argument of each is `**payload`, whose keys are not those of the others.
pub data Method : Type 0 where
  agent_started agent_completed : Fields → Method
  agent_failed agent_paused : String → Fields → Method
  tool_call_started tool_call_completed : String → Json → Fields → Method
  tool_call_failed tool_call_blocked : String → String → Fields → Method
  model_called model_response_received : String → ℕ → Fields → Method
  memory_read memory_write_requested memory_write_approved : String → Fields → Method
  memory_write_blocked : String → String → Fields → Method
  custom : String → Json → Method

-- The type and the payload that a method passes to `_build`.
unfoldable pub call : Method → String × Json
call (Method.agent_started payload) = ("agent_started", obj payload)
call (Method.agent_completed payload) = ("agent_completed", obj payload)
call (Method.agent_failed error payload) = ("agent_failed", obj (field "error" (str error) payload))
call (Method.agent_paused reason payload) =
    ("agent_paused", obj (field "reason" (str reason) payload))
call (Method.tool_call_started tool_name inputs payload) =
    ("tool_call_started", obj (field "tool_name" (str tool_name) (field "inputs" inputs payload)))
call (Method.tool_call_completed tool_name output payload) =
    ("tool_call_completed", obj (field "tool_name" (str tool_name) (field "output" output payload)))
call (Method.tool_call_failed tool_name error payload) = (
  "tool_call_failed",
  obj (field "tool_name" (str tool_name) (field "error" (str error) payload)),
)
call (Method.tool_call_blocked tool_name reason payload) = (
  "tool_call_blocked",
  obj (field "tool_name" (str tool_name) (field "reason" (str reason) payload)),
)
call (Method.model_called model prompt_tokens payload) = (
  "model_called",
  obj (field "model" (str model) (field "prompt_tokens" (num prompt_tokens) payload)),
)
call (Method.model_response_received model completion_tokens payload) = (
  "model_response_received",
  obj (field "model" (str model) (field "completion_tokens" (num completion_tokens) payload)),
)
call (Method.memory_read key payload) = ("memory_read", obj (field "key" (str key) payload))
call (Method.memory_write_requested key payload) =
    ("memory_write_requested", obj (field "key" (str key) payload))
call (Method.memory_write_approved key payload) =
    ("memory_write_approved", obj (field "key" (str key) payload))
call (Method.memory_write_blocked key reason payload) =
    ("memory_write_blocked", obj (field "key" (str key) (field "reason" (str reason) payload)))
call (Method.custom event_type payload) = (event_type, payload)

abbrev pub sdk_version : String
sdk_version = "0.1.0"

-- `_next_sequence`, which the call of the constructor evaluates before any check.
abbrev pub advanced : EventBuilder → EventBuilder
advanced b = record b { sequence = b.sequence + 1 }

module _ (str_id : ℕ → String) where
  -- `__init__`; `fresh_session` and `trace_id` are the UUIDs that it draws.
  unfoldable pub new_builder :
      ℕ → ℕ → String → String → String → String → Option String → EventBuilder
  new_builder fresh_session trace_id tenant_id agent_id agent_version environment session_id =
      record {
        tenant_id = tenant_id;
        agent_id = agent_id;
        agent_version = agent_version;
        environment = environment;
        session_id = or_text session_id (str_id fresh_session);
        trace_id = trace_id;
        sequence = 0;
      }

  -- What `_build` gives to the constructor of the event.
  unfoldable pub fields_of : EventBuilder → Draw → String × Json → EventFields
  fields_of b draw (event_type, payload) = record {
    event_id = draw.event_id;
    schema_version = "1.0";
    trace_id = b.trace_id;
    session_id = b.session_id;
    tenant_id = b.tenant_id;
    agent_id = b.agent_id;
    agent_version = b.agent_version;
    agent_fingerprint = none;
    event_type = event_type;
    environment = b.environment;
    timestamp = draw.now;
    client_timestamp = draw.now;
    sequence_number = some (b.sequence + 1);
    correlation_id = str_id draw.correlation_id;
    traceparent = none;
    tracestate = none;
    payload = payload;
    payload_hash = none;
    previous_event_hash = none;
    user_id = none;
    consent_id = none;
    purpose_id = none;
    sdk_version = some sdk_version;
    adapter_id = none;
    tags = [];
  }

  -- `_build`
  unfoldable pub build : Platform → Draw → Method → Exec EventBuilder EventFields
  unfolding call fields_of canonical_event
  build platform draw m b = (canonical_event platform (fields_of b draw (call m)), advanced b)

  -- The results of one call after another.
  unfoldable pub build_all :
      Platform → List (Draw × Method) → EventBuilder → List (Result EventFields) × EventBuilder
  unfolding build
  build_all platform [] b = ([], b)
  build_all platform ((draw, m) ∷ calls) b =
      let one = build platform draw m b in
      let rest = build_all platform calls one.1 in (one.0 ∷ rest.0, rest.1)
