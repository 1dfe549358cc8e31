-- ===== src/Sdk/Builder/Sequence.antt =====
-- sdk/python/dox_sdk/builder.py: the events of one builder are valid, and numbered one after another.
use Prim.Native.String.{count as characters}
use dox.Prelude.{
  ℕ, zero, suc, ◌+◌, ◌≡◌, refl, ◌∙◌, ap, true, String, Option, some, List, [], ◌∷◌, map, length,
  All, arith, leb,
}
use dox.Result.{Result, ok}
use dox.Schema.{
  Platform, EventFields, five_minutes, canonical_event, stripped, check_fields,
  check_timestamp_ordering, fits, is_visible, is_event_type, is_environment,
  validate_schema_version, is_schema_version, some_digits, digits, literal, at_end,
  validate_traceparent, validate_sha256_hash, check_tags,
}
use dox.Sdk.Builder.{EventBuilder, Draw, Method, call, advanced, fields_of, build, build_all}

-- The type of a named method is always known; that of `custom` is the caller's.
abbrev pub IsKnown : Method → Type 0
IsKnown (Method.custom event_type payload) = is_event_type event_type ≡ true
IsKnown _ = Unit

named : (m : Method) → IsKnown m → is_event_type (call m).0 ≡ true
unfolding call is_event_type
named (Method.agent_started payload) h = refl
named (Method.agent_completed payload) h = refl
named (Method.agent_failed error payload) h = refl
named (Method.agent_paused reason payload) h = refl
named (Method.tool_call_started tool_name inputs payload) h = refl
named (Method.tool_call_completed tool_name output payload) h = refl
named (Method.tool_call_failed tool_name error payload) h = refl
named (Method.tool_call_blocked tool_name reason payload) h = refl
named (Method.model_called model prompt_tokens payload) h = refl
named (Method.model_response_received model completion_tokens payload) h = refl
named (Method.memory_read key payload) h = refl
named (Method.memory_write_requested key payload) h = refl
named (Method.memory_write_approved key payload) h = refl
named (Method.memory_write_blocked key reason payload) h = refl
named (Method.custom event_type payload) h = h

-- What the schema asks of the texts that a builder is made of.
pub record IsReady (platform : Platform) (b : EventBuilder) : Type 0 where
  pub session : fits 1 255 (platform.strip b.session_id) ≡ true
  pub tenant : fits 1 255 (platform.strip b.tenant_id) ≡ true
  pub agent : fits 1 255 (platform.strip b.agent_id) ≡ true
  pub version : fits 1 100 (platform.strip b.agent_version) ≡ true
  pub environment : is_environment b.environment ≡ true

-- Sequence numbers from one on.
abbrev pub numbers : ℕ → ℕ → List (Option ℕ)
numbers first zero = []
numbers first (suc n) = some first ∷ numbers (first + 1) n

version_ok : (platform : Platform) → is_schema_version platform "1.0" ≡ true
unfolding is_schema_version some_digits digits literal at_end
version_ok platform =
    rw
      (
        platform.is_digit_ascii "1" (omega arith),
        platform.is_digit_ascii "." (omega arith),
        platform.is_digit_ascii "0" (omega arith),
      )
      refl

module _ (platform : Platform) (str_id : ℕ → String)
    (id_visible : (n : ℕ) → is_visible (str_id n) ≡ true)
    (id_length : (n : ℕ) → characters (str_id n) ≡ 36) where
  build-ok :
      (b : EventBuilder) (draw : Draw) (m : Method)
      → IsReady platform b
      → IsKnown m
      → build str_id platform draw m b
        ≡ (ok (stripped platform (fields_of str_id b draw (call m))), advanced b)
  unfolding build canonical_event stripped fields_of check_fields validate_schema_version
      validate_traceparent validate_sha256_hash check_tags check_timestamp_ordering
  build-ok b draw m h k =
      let version : platform.strip "1.0" ≡ "1.0" = platform.strip_visible "1.0" refl in
      let sdk : platform.strip "0.1.0" ≡ "0.1.0" = platform.strip_visible "0.1.0" refl in
      let id : platform.strip (str_id draw.correlation_id) ≡ str_id draw.correlation_id =
        platform.strip_visible (str_id draw.correlation_id) (id_visible draw.correlation_id) in
      let soon : leb draw.now (draw.now + five_minutes) ≡ true = ground arith in
      rw
        (
          soon,
          version,
          sdk,
          id,
          id_length draw.correlation_id,
          version_ok platform,
          h.session,
          h.tenant,
          h.agent,
          h.version,
          h.environment,
          named m k,
        )
        refl

  -- The events of a list of results, numbered from one on, all of one trace and one session.
  abbrev pub Numbered : EventBuilder → ℕ → List (Result EventFields) → Type 0
  Numbered b n results =
      (events : List EventFields) × (results ≡ map ok events)
      × (map (λ e. e.sequence_number) events ≡ numbers (b.sequence + 1) n)
      × All
          (λ e.
            (e.trace_id ≡ b.trace_id)
            × (e.session_id ≡ platform.strip b.session_id)
            × (e.tenant_id ≡ platform.strip b.tenant_id)
            × (e.agent_id ≡ platform.strip b.agent_id))
          events

  -- Where the texts of a builder are within the schema's bounds and its environment is known, and every
  -- custom event has a known type, no method raises: each call builds a valid event, the events have
  -- the sequence numbers that follow the builder's, one after another, and share its trace, session,
  -- tenant and agent; the builder's number grows by the number of calls.
  pub build_all-Numbered :
      (calls : List (Draw × Method)) (b : EventBuilder)
      → IsReady platform b
      → All (λ c. IsKnown c.1) calls
      → let done = build_all str_id platform calls b in
        Numbered b (length calls) done.0
        × (done.1 ≡ record b { sequence = b.sequence + length calls })
  unfolding build_all
  build_all-Numbered [] b h k =
      let e : b.sequence + 0 ≡ b.sequence = omega arith in (([], refl, refl, tt), rw e refl)
  build_all-Numbered ((draw, m) ∷ calls) b h k =
      let ready : IsReady platform (advanced b) = record {
        session = h.session;
        tenant = h.tenant;
        agent = h.agent;
        version = h.version;
        environment = h.environment;
      } in
      let ((events, same, order, shared), last) = build_all-Numbered calls (advanced b) ready k.1 in
      let one = build-ok b draw m h k.0 in
      let more : (b.sequence + 1) + length calls ≡ b.sequence + suc (length calls) = omega arith in
      let first : EventFields = stripped platform (fields_of str_id b draw (call m)) in
      let valid : (build str_id platform draw m b).0 ≡ ok first = ap (λ r. r.0) one in
      (
        (
          first ∷ events,
          rw (valid, same),
          ap (λ l. some (b.sequence + 1) ∷ l) order,
          ((refl, refl, refl, refl), shared),
        ),
        last ∙ ap (λ n. record b { sequence = n }) more,
      )
