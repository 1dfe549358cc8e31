-- ===== src/Schema.antt =====
-- common/schemas/validators.py, the patterns of common/schemas/enums.py and the validators of
-- common/schemas/events.py. Python's `re` is not code of the repository: a pattern is the matcher that
-- its syntax describes. `$` also matches before a line feed that ends the text, and `\d` matches every
-- decimal digit of Unicode, which is a parameter, as is the stripping of white space.
pub mod Patterns
mod Tests
use Prim.Native.Char.{Char, code}
use Prim.Native.String.{count as characters}
use dox.Prelude.{
  ℕ, zero, suc, ◌+◌, ◌<◌, ◌*◌, ◌≡◌, Bool, true, false, ◌&&◌, ◌||◌, String, Option, none, some, List,
  [], ◌∷◌, length, map, all, if◌then◌else◌, leb, ltb, ◌==◌, ℕ_eq, String_eq,
}
use dox.Result.{Result, ok, err, value_error, and_then}
use dox.Enums.{event_type_str, event_types, environment_str, environments}
use dox.Json.{Json}
use dox.Sql.Rows.{find}

-- `[a-f0-9]`
abbrev pub is_hex : Char → Bool
is_hex c = (leb 97 (code c) && leb (code c) 102) || (leb 48 (code c) && leb (code c) 57)

-- `$`: the end, or a line feed at the end.
unfoldable pub at_end : String → Bool
at_end String.[] = true
at_end (String.◌∷◌ c String.[]) = code c == 10
at_end (String.◌∷◌ c (String.◌∷◌ d s)) = false

-- `[a-f0-9]{n}`, and then the rest of the pattern.
unfoldable pub hex_run : ℕ → (String → Bool) → String → Bool
hex_run zero rest s = rest s
hex_run (suc n) rest String.[] = false
hex_run (suc n) rest (String.◌∷◌ c s) = is_hex c && hex_run n rest s

-- One character, and then the rest.
unfoldable pub literal : ℕ → (String → Bool) → String → Bool
literal n rest String.[] = false
literal n rest (String.◌∷◌ c s) = code c == n && rest s

-- `_SHA256_RE`
unfoldable pub is_sha256 : String → Bool
unfolding hex_run at_end
is_sha256 = hex_run 64 at_end

-- `_TRACEPARENT_RE`: 48 is `0` and 45 is `-`.
unfoldable pub is_traceparent : String → Bool
unfolding hex_run literal at_end
is_traceparent =
    literal 48 (
      literal 48
        (literal 45 (hex_run 32 (literal 45 (hex_run 16 (literal 45 (hex_run 2 at_end)))))))

unfoldable pub validate_sha256_hash : Option String → Result (Option String)
unfolding is_sha256
validate_sha256_hash none = ok none
validate_sha256_hash (some s) = if is_sha256 s then ok (some s) else err value_error

unfoldable pub validate_traceparent : Option String → Result (Option String)
unfolding is_traceparent
validate_traceparent none = ok none
validate_traceparent (some s) = if is_traceparent s then ok (some s) else err value_error

-- What Python and pydantic do with texts: `strip` removes white space at both ends, so it keeps a text
-- of visible ASCII characters; the digits of `\d` among the ASCII characters are those from `0` to `9`.
abbrev pub is_visible : String → Bool
is_visible String.[] = true
is_visible (String.◌∷◌ c s) = leb 33 (code c) && leb (code c) 126 && is_visible s

pub record Platform : Type 0 where
  pub strip : String → String
  pub strip_visible : (s : String) → is_visible s ≡ true → strip s ≡ s
  pub is_digit : Char → Bool
  pub is_digit_ascii : (c : Char) → code c < 128 → is_digit c ≡ (leb 48 (code c) && leb (code c) 57)

-- `Field(min_length=low, max_length=high)`
abbrev pub fits : ℕ → ℕ → String → Bool
fits low high s = leb low (characters s) && leb (characters s) high

abbrev pub fits_or_none : ℕ → ℕ → Option String → Bool
fits_or_none low high none = true
fits_or_none low high (some s) = fits low high s

-- `CanonicalEvent` as it is given, without the fields that have no check but that of their type.
pub record EventFields : Type 0 where
  pub event_id : ℕ
  pub schema_version : String
  pub trace_id : ℕ
  pub session_id : String
  pub tenant_id : String
  pub agent_id : String
  pub agent_version : String
  pub agent_fingerprint : Option String
  pub event_type : String
  pub environment : String
  pub timestamp : ℕ
  pub client_timestamp : ℕ
  pub sequence_number : Option ℕ
  pub correlation_id : String
  pub traceparent : Option String
  pub tracestate : Option String
  pub payload : Json
  pub payload_hash : Option String
  pub previous_event_hash : Option String
  pub user_id : Option String
  pub consent_id : Option String
  pub purpose_id : Option String
  pub sdk_version : Option String
  pub adapter_id : Option String
  pub tags : List (String × String)

abbrev pub is_ok {ℓ} : {A : Type ℓ} → Result A → Bool
is_ok (ok a) = true
is_ok (err e) = false

abbrev pub is_some {ℓ} : {A : Type ℓ} → Option A → Bool
is_some none = false
is_some (some a) = true

abbrev pub is_tag : String × String → Bool
is_tag (key, value) = leb (characters key) 100 && leb (characters value) 500

-- `check_tags`
unfoldable pub check_tags : List (String × String) → Bool
check_tags tags = leb (length tags) 50 && all is_tag tags

-- Five minutes, in microseconds.
abbrev pub five_minutes : ℕ
five_minutes = 300000000

-- `check_timestamp_ordering`
unfoldable pub check_timestamp_ordering : EventFields → Bool
check_timestamp_ordering e = leb e.client_timestamp (e.timestamp + five_minutes)

-- A member of the enumeration has this value.
unfoldable pub is_event_type : String → Bool
unfolding find event_type_str
is_event_type s = is_some (find event_type_str s event_types)

unfoldable pub is_environment : String → Bool
unfolding find environment_str
is_environment s = is_some (find environment_str s environments)

module _ (platform : Platform) where
  -- `\d*`, and then the rest; the rest starts with a character that is no digit, or is the end.
  unfoldable pub digits : (String → Bool) → String → Bool
  digits rest String.[] = rest String.[]
  digits rest (String.◌∷◌ c s) =
      let more = digits rest s in if platform.is_digit c then more else rest (String.◌∷◌ c s)

  -- `\d+`
  unfoldable pub some_digits : (String → Bool) → String → Bool
  unfolding digits
  some_digits rest String.[] = false
  some_digits rest (String.◌∷◌ c s) = platform.is_digit c && digits rest s

  -- `_SCHEMA_VERSION_RE`: 46 is the point.
  unfoldable pub is_schema_version : String → Bool
  unfolding some_digits literal at_end
  is_schema_version = some_digits (literal 46 (some_digits at_end))

  unfoldable pub validate_schema_version : String → Result String
  unfolding is_schema_version
  validate_schema_version s = if is_schema_version s then ok s else err value_error

  abbrev strip_some : Option String → Option String
  strip_some none = none
  strip_some (some s) = some (platform.strip s)

  -- `str_strip_whitespace`: every text is stripped before its other checks; `payload` is no text.
  unfoldable pub stripped : EventFields → EventFields
  stripped e = record e {
    schema_version = platform.strip e.schema_version;
    session_id = platform.strip e.session_id;
    tenant_id = platform.strip e.tenant_id;
    agent_id = platform.strip e.agent_id;
    agent_version = platform.strip e.agent_version;
    agent_fingerprint = strip_some e.agent_fingerprint;
    correlation_id = platform.strip e.correlation_id;
    traceparent = strip_some e.traceparent;
    tracestate = strip_some e.tracestate;
    payload_hash = strip_some e.payload_hash;
    previous_event_hash = strip_some e.previous_event_hash;
    user_id = strip_some e.user_id;
    consent_id = strip_some e.consent_id;
    purpose_id = strip_some e.purpose_id;
    sdk_version = strip_some e.sdk_version;
    adapter_id = strip_some e.adapter_id;
    tags = map (λ t. (platform.strip t.0, platform.strip t.1)) e.tags;
  }

  -- The checks of the fields, of a stripped event.
  unfoldable pub check_fields : EventFields → Bool
  unfolding validate_schema_version validate_traceparent validate_sha256_hash check_tags
      is_event_type is_environment
  check_fields e =
      is_ok (validate_schema_version e.schema_version)
      && fits 1 255 e.session_id
      && fits 1 255 e.tenant_id
      && fits 1 255 e.agent_id
      && fits 1 100 e.agent_version
      && fits_or_none 32 255 e.agent_fingerprint
      && is_event_type e.event_type
      && is_environment e.environment
      && fits 1 255 e.correlation_id
      && is_ok (validate_traceparent e.traceparent)
      && fits_or_none 0 1024 e.tracestate
      && is_ok (validate_sha256_hash e.payload_hash)
      && is_ok (validate_sha256_hash e.previous_event_hash)
      && fits_or_none 0 255 e.user_id
      && fits_or_none 0 255 e.consent_id
      && fits_or_none 0 255 e.purpose_id
      && fits_or_none 0 50 e.sdk_version
      && fits_or_none 0 100 e.adapter_id
      && check_tags e.tags

  -- The constructor `CanonicalEvent(...)`: ValidationError, a ValueError, where a check fails.
  unfoldable pub canonical_event : EventFields → Result EventFields
  unfolding stripped check_fields check_timestamp_ordering
  canonical_event e =
      if check_fields (stripped e) && check_timestamp_ordering (stripped e)
      then ok (stripped e)
      else err value_error
