-- ===== src/Sdk/Tests.antt =====
-- A builder of a session, and a client whose server accepts one event and is down for batches.
use Prim.Native.Char.{code}
use dox.Prelude.{
  ℕ, ◌+◌, ◌≡◌, refl, true, false, ◌&&◌, leb, Bool, String, none, some, List, [], ◌∷◌, ◌==◌,
  String_eq, if◌then◌else◌, ℕ_eq,
}
use dox.Result.{ok, err, dox_error, value_error}
use dox.Json.{null, end}
use dox.Schema.{Platform, is_environment, is_event_type}
use dox.Sdk.Builder.{EventBuilder, Draw, Method, new_builder, build_all}
use dox.Sdk.Builder.Sequence.{IsReady, Numbered, build_all-Numbered}
use dox.Sdk.Client.{
  Http, DoxClient, returned, failed, exception, emit, emit_batch, emitted, send, answered,
  ensure_client, close, headers,
}
use dox.Sdk.Client.Emission.{Reports, is_delivered, emit-Reports}

-- A platform whose texts have no white space, and whose digits are those of ASCII.
abbrev plain : Platform
plain = record {
  strip = λ s. s;
  strip_visible = λ s h. refl;
  is_digit = λ c. leb 48 (code c) && leb (code c) 57;
  is_digit_ascii = λ c h. refl;
}

abbrev str_id : ℕ → String
str_id n = "123e4567-e89b-12d3-a456-426614174000"

abbrev builder : EventBuilder
builder = record {
  tenant_id = "acme";
  agent_id = "bot";
  agent_version = "1.2.0";
  environment = "prod";
  session_id = "s";
  trace_id = 5;
  sequence = 0;
}

made : new_builder str_id 1 5 "acme" "bot" "1.2.0" "prod" (some "s") ≡ builder
unfolding new_builder
made = refl

builder-IsReady : IsReady plain builder
unfolding is_environment
builder-IsReady = record {
  session = refl;
  tenant = refl;
  agent = refl;
  version = refl;
  environment = refl;
}

abbrev draw : ℕ → Draw
draw n = record { now = n; event_id = n; correlation_id = n }

abbrev calls : List (Draw × Method)
calls =
    (draw 1, Method.agent_started end)
    ∷ (draw 2, Method.tool_call_failed "search" "timeout" end)
    ∷ (draw 3, Method.custom "agent_resumed" null)
    ∷ []

build_all-Numbered_example :
    Numbered plain str_id (λ n. refl) (λ n. refl) builder 3 (build_all str_id plain calls builder).0
    × ((build_all str_id plain calls builder).1 ≡ record builder { sequence = 3 })
unfolding is_event_type
build_all-Numbered_example =
    build_all-Numbered plain str_id (λ n. refl) (λ n. refl) calls builder builder-IsReady
      (tt, (tt, (refl, tt)))

abbrev server : Http ℕ
server = record {
  Connection = ℕ;
  Body = ℕ;
  opened = 0;
  post = λ url events headers n. (
    if url == "https://dox/v1/events"
        then ok (record { status_code = 202; body = 7 })
        else err dox_error,
    n + 1,
  );
  aclose = λ n. (ok tt, n);
  event_id_of = λ body. ok body;
  accepted_of = λ body. err value_error;
}

abbrev client : Bool → DoxClient server
client raise_on_error = record {
  base_url = "https://dox";
  token = "t";
  raise_on_error = raise_on_error;
  connection = none;
  owned = true;
}

one_accepted : (emit server 3 (client true)).0 ≡ returned (emitted server 202 7)
unfolding emit send answered ensure_client headers
one_accepted = refl

batch_raises : (emit_batch server (1 ∷ 2 ∷ []) (client true)).0 ≡ failed (exception dox_error)
unfolding emit_batch send answered ensure_client headers
batch_raises = refl

closed_again : (close server (emit server 3 (client false)).1).1.connection ≡ none
unfolding emit send answered ensure_client headers close
closed_again = refl

emit-Reports_example :
    Reports server
      (λ r. r.success)
      (λ r. r.error)
      false
      (is_delivered server server.event_id_of (send server "/v1/events" (3 ∷ []) (client false)).0)
      (emit server 3 (client false)).0
    × Reports server
        (λ r. r.success)
        (λ r. r.error)
        false
        (is_delivered server server.accepted_of
          (send server "/v1/events/batch" (3 ∷ 4 ∷ []) (client false)).0)
        (emit_batch server (3 ∷ 4 ∷ []) (client false)).0
    × Reports server
        (λ r. r.success)
        (λ r. r.error)
        false
        true
        (emit_batch server [] (client false)).0
emit-Reports_example = emit-Reports server 3 (4 ∷ []) (client false)
