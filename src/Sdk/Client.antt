-- ===== src/Sdk/Client.antt =====
-- sdk/python/dox_sdk/client.py and result.py: sending events. The HTTP library is a parameter: how a
-- connection is opened, what `post` and `aclose` do to it, and what the body of a response says. The
-- texts of errors, the timeout and the time of a result are not modelled.
pub mod Emission
use Prim.Native.String.{◌++◌}
use dox.Prelude.{
  ℕ, Bool, true, false, ◌||◌, ◌==◌, ℕ_eq, String, Option, none, some, List, [], ◌∷◌, if◌then◌else◌,
}
use dox.Result.{Error, Result, ok, err}

-- Why an emission failed: a status, or an exception.
pub data Failure : Type 0 where
  http : ℕ → Failure
  exception : Error → Failure

pub record EmitResult : Type 0 where
  pub success : Bool
  pub event_id : Option ℕ
  pub status_code : Option ℕ
  pub error : Option Failure

pub record BatchEmitResult : Type 0 where
  pub success : Bool
  pub accepted : ℕ
  pub event_ids : List ℕ
  pub status_code : Option ℕ
  pub error : Option Failure

-- A call returns, or raises RuntimeError for a status or the exception that it met.
pub data Outcome (A : Type 0) : Type 0 where
  returned : A → Outcome A
  failed : Failure → Outcome A

pub record Response (Body : Type 0) : Type 0 where
  pub status_code : ℕ
  pub body : Body

-- `AsyncHttpClient`, whose `post` is given the events and not their dumps, and the constructor of
-- httpx's; `event_id_of` and `accepted_of` read the body, which may be no JSON or lack a key.
pub record Http (Event : Type 0) : Type 1 where
  pub Connection : Type 0
  pub Body : Type 0
  pub opened : Connection
  pub post :
      String
      → List Event
      → List (String × String)
      → Connection
      → Result (Response Body) × Connection
  pub aclose : Connection → Result (Unit {0}) × Connection
  pub event_id_of : Body → Result ℕ
  pub accepted_of : Body → Result (ℕ × List ℕ)

module _ {Event : Type 0} (lib : Http Event) where
  pub record DoxClient : Type 0 where
    pub base_url : String
    pub token : String
    pub raise_on_error : Bool
    pub connection : Option lib.Connection
    pub owned : Bool

  -- `__init__`: the client owns the connection that it was not given. `rstrip` is of Python.
  unfoldable pub new_client :
      (String → String) → String → String → Bool → Option lib.Connection → DoxClient
  new_client rstrip base_url token raise_on_error none = record {
    base_url = rstrip base_url;
    token = token;
    raise_on_error = raise_on_error;
    connection = none;
    owned = true;
  }
  new_client rstrip base_url token raise_on_error (some given) = record {
    base_url = rstrip base_url;
    token = token;
    raise_on_error = raise_on_error;
    connection = some given;
    owned = false;
  }

  abbrev or_opened : Option lib.Connection → lib.Connection
  or_opened none = lib.opened
  or_opened (some given) = given

  -- `_ensure_client`
  unfoldable pub ensure_client : DoxClient → lib.Connection × DoxClient
  ensure_client c =
      (or_opened c.connection, record c { connection = some (or_opened c.connection) })

  -- Where `aclose` raises, the connection stays.
  abbrev closed : Result (Unit {0}) × lib.Connection → DoxClient → Result (Unit {0}) × DoxClient
  closed (ok done, connection) c = (ok done, record c { connection = none })
  closed (err e, connection) c = (err e, record c { connection = some connection })

  abbrev close_held : Option lib.Connection → Bool → DoxClient → Result (Unit {0}) × DoxClient
  close_held none owned c = (ok tt, c)
  close_held (some held) owned c = if owned then closed (lib.aclose held) c else (ok tt, c)

  -- `close`, which is `__aexit__` too.
  unfoldable pub close : DoxClient → Result (Unit {0}) × DoxClient
  close c = close_held c.connection c.owned c

  unfoldable pub headers : DoxClient → List (String × String)
  headers c = ("Authorization", "Bearer " ++ c.token) ∷ ("Content-Type", "application/json") ∷ []

  -- `status in (200, 202)`
  abbrev pub is_accepted : ℕ → Bool
  is_accepted status = status == 200 || status == 202

  -- The exception handler: it raises again, or returns a result that has failed.
  abbrev caught : {A : Type 0} → Bool → (Failure → A) → Failure → Outcome A
  caught raise_on_error bad failure =
      if raise_on_error then failed failure else returned (bad failure)

  abbrev decoded : {A B : Type 0} → Bool → (ℕ → A → B) → (Failure → B) → ℕ → Result A → Outcome B
  decoded raise_on_error good bad status (ok a) = returned (good status a)
  decoded raise_on_error good bad status (err e) = caught raise_on_error bad (exception e)

  -- What `emit` and `emit_batch` do with the answer; `refused` is the result for another status.
  unfoldable pub answered :
      {A B : Type 0}
      → Bool
      → (lib.Body → Result A)
      → (ℕ → A → B)
      → (ℕ → B)
      → (Failure → B)
      → Result (Response lib.Body)
      → Outcome B
  answered raise_on_error read good refused bad (err e) = caught raise_on_error bad (exception e)
  answered raise_on_error read good refused bad (ok r) =
      if is_accepted r.status_code
      then decoded raise_on_error good bad r.status_code (read r.body)
      else if raise_on_error
      then failed (http r.status_code)
      else returned (refused r.status_code)

  -- `post` on the client's connection, which keeps what it becomes.
  unfoldable pub send : String → List Event → DoxClient → Result (Response lib.Body) × DoxClient
  unfolding ensure_client headers
  send path events c =
      let ready = ensure_client c in
      let done = lib.post (c.base_url ++ path) events (headers c) ready.0 in
      (done.0, record ready.1 { connection = some done.1 })

  abbrev pub emitted : ℕ → ℕ → EmitResult
  emitted status id = record {
    success = true;
    event_id = some id;
    status_code = some status;
    error = none;
  }

  abbrev pub not_emitted : Option ℕ → Failure → EmitResult
  not_emitted status failure = record {
    success = false;
    event_id = none;
    status_code = status;
    error = some failure;
  }

  unfoldable pub emit : Event → DoxClient → Outcome EmitResult × DoxClient
  unfolding send answered
  emit event c =
      let sent = send "/v1/events" (event ∷ []) c in
      (
        answered c.raise_on_error lib.event_id_of emitted
            (λ status. not_emitted (some status) (http status)) (not_emitted none) sent.0,
        sent.1,
      )

  abbrev pub accepted_batch : ℕ → ℕ × List ℕ → BatchEmitResult
  accepted_batch status (accepted, event_ids) = record {
    success = true;
    accepted = accepted;
    event_ids = event_ids;
    status_code = some status;
    error = none;
  }

  abbrev pub failed_batch : Option ℕ → Failure → BatchEmitResult
  failed_batch status failure = record {
    success = false;
    accepted = 0;
    event_ids = [];
    status_code = status;
    error = some failure;
  }

  -- An empty batch succeeds without a request.
  unfoldable pub emit_batch : List Event → DoxClient → Outcome BatchEmitResult × DoxClient
  unfolding send answered
  emit_batch [] c = (
    returned
        (record { success = true; accepted = 0; event_ids = []; status_code = none; error = none }),
    c,
  )
  emit_batch (event ∷ events) c =
      let sent = send "/v1/events/batch" (event ∷ events) c in
      (
        answered c.raise_on_error lib.accepted_of accepted_batch
            (λ status. failed_batch (some status) (http status)) (failed_batch none) sent.0,
        sent.1,
      )
