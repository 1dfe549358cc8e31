-- ===== src/Sdk/Client/Emission.antt =====
-- sdk/python/dox_sdk/client.py: what an emission reports, and when it raises.
use dox.Prelude.{
  String, ℕ, ◌≡◌, refl, Bool, true, false, Option, none, some, List, [], ◌∷◌, if◌then◌else◌, inl,
  inr, Bool-cases,
}
use dox.Result.{Result, ok, err, Result-cases}
use dox.Sdk.Client.{
  Failure, http, exception, Outcome, returned, failed, Response, Http, DoxClient, is_accepted,
  answered, send, emitted, not_emitted, emit, accepted_batch, failed_batch, emit_batch,
}

module _ {Event : Type 0} (lib : Http Event) where
  -- The answer is an accepted one whose body can be read.
  abbrev pub is_read : {A : Type 0} → Result A → Bool
  is_read (ok a) = true
  is_read (err e) = false

  abbrev pub is_delivered : {A : Type 0} → (lib.Body → Result A) → Result (Response lib.Body) → Bool
  is_delivered read (err e) = false
  is_delivered read (ok r) = if is_accepted lib r.status_code then is_read (read r.body) else false

  -- A delivery returns a success; otherwise the call raises if it was asked to, and else returns a
  -- failure with its reason.
  abbrev pub Reports :
      {B : Type 0} → (B → Bool) → (B → Option Failure) → Bool → Bool → Outcome B → Type 0
  Reports {B} success error raise_on_error true out =
      (r : B) × (out ≡ returned r) × (success r ≡ true) × (error r ≡ none)
  Reports {B} success error true false out = (f : Failure) × (out ≡ failed f)
  Reports {B} success error false false out =
      (r : B) × (f : Failure) × (out ≡ returned r) × (success r ≡ false) × (error r ≡ some f)

  answered-Reports :
      {A B : Type 0} (success : B → Bool) (error : B → Option Failure) (raise_on_error : Bool)
      (read : lib.Body → Result A) (good : ℕ → A → B) (refused : ℕ → B) (bad : Failure → B)
      → ((n : ℕ) (a : A) → (success (good n a) ≡ true) × (error (good n a) ≡ none))
      → ((n : ℕ) → (f : Failure) × (success (refused n) ≡ false) × (error (refused n) ≡ some f))
      → ((f : Failure) → (success (bad f) ≡ false) × (error (bad f) ≡ some f))
      → (answer : Result (Response lib.Body))
      → Reports success error raise_on_error
          (is_delivered read answer)
          (answered lib raise_on_error read good refused bad answer)
  unfolding answered
  answered-Reports success error true read good refused bad g h k (err e) = (exception e, refl)
  answered-Reports success error false read good refused bad g h k (err e) =
      (bad (exception e), exception e, refl, (k (exception e)).0, (k (exception e)).1)
  answered-Reports success error raise_on_error read good refused bad g h k (ok r) =
      elim (Bool-cases (is_accepted lib r.status_code)) [
        | inl accepted ↦ elim (Result-cases (read r.body)) [
          | inl (a, e) ↦
              rw (accepted, e)
                (good r.status_code a, refl, (g r.status_code a).0, (g r.status_code a).1)
          | inr (x, e) ↦ rw (accepted, e) (caught-Reports raise_on_error (exception x))
        ]
        | inr other ↦ rw other (refused-Reports raise_on_error)
      ]
    where
      caught-Reports :
          (b : Bool) (f : Failure)
          → Reports success error b false (if b then failed f else returned (bad f))
      caught-Reports true f = (f, refl)
      caught-Reports false f = (bad f, f, refl, (k f).0, (k f).1)

      refused-Reports :
          (b : Bool)
          → Reports success error b false
              (if b then failed (http r.status_code) else returned (refused r.status_code))
      refused-Reports true = (http r.status_code, refl)
      refused-Reports false =
          let (f, low, why) = h r.status_code in (refused r.status_code, f, refl, low, why)

  abbrev answer_of : String → List Event → DoxClient lib → Result (Response lib.Body)
  answer_of path events c = (send lib path events c).0

  -- `emit` returns a success exactly where the answer has status 200 or 202 and a body with an
  -- identifier; otherwise it raises if the client raises on errors, and else returns a failure with its
  -- reason. `emit_batch` does the same on a batch, and an empty batch succeeds.
  pub emit-Reports :
      (event : Event) (events : List Event) (c : DoxClient lib)
      → Reports
          (λ r. r.success)
          (λ r. r.error)
          c.raise_on_error
          (is_delivered lib.event_id_of (answer_of "/v1/events" (event ∷ []) c))
          (emit lib event c).0
        × Reports
            (λ r. r.success)
            (λ r. r.error)
            c.raise_on_error
            (is_delivered lib.accepted_of (answer_of "/v1/events/batch" (event ∷ events) c))
            (emit_batch lib (event ∷ events) c).0
        × Reports (λ r. r.success) (λ r. r.error) c.raise_on_error true (emit_batch lib [] c).0
  unfolding emit emit_batch
  emit-Reports event events c = (
    answered-Reports (λ r. r.success) (λ r. r.error) c.raise_on_error lib.event_id_of (emitted lib)
        (λ status. not_emitted lib (some status) (http status)) (not_emitted lib none)
        (λ n a. (refl, refl)) (λ n. (http n, refl, refl)) (λ f. (refl, refl))
        (answer_of "/v1/events" (event ∷ []) c),
    answered-Reports (λ r. r.success) (λ r. r.error) c.raise_on_error lib.accepted_of
        (accepted_batch lib) (λ status. failed_batch lib (some status) (http status))
        (failed_batch lib none) (λ n a. (refl, refl)) (λ n. (http n, refl, refl))
        (λ f. (refl, refl)) (answer_of "/v1/events/batch" (event ∷ events) c),
    (_, refl, refl, refl),
  )
