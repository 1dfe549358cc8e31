-- ===== src/Auth/Roles.antt =====
-- common/auth/dependencies.py: the token of a request and the roles that a route admits, with the
-- response to what they raise.
use mathlib.Core.Option
use dox.Prelude.{
  [], ◌∷◌, eq_iff, arith, ◌↔◌, ℕ, ◌≡◌, refl, Bool, true, String, Option, none, some, List, any, map,
  if◌then◌else◌, ◌==◌, String_eq, Bool-cases, inl, inr, ◌⊎◌,
}
use dox.Result.{
  Error, Result, ok, err, authentication_error, authorization_error, and_then, Result-cases,
}
use dox.Enums.{UserRole, role_str}
use dox.Sql.{Sql}
use dox.Api.{handle}
use dox.Auth.{Crypto, Settings, TokenPayload, decode_access_token}

-- The status of the response to an error.
unfoldable pub status : Error → Option ℕ
unfolding handle
status e = Option.map (λ r. r.status_code) (handle e)

-- `payload.role not in allowed`, where `allowed` has the values of the roles.
unfoldable pub is_allowed : List UserRole → TokenPayload → Bool
unfolding role_str
is_allowed roles payload = any (λ r. r == payload.role) (map role_str roles)

-- The role is the value of one of these.
abbrev pub IsAmong : String → List UserRole → Type 0
IsAmong role [] = ⊥
IsAmong role (r ∷ roles) = (role_str r ≡ role) ⊎ IsAmong role roles

any-IsAmong :
    (role : String) (roles : List UserRole)
    → (any (λ r. r == role) (map role_str roles) ≡ true) ↔ IsAmong role roles
any-IsAmong role [] = (λ h. cc, λ h. absurd h)
any-IsAmong role (r ∷ roles) =
    let (to, from) = any-IsAmong role roles in
    let (same, back) = eq_iff (role_str r) role in
    (
      λ h. elim (Bool-cases (role_str r == role)) [
        | inl hit ↦ inl (same hit)
        | inr miss ↦ inr (to (ground (arith, miss)))
      ],
      λ h. elim h [
        | inl hit ↦ let e = back hit in ground (arith, e)
        | inr later ↦ let e = from later in ground (arith, e)
      ],
    )

module _ (sql : Sql) (crypto : Crypto) (settings : Settings) (str_id : ℕ → String)
    (parse_id : String → Result ℕ) where
  -- `get_current_user`; no credentials were sent, or the token of those that were.
  unfoldable pub current_payload : ℕ → Option crypto.Token → Result TokenPayload
  unfolding decode_access_token
  current_payload now none = err authentication_error
  current_payload now (some token) =
      decode_access_token sql crypto settings str_id parse_id now token

  -- The check that `require_role` makes.
  unfoldable pub check_role : List UserRole → TokenPayload → Result TokenPayload
  unfolding is_allowed
  check_role roles payload =
      if is_allowed roles payload then ok payload else err authorization_error

  -- A route with `require_role`, before its handler.
  unfoldable pub authorize : ℕ → List UserRole → Option crypto.Token → Result TokenPayload
  unfolding current_payload check_role
  authorize now roles credentials = and_then (current_payload now credentials) (check_role roles)

  -- The claims of a request: no token, a token that the library refuses, or the claims in it.
  abbrev pub Sent : ℕ → Option crypto.Token → TokenPayload → Type 0
  Sent now none payload = ⊥
  Sent now (some token) payload =
      crypto.decode now token settings.secret_key settings.algorithm ≡ ok payload

  abbrev pub IsUnreadable : ℕ → Option crypto.Token → Type 0
  IsUnreadable now none = Unit
  IsUnreadable now (some token) =
      (e : Error) × (crypto.decode now token settings.secret_key settings.algorithm ≡ err e)

  -- What the caller of a guarded route gets.
  abbrev pub Answer : ℕ → List UserRole → Option crypto.Token → Result TokenPayload → Type 0
  Answer now roles credentials (ok payload) =
      Sent now credentials payload × IsAmong payload.role roles
  Answer now roles credentials (err e) =
      ((status e ≡ some 401) × IsUnreadable now credentials)
      ⊎ ((status e ≡ some 403)
          × ((payload : TokenPayload) × Sent now credentials payload
              × ¬ IsAmong payload.role roles))

  checked :
      (now : ℕ) (roles : List UserRole) (credentials : Option crypto.Token) (payload : TokenPayload)
      → Sent now credentials payload
      → Answer now roles credentials (check_role roles payload)
  unfolding check_role is_allowed
  checked now roles credentials payload sent =
      let (there, from) = any-IsAmong payload.role roles in
      elim (Bool-cases (any (λ r. r == payload.role) (map role_str roles))) [
        | inl allowed ↦ rw allowed (sent, there allowed)
        | inr other ↦
            rw other (inr (unfold status handle in refl, (payload, sent, λ h. cc (from h, other))))
      ]

  -- A guarded route answers 401 only where no token was sent or the library cannot decode it, and 403
  -- only where a token was decoded whose role is not among the route's; otherwise its handler gets the
  -- claims that the token decodes to, whose role is among them.
  pub authorize-handle :
      (now : ℕ) (roles : List UserRole) (credentials : Option crypto.Token)
      → Answer now roles credentials (authorize now roles credentials)
  unfolding authorize current_payload decode_access_token status handle
  authorize-handle now roles none = inl (refl, tt)
  authorize-handle now roles (some token) =
      elim (Result-cases (crypto.decode now token settings.secret_key settings.algorithm)) [
        | inl (payload, good) ↦ rw good (checked now roles (some token) payload good)
        | inr (e, bad) ↦ rw bad (inl (refl, (e, bad)))
      ]
