-- ===== src/Auth.antt =====
-- services/auth/service.py, common/auth/tokens.py, common/auth/passwords.py, common/auth/deps.py and
-- services/auth/router.py: login, and the user whom a token stands for. The signature of a token and
-- the check of a password are libraries: parameters, with what they document.
pub mod Session
pub mod Roles
mod Tests
use dox.Prelude.{
  ℕ, ◌+◌, ◌*◌, ◌<◌, ◌≡◌, Bool, true, false, ◌&&◌, String, Option, none, some, List, [], ◌∷◌, any,
  ◌==◌, ℕ_eq, String_eq, if◌then◌else◌, leb,
}
use dox.Result.{
  Result, ok, err, and_then, map_ok, authentication_error, authorization_error, value_error,
}
use dox.Sql.{Sql, fetch}
use dox.Users.{User}

pub record TokenPayload : Type 0 where
  pub sub : String
  pub tenant_id : String
  pub role : String
  pub exp : ℕ

pub record TokenResponse (Token : Type 0) : Type 0 where
  pub access_token : Token
  pub token_type : String
  pub expires_in : ℕ

-- `settings.auth` and the secret; a token's lifetime is in minutes.
pub record Settings : Type 0 where
  pub secret_key : String
  pub algorithm : String
  pub access_token_expire_minutes : ℕ

-- `jose.jwt` and `bcrypt`; the texts that are tokens are a type of their own. A token that was encoded decodes to its claims with the same key and
-- algorithm until it expires; `exp` and the clock are in seconds.
pub record Crypto : Type 1 where
  pub Token : Type 0
  pub encode : TokenPayload → String → String → Token
  pub decode : ℕ → Token → String → String → Result TokenPayload
  pub decode-encode :
      (now : ℕ) (payload : TokenPayload) (key algorithm : String)
      → now < payload.exp
      → decode now (encode payload key algorithm) key algorithm ≡ ok payload
  pub checkpw : String → String → Bool

-- The errors of the routes: `HTTPException` with 401 or 403.
abbrev pub unauthorized : {A : Type 0} → Result A
unauthorized = err authentication_error

abbrev pub found_or_401 : Option User → Result User
found_or_401 none = unauthorized
found_or_401 (some user) = ok user

abbrev or_authentication_error : {A : Type 0} → Result A → Result A
or_authentication_error (ok a) = ok a
or_authentication_error (err e) = err authentication_error

module _ (sql : Sql) (crypto : Crypto) (settings : Settings) (str_id : ℕ → String)
    (parse_id : String → Result ℕ) where
  -- `verify_password`
  abbrev pub verify_password : String → String → Bool
  verify_password plain hashed = crypto.checkpw plain hashed

  -- `None` for an unknown email, an inactive account or a wrong password.
  abbrev pub verified : String → Option User → Option User
  verified password none = none
  verified password (some user) =
      if verify_password password user.hashed_password then some user else none

  unfoldable pub authenticate : String → String → List User → Result (Option User)
  unfolding fetch
  authenticate email password rows =
      map_ok (verified password) (fetch sql (λ u. u.email == email && u.is_active) rows)

  -- `create_access_token` without `expires_delta`; `now` is the clock in seconds.
  unfoldable pub create_access_token : ℕ → ℕ → String → String → crypto.Token
  create_access_token now user_id tenant_id role =
      crypto.encode
        (record {
          sub = str_id user_id;
          tenant_id = tenant_id;
          role = role;
          exp = now + settings.access_token_expire_minutes * 60;
        })
        settings.secret_key settings.algorithm

  unfoldable pub create_token : ℕ → User → TokenResponse crypto.Token
  unfolding create_access_token
  create_token now user = record {
    access_token = create_access_token now user.id user.tenant_id user.role;
    token_type = "bearer";
    expires_in = settings.access_token_expire_minutes * 60;
  }

  abbrev or_invalid : ℕ → Option User → Result (TokenResponse crypto.Token)
  or_invalid now none = unauthorized
  or_invalid now (some user) = ok (create_token now user)

  -- The route `/v1/auth/token`.
  unfoldable pub get_token : ℕ → String → String → List User → Result (TokenResponse crypto.Token)
  unfolding authenticate create_token
  get_token now email password rows = and_then (authenticate email password rows) (or_invalid now)

  unfoldable pub decode_access_token : ℕ → crypto.Token → Result TokenPayload
  decode_access_token now token =
      or_authentication_error (crypto.decode now token settings.secret_key settings.algorithm)

  -- `get_current_user` of common/auth/deps.py; a `sub` that is no UUID raises outside the `try`.
  unfoldable pub get_current_user : ℕ → crypto.Token → List User → Result User
  unfolding decode_access_token fetch
  get_current_user now token rows = and_then (decode_access_token now token) λ payload.
      and_then (parse_id payload.sub)
        λ k. and_then (fetch sql (λ u. u.id == k && u.is_active) rows) found_or_401

  -- The check that `require_role` makes of the current user.
  unfoldable pub require_role : List String → User → Result User
  require_role roles user =
      if any (λ r. r == user.role) roles then ok user else err authorization_error
