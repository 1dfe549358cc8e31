-- ===== src/Auth/Session.antt =====
-- services/auth and common/auth: who gets a token, and whom the token stands for.
use dox.Prelude.{
  ℕ, ◌+◌, ◌*◌, ◌<◌, ◌≡◌, refl, ◌∙◌, ap, sym, Bool, true, String, some, List, inl, inr, ℕ_eq,
  String_eq, Bool-cases, Option-cases,
}
use dox.Result.{Result, ok, ok-injective}
use dox.Sql.{Sql}
use dox.Sql.Rows.{find, find-find}
use dox.Sql.Fetch.{fetch-passing, passing}
use dox.Users.{User}
use dox.Users.Accounts.{IsAccounts, by_id, by_email}
use dox.Auth.{
  Crypto, TokenPayload, found_or_401, Settings, TokenResponse, verified, authenticate,
  create_access_token, create_token, get_token, decode_access_token, get_current_user,
}

abbrev pub is_on : User → Bool
is_on u = u.is_active

module _ (sql : Sql) (crypto : Crypto) (settings : Settings) (str_id : ℕ → String)
    (parse_id : String → Result ℕ) where
  -- Over accounts with unique emails a login is for the active account with the email, if the password
  -- fits its hash; in every other case it is refused alike.
  authenticate_lem :
      (email password : String) (rows : List User)
      → IsAccounts rows
      → authenticate sql crypto settings str_id parse_id email password rows
        ≡ ok (
            verified sql crypto settings str_id parse_id password
              (passing is_on (find by_email email rows)))
  unfolding authenticate
  authenticate_lem email password rows h = rw (fetch-passing sql by_email is_on email rows h.1) refl

  -- What a token's holder is: the active account with the identifier that was encoded.
  current_lem :
      (now issued : ℕ) (u : User) (rows : List User)
      → IsAccounts rows
      → parse_id (str_id u.id) ≡ ok u.id
      → now < issued + settings.access_token_expire_minutes * 60
      → get_current_user sql crypto settings str_id parse_id now
          (create_token sql crypto settings str_id parse_id issued u).access_token
          rows
        ≡ found_or_401 (passing is_on (find by_id u.id rows))
  unfolding get_current_user decode_access_token create_token create_access_token
  current_lem now issued u rows h parsed alive =
      let claims : TokenPayload = record {
        sub = str_id u.id;
        tenant_id = u.tenant_id;
        role = u.role;
        exp = issued + settings.access_token_expire_minutes * 60;
      } in
      rw
        (
          crypto.decode-encode now claims settings.secret_key settings.algorithm alive,
          parsed,
          fetch-passing sql by_id is_on u.id rows h.0,
        )
        refl

  -- Over accounts with unique keys and emails, for the UUIDs that are read back as they were written: a
  -- login that returns a token was for an active account with the email, whose hash the password fits;
  -- until the token expires its holder is that account, and against any later accounts with unique keys
  -- it is the account with the same identifier if that is there and active, and is refused otherwise.
  pub get_current_user-get_token :
      ((n : ℕ) → parse_id (str_id n) ≡ ok n)
      → (now issued : ℕ) (email password : String) (rows later : List User)
        (response : TokenResponse crypto.Token)
      → IsAccounts rows
      → IsAccounts later
      → get_token sql crypto settings str_id parse_id issued email password rows ≡ ok response
      → now < issued + response.expires_in
      → (u : User) × (find by_email email rows ≡ some u)
        × (u.is_active ≡ true)
        × (crypto.checkpw password u.hashed_password ≡ true)
        × (get_current_user sql crypto settings str_id parse_id now response.access_token rows
            ≡ ok u)
        × (get_current_user sql crypto settings str_id parse_id now response.access_token later
            ≡ found_or_401 (passing is_on (find by_id u.id later)))
  unfolding get_token create_token
  get_current_user-get_token back now issued email password rows later response h h' given alive =
      let login = authenticate_lem email password rows h in
      elim (Option-cases (find by_email email rows)) [
        | inl missing ↦ absurd (cc (rw (login, missing) at given))
        | inr (u, found) ↦ elim (Bool-cases u.is_active) [
          | inr off ↦ absurd (cc (rw (login, found, off) at given))
          | inl on ↦ elim (Bool-cases (crypto.checkpw password u.hashed_password)) [
            | inr wrong ↦ absurd (cc (rw (login, found, on, wrong) at given))
            | inl right ↦
                let token : create_token sql crypto settings str_id parse_id issued u ≡ response =
                  ok-injective (rw (login, found, on, right) at given) in
                let life : now < issued + settings.access_token_expire_minutes * 60 =
                  rw (← ap (λ t. t.expires_in) token) at alive in
                let current : (accounts : List User)
                    → IsAccounts accounts
                    → get_current_user sql crypto settings str_id parse_id now response.access_token
                        accounts
                      ≡ found_or_401 (passing is_on (find by_id u.id accounts)) =
                  λ accounts k.
                    ap
                      (λ t.
                        get_current_user sql crypto settings str_id parse_id now t.access_token
                          accounts)
                      (sym token)
                    ∙ current_lem now issued u accounts k (back u.id) life in
                (
                  u,
                  found,
                  on,
                  right,
                  current rows h ∙ rw (find-find by_email by_id email u rows h.0 found, on) refl,
                  current later h',
                )
          ]
        ]
      ]
