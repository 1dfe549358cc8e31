-- ===== src/Auth/Tests.antt =====
-- A login, and the account behind its token.
use dox.Prelude.{
  zero, suc, ap, ◌<◌, ℕ, ◌≡◌, refl, true, String, List, [], ◌∷◌, some, ◌==◌, String_eq,
  if◌then◌else◌, ltb, arith, ℕ_eq,
}
use dox.Result.{map_ok, Result, ok, err, value_error, authentication_error, authorization_error}
use dox.Enums.{UserRole, role_str}
use dox.Api.{handle}
use dox.Auth.Roles.{
  status, authorize, current_payload, check_role, is_allowed, Answer, authorize-handle,
}
use dox.Sql.{fetch}
use dox.Sql.Rows.{find}
use dox.Sql.Fetch.{passing}
use dox.Sql.Engine.{list_engine}
use dox.Users.{User}
use dox.Users.Accounts.{IsAccounts, by_id, by_email}
use dox.Auth.{
  TokenPayload, TokenResponse, Crypto, Settings, authenticate, create_token, get_token,
  get_current_user, require_role, found_or_401, decode_access_token,
}
use dox.Auth.Session.{is_on, get_current_user-get_token}

unexpired :
    (now : ℕ) (payload : TokenPayload)
    → now < payload.exp
    → (if ltb now payload.exp then ok payload else err value_error) ≡ ok payload
unexpired now payload h = ground arith

abbrev plain : Crypto
plain = record {
  Token = TokenPayload;
  encode = λ payload key algorithm. payload;
  decode = λ now token key algorithm. if ltb now token.exp then ok token else err value_error;
  decode-encode = λ now payload key algorithm h. unexpired now payload h;
  checkpw = λ password hashed. password == hashed;
}

abbrev settings : Settings
settings = record { secret_key = "k"; algorithm = "HS256"; access_token_expire_minutes = 60 }

abbrev user : ℕ → String → User
user id email = record {
  id = id;
  email = email;
  hashed_password = "secret";
  tenant_id = "acme";
  role = "viewer";
  is_active = true;
  created_at = id;
}

abbrev rows : List User
rows = user 1 "ann" ∷ user 2 "bob" ∷ []

rows-IsAccounts : IsAccounts rows
rows-IsAccounts = (((refl, tt), (tt, tt)), ((refl, tt), (tt, tt)))

-- An identifier is written in unary.
abbrev str_id : ℕ → String
str_id zero = ""
str_id (suc n) = String.◌∷◌ "1" (str_id n)

abbrev size : String → ℕ
size String.[] = 0
size (String.◌∷◌ c s) = suc (size s)

abbrev parse_id : String → Result ℕ
parse_id s = ok (size s)

parse_id-str_id : (n : ℕ) → parse_id (str_id n) ≡ ok n
parse_id-str_id zero = refl
parse_id-str_id (suc n) = ap (λ r. map_ok suc r) (parse_id-str_id n)

abbrev response : TokenResponse TokenPayload
response = create_token list_engine plain settings str_id parse_id 100 (user 2 "bob")

logged_in :
    get_token list_engine plain settings str_id parse_id 100 "bob" "secret" rows ≡ ok response
unfolding get_token authenticate fetch
logged_in = refl

refused :
    get_token list_engine plain settings str_id parse_id 100 "bob" "guess" rows
    ≡ err authentication_error
unfolding get_token authenticate fetch
refused = refl

forbidden :
    require_role list_engine plain settings str_id parse_id ("admin" ∷ []) (user 2 "bob")
    ≡ err authorization_error
unfolding require_role
forbidden = refl

get_current_user-get_token_example :
    (u : User) × (find by_email "bob" rows ≡ some u)
    × (u.is_active ≡ true)
    × (("secret" == u.hashed_password) ≡ true)
    × (get_current_user list_engine plain settings str_id parse_id 200 response.access_token rows
        ≡ ok u)
    × (get_current_user list_engine plain settings str_id parse_id 200 response.access_token []
        ≡ found_or_401 (passing is_on (find by_id u.id [])))
unfolding create_token
get_current_user-get_token_example =
    get_current_user-get_token list_engine plain settings str_id parse_id parse_id-str_id 200 100
      "bob" "secret" rows [] response rows-IsAccounts (tt, tt) logged_in (omega arith)

-- An operator asks for what admins and operators may do, with a token that is still good.
abbrev operator : TokenPayload
operator = record { sub = "11"; tenant_id = "acme"; role = "operator"; exp = 300 }

abbrev staff : List UserRole
staff = UserRole.admin ∷ UserRole.operator ∷ []

let_in :
    authorize list_engine plain settings str_id parse_id 200 staff (some operator) ≡ ok operator
unfolding authorize current_payload decode_access_token check_role is_allowed role_str
let_in = refl

authorize-handle_example :
    Answer list_engine plain settings str_id parse_id 200 staff
      (some operator)
      (authorize list_engine plain settings str_id parse_id 200 staff (some operator))
authorize-handle_example =
    authorize-handle list_engine plain settings str_id parse_id 200 staff (some operator)

let_out : status authorization_error ≡ some 403
unfolding status handle
let_out = refl
