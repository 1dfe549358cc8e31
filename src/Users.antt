-- ===== src/Users.antt =====
-- services/users/service.py and common/models/user.py: the accounts, one for each email. The table is
-- as committed. `hash_password`, which calls the password library, is a parameter.
pub mod Accounts
mod Tests
use mathlib.Core.Option
use dox.Prelude.{
  ℕ, Bool, true, false, ◌&&◌, ◌||◌, not, String, Option, none, some, List, ◌==◌, ℕ_eq, String_eq,
}
use dox.Result.{Result, conflict, Exec, ◌>>=◌, reads, raise}
use dox.Enums.{UserRole, role_str}
use dox.Sql.{Sql, fetch, get, add, change, page, or_not_found}

pub record User : Type 0 where
  pub id : ℕ
  pub email : String
  pub hashed_password : String
  pub tenant_id : String
  pub role : String
  pub is_active : Bool
  pub created_at : ℕ

pub record UserCreate : Type 0 where
  pub email : String
  pub password : String
  pub tenant_id : String
  pub role : UserRole

-- A field that is not given is left as it is.
pub record UserUpdate : Type 0 where
  pub role : Option UserRole
  pub is_active : Option Bool

-- The primary key, and `unique=True` of `email`.
abbrev pub clash : User → User → Bool
clash u r = r.id == u.id || r.email == u.email

abbrev or_kept {ℓ} : {A : Type ℓ} → Option A → A → A
or_kept none old = old
or_kept (some new) old = new

unfoldable pub patched : UserUpdate → User → User
unfolding role_str
patched u user = record user {
  role = or_kept (Option.map role_str u.role) user.role;
  is_active = or_kept u.is_active user.is_active;
}

abbrev pub rehashed : String → User → User
rehashed hash user = record user { hashed_password = hash }

module _ (sql : Sql) (hash_password : String → String) where
  unfoldable pub new_user : ℕ → ℕ → UserCreate → User
  unfolding role_str
  new_user id created_at request = record {
    id = id;
    email = request.email;
    hashed_password = hash_password request.password;
    tenant_id = request.tenant_id;
    role = role_str request.role;
    is_active = true;
    created_at = created_at;
  }

  unfoldable pub find_email : String → List User → Result (Option User)
  unfolding fetch
  find_email email rows = fetch sql (λ u. u.email == email) rows

  -- `create`, once the query has answered.
  unfoldable pub create_if_free : ℕ → ℕ → UserCreate → Option User → Exec (List User) User
  unfolding add new_user
  create_if_free id created_at request none = add clash (new_user id created_at request)
  create_if_free id created_at request (some existing) = raise conflict

  unfoldable pub create_user : ℕ → ℕ → UserCreate → Exec (List User) User
  unfolding find_email create_if_free
  create_user id created_at request = do
    existing ← reads (find_email request.email)
    create_if_free id created_at request existing

  unfoldable pub get_user : ℕ → List User → Result User
  unfolding get
  get_user user_id = get sql (λ u. u.id) user_id

  unfoldable pub get_by_email : String → List User → Result User
  unfolding find_email
  get_by_email email rows = or_not_found (find_email email rows)

  unfoldable pub list_users : String → Bool → ℕ → ℕ → List User → List User
  list_users tenant active_only limit offset rows = page limit offset (
      sql.order_desc User (λ u. u.created_at)
        (sql.select User (λ u. u.tenant_id == tenant && (not active_only || u.is_active)) rows))

  unfoldable pub update_user : ℕ → UserUpdate → Exec (List User) User
  unfolding change patched
  update_user user_id u = change sql (λ u. u.id) user_id (patched u)

  unfoldable pub deactivate_user : ℕ → Exec (List User) User
  unfolding change
  deactivate_user user_id = change sql (λ u. u.id) user_id (λ u. record u { is_active = false })

  unfoldable pub change_password : ℕ → String → Exec (List User) User
  unfolding change
  change_password user_id password =
      change sql (λ u. u.id) user_id (rehashed (hash_password password))
