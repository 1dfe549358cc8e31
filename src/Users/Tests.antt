-- ===== src/Users/Tests.antt =====
-- Two accounts, and the theorems at them.
use dox.Prelude.{ℕ, ◌≡◌, refl, true, String, List, [], ◌∷◌, none, some, ℕ_eq, String_eq}
use dox.Result.{ok, err, conflict}
use dox.Enums.{UserRole}
use dox.Sql.{fetch, add}
use dox.Sql.Rows.{find}
use dox.Sql.Engine.{list_engine}
use dox.Users.{
  User, UserCreate, UserUpdate, clash, create_user, create_if_free, find_email, new_user,
}
use dox.Users.Accounts.{by_email, IsAccounts, create_user-IsAccounts}

abbrev hash : String → String
hash password = "hash"

abbrev user : ℕ → String → User
user id email = record {
  id = id;
  email = email;
  hashed_password = "old";
  tenant_id = "acme";
  role = "viewer";
  is_active = true;
  created_at = id;
}

abbrev rows : List User
rows = user 1 "ann" ∷ user 2 "bob" ∷ []

rows-IsAccounts : IsAccounts rows
rows-IsAccounts = (((refl, tt), (tt, tt)), ((refl, tt), (tt, tt)))

abbrev request : UserCreate
request = record { email = "bob"; password = "secret"; tenant_id = "acme"; role = UserRole.viewer }

refused : create_user list_engine hash 3 9 request rows ≡ (err conflict, rows)
unfolding create_user find_email create_if_free fetch
refused = refl

create_user-IsAccounts_example :
    IsAccounts (create_user list_engine hash 3 9 request rows).1
    × (find_email list_engine hash "bob" rows ≡ ok (find by_email "bob" rows))
    × (create_user list_engine hash 3 9 request rows ≡ elim (find by_email "bob" rows) [
      | some taken ↦ (err conflict, rows)
      | none ↦ add clash (new_user list_engine hash 3 9 request) rows
    ])
create_user-IsAccounts_example =
    create_user-IsAccounts list_engine hash 3 9 request rows rows-IsAccounts

abbrev unchanged : UserUpdate
unchanged = record { role = none; is_active = some true }
