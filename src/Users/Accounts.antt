-- ===== src/Users/Accounts.antt =====
-- services/users/service.py: the keys of the accounts, and what a new account and a new password
-- change.
use dox.Prelude.{
  ℕ, ◌≡◌, refl, false, String, none, some, List, arith, if◌then◌else◌, inl, inr, ◌==◌, ℕ_eq,
  String_eq, eq_iff, nat_eq_iff, Option-cases,
}
use dox.Result.{ok, err, conflict, map_ok}
use dox.Sql.{Sql, add}
use dox.Sql.Rows.{Distinct, find, add-Distinct}
use dox.Sql.Fetch.{fetch-find}
use dox.Sql.Change.{change-Distinct, get-change}
use dox.Users.{
  User, rehashed, UserCreate, UserUpdate, clash, patched, new_user, find_email, create_if_free,
  create_user, get_user, update_user, deactivate_user, change_password,
}

abbrev pub by_id : User → ℕ
by_id u = u.id

abbrev pub by_email : User → String
by_email u = u.email

-- The keys that the model declares.
abbrev pub IsAccounts : List User → Type 0
IsAccounts rows = Distinct by_id rows × Distinct by_email rows

module _ (sql : Sql) (hash_password : String → String) where
  add_user-IsAccounts :
      (u : User) (rows : List User) → IsAccounts rows → IsAccounts (add clash u rows).1
  add_user-IsAccounts u rows (ids, emails) = (
    add-Distinct clash by_id
        (λ x y apart. ground (arith, apart, nat_eq_iff x.id y.id, nat_eq_iff y.id x.id)) u rows ids,
    add-Distinct clash by_email
        (λ x y apart. ground (arith, apart, eq_iff x.email y.email, eq_iff y.email x.email)) u rows
        emails,
  )

  -- Over accounts with unique keys: an email that has an account is refused with ConflictError and
  -- nothing is written; in any case the keys stay unique.
  pub create_user-IsAccounts :
      (id now : ℕ) (request : UserCreate) (rows : List User)
      → IsAccounts rows
      → IsAccounts (create_user sql hash_password id now request rows).1
        × (find_email sql hash_password request.email rows ≡ ok (find by_email request.email rows))
        × (create_user sql hash_password id now request rows
            ≡ elim (find by_email request.email rows) [
              | some taken ↦ (err conflict, rows)
              | none ↦ add clash (new_user sql hash_password id now request) rows
            ])
  unfolding create_user find_email create_if_free
  create_user-IsAccounts id now request rows (ids, emails) =
      let asked = fetch-find sql by_email request.email rows emails in
      elim (Option-cases (find by_email request.email rows)) [
        | inl free ↦
            rw (asked, free)
              (
                add_user-IsAccounts (new_user sql hash_password id now request) rows (ids, emails),
                refl,
                refl,
              )
        | inr (u, taken) ↦ rw (asked, taken) ((ids, emails), refl, refl)
      ]

  -- With unique identifiers, reading an account after its password was changed shows the hash of the
  -- new password and nothing else changed, and every other account as before.
  pub get_user-change_password :
      (k j : ℕ) (password : String) (rows : List User)
      → Distinct by_id rows
      → get_user sql hash_password j (change_password sql hash_password k password rows).1 ≡ (
          if k == j
          then map_ok (rehashed (hash_password password)) (get_user sql hash_password k rows)
          else get_user sql hash_password j rows)
  unfolding get_user change_password
  get_user-change_password k j password rows d =
      get-change sql by_id k j (rehashed (hash_password password)) rows (λ r. refl) d

  -- An update, a deactivation and a change of password keep the keys of the accounts unique.
  pub update_user-IsAccounts :
      (k : ℕ) (u : UserUpdate) (password : String) (rows : List User)
      → IsAccounts rows
      → IsAccounts (update_user sql hash_password k u rows).1
        × IsAccounts (deactivate_user sql hash_password k rows).1
        × IsAccounts (change_password sql hash_password k password rows).1
  unfolding update_user deactivate_user change_password patched
  update_user-IsAccounts k u password rows (ids, emails) =
      let off : User → User = λ r. record r { is_active = false } in
      let hashed : User → User = rehashed (hash_password password) in
      (
        (
          change-Distinct sql by_id by_id k (patched u) rows (λ r. refl) (λ r. refl) ids ids,
          change-Distinct sql by_id by_email k (patched u) rows (λ r. refl) (λ r. refl) ids emails,
        ),
        (
          change-Distinct sql by_id by_id k off rows (λ r. refl) (λ r. refl) ids ids,
          change-Distinct sql by_id by_email k off rows (λ r. refl) (λ r. refl) ids emails,
        ),
        (
          change-Distinct sql by_id by_id k hashed rows (λ r. refl) (λ r. refl) ids ids,
          change-Distinct sql by_id by_email k hashed rows (λ r. refl) (λ r. refl) ids emails,
        ),
      )
