-- ===== src/Store/AuthRepository/Users/Tables.antt =====
-- The user table under each write.
use python_react_template.Prelude.{
  ℕ, ◌≡◌, ◌≢◌, inl, inr, arith, Bool, none, some, List, [], ◌∷◌, ◌==◌, find, update_where,
  Option-cases,
}
use python_react_template.Store.Rows.{User}
use python_react_template.Store.Exec.{World, ok}
use python_react_template.Store.AuthRepository.Users.{get_user, record_user_login}

pub id-get_user : (i : ℕ) (users : List User) {u : User} → get_user i users ≡ some u → u.id ≡ i
unfolding get_user find
id-get_user i [] e = cc
id-get_user i (r ∷ users) {u} e = ground (arith, id-get_user i users {u = u})

get_user-login :
    (i t : ℕ) (users : List User) {u : User}
    → get_user i users ≡ some u
    → get_user i
        (update_where (λ r. r.id == i) (λ r. record r { last_logged_in_at = some t }) users)
      ≡ some (record u { last_logged_in_at = some t })
unfolding get_user find update_where
get_user-login i t [] e = cc
get_user-login i t (r ∷ users) {u} e = ground (arith, get_user-login i t users {u = u})

module _ {L : Type 0} where
  -- A login that is recorded is that of a user who is there and not deleted.
  pub record_user_login-ok :
      (i t : ℕ) (w : World L) {v : User}
      → (record_user_login i t w).0 ≡ ok v
      → (u : User) × (get_user i w.db.users ≡ some u)
        × (v ≡ record u { last_logged_in_at = some t })
        × (u.deleted_at ≡ none)
        × (get_user i (record_user_login i t w).1.db.users ≡ some v)
        × ((record_user_login i t w).1.db.sessions ≡ w.db.sessions)
        × ((record_user_login i t w).1.db.roles ≡ w.db.roles)
  unfolding record_user_login
  record_user_login-ok i t w {v} h = elim (Option-cases (get_user i w.db.users)) [
    | inl gone ↦ absurd (ground arith)
    | inr (u, there) ↦ (
      u,
      there,
      ground arith,
      ground arith,
      ground (arith, get_user-login i t w.db.users there),
      ground arith,
      ground arith,
    )
  ]

-- What the primary key of `users` guarantees.
abbrev pub HasUniqueIds : List User → Type 0
HasUniqueIds [] = Unit
HasUniqueIds (u ∷ users) = (get_user u.id users ≡ none) × HasUniqueIds users

get_user-find :
    (p : User → Bool) (users : List User) {u : User}
    → find p users ≡ some u
    → get_user u.id users ≢ none
unfolding get_user find
get_user-find p [] e n = cc
get_user-find p (r ∷ users) {u} e n = ground (arith, get_user-find p users {u = u})

-- A user who is found by anything is found by the identifier.
pub get_user_unique :
    (p : User → Bool) (users : List User) {u : User}
    → HasUniqueIds users
    → find p users ≡ some u
    → get_user u.id users ≡ some u
unfolding get_user find
get_user_unique p [] unique e = cc
get_user_unique p (r ∷ users) {u} unique e =
    ground
      (arith, get_user_unique p users {u = u} unique.1, get_user-find p users {u = u}, unique.0)
