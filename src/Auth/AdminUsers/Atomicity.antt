-- ===== src/Auth/AdminUsers/Atomicity.antt =====
-- What an administrator's request leaves behind when it raises.
use python_react_template.Prelude.{
  ℕ, ◌≡◌, refl, inl, inr, String, Bool, false, Option, none, some, List, contains, dedupe,
  set_minus, Bool-cases, Option-cases,
}
use python_react_template.Store.Rows.{User}
use python_react_template.Store.Exec.{Env, World, Error, err, transaction, pure, draw, ◌>>=◌}
use python_react_template.Store.Exec.Atomic.{
  IsQuiet, IsAtomic, transaction-IsAtomic, IsAtomic-IsQuiet, >>=-IsQuiet, >>=-IsAtomic,
}
use python_react_template.Store.AuthorizationRepository.{is_empty}
use python_react_template.Store.AdminUserRepository as Repository
use python_react_template.Store.AdminUserRepository.{AdminUserUpdateChanges}
use python_react_template.Auth.Settings.{validate_password_policy}
use python_react_template.Auth.RoleAssignment.{known_codes}
use python_react_template.Auth.Usecase.Context.{AuthenticatedSessionContext}
use python_react_template.Auth.AdminUsers.{
  validate_roles, normalize_and_validate_roles, hash_valid_password, create_with_roles, create_user,
  require_user, delete_found, delete_user, erase_with_audit, get_user, detail_for_user,
}
use python_react_template.Auth.AdminUsers.Changes.{
  changed_roles, changed_password, update_with_roles, update_some, update_user,
}

module _ {L : Type 0} where
  normalize-IsQuiet : (codes : List String) → IsQuiet (normalize_and_validate_roles {L = L} codes)
  unfolding normalize_and_validate_roles validate_roles
  normalize-IsQuiet codes w = elim (Bool-cases (is_empty (set_minus (dedupe codes) known_codes))) [
    | inl e ↦ rw e (refl, refl)
    | inr e ↦ rw e (refl, refl)
  ]

  require_user-IsQuiet : (i : ℕ) (o : Option User) → IsQuiet (require_user {L = L} i o)
  unfolding require_user
  require_user-IsQuiet i none w = (refl, refl)
  require_user-IsQuiet i (some u) w = (refl, refl)

module _ (env : Env) {L : Type 0} where
  hash_valid_password-IsQuiet :
      (password : String) → IsQuiet (hash_valid_password env {L = L} password)
  unfolding hash_valid_password
  hash_valid_password-IsQuiet password w = elim (Bool-cases (validate_password_policy password)) [
    | inl e ↦ rw e (refl, refl)
    | inr e ↦ rw e (refl, refl)
  ]

  pub changed_roles-IsQuiet :
      (changes : AdminUserUpdateChanges) → IsQuiet (changed_roles env {L = L} changes)
  unfolding changed_roles
  changed_roles-IsQuiet changes w = elim (Bool-cases (contains "roles" changes.fields_set)) [
    | inr e ↦ rw e (refl, refl)
    | inl e ↦ elim (Option-cases changes.roles) [
      | inl no_roles ↦ rw (e, no_roles) (refl, refl)
      | inr (codes, some_roles) ↦
          rw (e, some_roles)
            (>>=-IsQuiet (normalize_and_validate_roles codes) (λ normalized. pure (some normalized))
              (normalize-IsQuiet codes) (λ a v. (refl, refl)) w)
    ]
  ]

  pub changed_password-IsQuiet :
      (changes : AdminUserUpdateChanges) → IsQuiet (changed_password env {L = L} changes)
  unfolding changed_password
  changed_password-IsQuiet changes w = elim (Bool-cases (contains "password" changes.fields_set)) [
    | inr e ↦ rw e (refl, refl)
    | inl e ↦ elim (Option-cases changes.password) [
      | inl no_password ↦ rw (e, no_password) (refl, refl)
      | inr (password, some_password) ↦
          rw (e, some_password)
            (>>=-IsQuiet (hash_valid_password env password) (λ hash. pure (some hash))
              (hash_valid_password-IsQuiet password) (λ a v. (refl, refl)) w)
    ]
  ]

  create_user-IsAtomic :
      (actor : AuthenticatedSessionContext) (email password : String) (is_active : Bool)
      (role_codes : List String) (ip ua : Option String)
      → IsAtomic (create_user env {L = L} actor email password is_active role_codes ip ua)
  unfolding create_user
  create_user-IsAtomic actor email password is_active role_codes ip ua =
      >>=-IsAtomic (normalize_and_validate_roles role_codes) _ (normalize-IsQuiet role_codes)
        (λ codes.
          >>=-IsAtomic (hash_valid_password env password) _ (hash_valid_password-IsQuiet password)
            (λ hash. transaction-IsAtomic (
              create_with_roles env actor (env.lower (env.strip email)) hash is_active codes ip
                ua)))

  get_user-IsQuiet : (i : ℕ) → IsQuiet (get_user {L = L} i)
  unfolding get_user detail_for_user Repository.get_user
  get_user-IsQuiet i =
      >>=-IsQuiet (Repository.get_user i) (λ o. require_user i o >>= detail_for_user)
        (λ v. (refl, refl))
        (λ o.
          >>=-IsQuiet (require_user i o) detail_for_user (require_user-IsQuiet i o)
            (λ u v. (refl, refl)))

  update_some-IsAtomic :
      (actor : AuthenticatedSessionContext) (i : ℕ) (changes : AdminUserUpdateChanges)
      (ip ua : Option String)
      → IsAtomic (update_some env {L = L} actor i changes ip ua)
  unfolding update_some
  update_some-IsAtomic actor i changes ip ua =
      >>=-IsAtomic (changed_roles env changes) _ (changed_roles-IsQuiet changes) (λ roles.
        >>=-IsAtomic (changed_password env changes) _ (changed_password-IsQuiet changes) (λ hash.
          >>=-IsAtomic (draw env.utcnow)
            (λ revoked_at.
              transaction (update_with_roles env actor i changes hash roles revoked_at ip ua))
            (λ v. (refl, refl))
            (λ revoked_at.
              transaction-IsAtomic
                (update_with_roles env actor i changes hash roles revoked_at ip ua))))

  update_user-IsAtomic :
      (actor : AuthenticatedSessionContext) (i : ℕ) (changes : AdminUserUpdateChanges)
      (ip ua : Option String)
      → IsAtomic (update_user env {L = L} actor i changes ip ua)
  unfolding update_user
  update_user-IsAtomic actor i changes ip ua w e outside =
      elim (Bool-cases (is_empty changes.fields_set)) [
        | inl nothing ↦ rw nothing (IsAtomic-IsQuiet (get_user i) (get_user-IsQuiet i) w e outside)
        | inr something ↦ rw something (update_some-IsAtomic actor i changes ip ua w e outside)
      ]

  delete_found-IsAtomic :
      (actor : AuthenticatedSessionContext) (ip ua : Option String) (u : User)
      → IsAtomic (delete_found env {L = L} actor ip ua u)
  unfolding delete_found
  delete_found-IsAtomic actor ip ua u =
      >>=-IsAtomic (draw env.utcnow)
        (λ deleted_at. transaction (erase_with_audit env actor u.id deleted_at ip ua))
        (λ v. (refl, refl))
        (λ deleted_at. transaction-IsAtomic (erase_with_audit env actor u.id deleted_at ip ua))

  delete_user-IsAtomic :
      (actor : AuthenticatedSessionContext) (i : ℕ) (ip ua : Option String)
      → IsAtomic (delete_user env {L = L} actor i ip ua)
  unfolding delete_user Repository.get_user
  delete_user-IsAtomic actor i ip ua =
      >>=-IsAtomic (Repository.get_user i) (λ o. require_user i o >>= delete_found env actor ip ua)
        (λ v. (refl, refl))
        (λ o.
          >>=-IsAtomic (require_user i o) (delete_found env actor ip ua) (require_user-IsQuiet i o)
            (delete_found-IsAtomic actor ip ua))

  -- An administrator's `update_user` that raises, outside a transaction, leaves every table as it
  -- was, audit logs included.
  pub update_user-atomic :
      (actor : AuthenticatedSessionContext) (i : ℕ) (changes : AdminUserUpdateChanges)
      (ip ua : Option String) (w : World L) {e : Error}
      → w.in_transaction ≡ false
      → (update_user env actor i changes ip ua w).0 ≡ err e
      → (update_user env actor i changes ip ua w).1.db ≡ w.db
  update_user-atomic actor i changes ip ua w {e} = update_user-IsAtomic actor i changes ip ua w e

  -- So does an administrator's `create_user` or `delete_user`.
  pub create_user-atomic :
      (actor : AuthenticatedSessionContext) (email password : String) (is_active : Bool)
      (role_codes : List String) (ip ua : Option String) (w : World L) {e : Error}
      → w.in_transaction ≡ false
      → (create_user env actor email password is_active role_codes ip ua w).0 ≡ err e
      → (create_user env actor email password is_active role_codes ip ua w).1.db ≡ w.db
  create_user-atomic actor email password is_active role_codes ip ua w {e} =
      create_user-IsAtomic actor email password is_active role_codes ip ua w e

  pub delete_user-atomic :
      (actor : AuthenticatedSessionContext) (i : ℕ) (ip ua : Option String) (w : World L)
      {e : Error}
      → w.in_transaction ≡ false
      → (delete_user env actor i ip ua w).0 ≡ err e
      → (delete_user env actor i ip ua w).1.db ≡ w.db
  delete_user-atomic actor i ip ua w {e} = delete_user-IsAtomic actor i ip ua w e
