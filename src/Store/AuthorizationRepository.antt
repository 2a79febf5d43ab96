-- ===== src/Store/AuthorizationRepository.antt =====
-- backend/app/services/authorization_repository.py. Role codes are ordered by code points, where
-- the database orders them by its collation.
pub mod Replacement
use python_react_template.Prelude.{
  ℕ, ◌+◌, String, Bool, true, false, not, ◌&&◌, ◌||◌, Option, none, some, List, [], ◌∷◌, ◌++◌, ◌==◌,
  map, keep, any, count_if, update_where, str_eq, contains, dedupe, sorted, set_minus, length,
  if◌then◌else◌,
}
use python_react_template.Store.Rows.{User, UserRole, Db}
use python_react_template.Store.Exec.{
  Env, Exec, World, Result, ok, err, value_error, integrity_error, pure, raise, query, draw, modify,
  raise_if, ◌>>=◌, ◌>>◌,
}
use python_react_template.Store.AuthRepository.Users.{set_user}

-- `UserRoleReplacementResult`
pub record UserRoleReplacementResult : Type 0 where
  pub user_id : ℕ
  pub granted_role_codes : List String
  pub revoked_role_codes : List String
  pub current_role_codes : List String

-- `_role_codes_for_user`
unfoldable pub role_codes_for_user : ℕ → List UserRole → List String
unfolding sorted keep
role_codes_for_user user_id roles =
    sorted
      (map (λ (r : UserRole). r.role_code) (keep (λ (r : UserRole). r.user_id == user_id) roles))

abbrev pub is_empty : List String → Bool
is_empty [] = true
is_empty (_ ∷ _) = false

module _ {L : Type 0} where
  unfoldable pub get_user_role_codes : ℕ → Exec L (List String)
  get_user_role_codes user_id = query λ db. role_codes_for_user user_id db.roles

  unfoldable pub delete_unknown_role_assignments : List String → Exec L ℕ
  delete_unknown_role_assignments known_role_codes = do
    raise_if (is_empty known_role_codes) value_error
    let unknown = λ (r : UserRole). not (contains r.role_code known_role_codes)
    removed ← query (λ db. count_if unknown db.roles)
    modify (λ db. record db { roles = keep (λ r. not (unknown r)) db.roles })
    pure removed

  unfoldable pub delete_roles_for_user : ℕ → Exec L ℕ
  delete_roles_for_user user_id = do
    removed ← query (λ db. count_if (λ (r : UserRole). r.user_id == user_id) db.roles)
    modify
        (λ db. record db { roles = keep (λ (r : UserRole). not (r.user_id == user_id)) db.roles })
    pure removed

-- `users` has the rows that the foreign keys `user_id` and `assigned_by_user_id` of `user_roles`
-- refer to.
unfoldable pub has_references : ℕ → Option ℕ → List User → Bool
unfolding any
has_references user_id none users = any (λ (u : User). u.id == user_id) users
has_references user_id (some assigned_by) users =
    any (λ (u : User). u.id == user_id) users && any (λ (u : User). u.id == assigned_by) users

-- The delete and the update of `replace_user_roles`.
abbrev pub revoke_codes : ℕ → List String → List UserRole → List UserRole
revoke_codes user_id revoked roles =
    keep (λ (r : UserRole). not (r.user_id == user_id && contains r.role_code revoked)) roles

module _ (env : Env) {L : Type 0} where
  -- `for code in granted: session.add(UserRole(...))`
  unfoldable pub add_roles : ℕ → ℕ → Option ℕ → List String → Exec L Unit
  add_roles user_id changed_at assigned_by_user_id [] w = (ok tt, w)
  add_roles user_id changed_at assigned_by_user_id (code ∷ codes) w =
      let id = env.uuid4 w.calls in
      let added : UserRole = record {
        id = id;
        user_id = user_id;
        role_code = code;
        assigned_at = changed_at;
        assigned_by_user_id = assigned_by_user_id;
      } in
      add_roles user_id changed_at assigned_by_user_id codes
        (record w { db = record w.db { roles = w.db.roles ++ added ∷ [] }; calls = w.calls + 1 })

  -- The inserts of new rows reach the database behind the delete. The callers, manage.py too, run
  -- it in a transaction, which undoes the delete where an insert breaks a foreign key.
  unfoldable pub replace_user_roles : ℕ → List String → Option ℕ → Exec L UserRoleReplacementResult
  unfolding add_roles has_references
  replace_user_roles user_id role_codes assigned_by_user_id = do
    let target_codes = dedupe role_codes
    existing ← query (λ db. role_codes_for_user user_id db.roles)
    let revoked = sorted (set_minus existing target_codes)
    let granted = sorted (set_minus target_codes existing)
    changed_at ← draw env.utcnow
    modify (λ db. record db {
      roles = if is_empty revoked then db.roles else revoke_codes user_id revoked db.roles;
    })
    broken ← query (λ db. not (has_references user_id assigned_by_user_id db.users))
    raise_if (not (is_empty granted) && broken) integrity_error
    add_roles user_id changed_at assigned_by_user_id granted
    modify (λ db.
        if is_empty granted && is_empty revoked
        then db
        else set_user user_id (λ u. record u { modified_at = changed_at }) db)
    pure (record {
      user_id = user_id;
      granted_role_codes = granted;
      revoked_role_codes = revoked;
      current_role_codes = sorted target_codes;
    })
