-- ===== src/Store/AdminUserRepository.antt =====
-- backend/app/services/admin_user_repository.py, with the types of
-- backend/app/models/admin_user.py and admin_pagination.py. PostgreSQL's `LIKE … ESCAPE '\'` is a
-- parameter.
pub mod Paging
use python_react_template.Prelude.{
  ℕ, ◌+◌, String, Bool, true, false, not, ◌&&◌, ◌||◌, Option, none, some, List, [], ◌∷◌, ◌++◌, ◌==◌,
  ltb, leb, any, keep, length, map, take, drop, find, contains, str_append, str_eq, update_where,
  if◌then◌else◌,
}
use python_react_template.Store.Rows.{User, UserRole, Db, default_language_code}
use python_react_template.Store.Exec.{
  Env, Exec, World, Result, ok, err, email_already_registered, user_not_found, value_error, pure,
  raise, query, draw, modify, raise_if, ◌>>=◌, ◌>>◌,
}
use python_react_template.Store.AuthRepository.Users.{is_present, set_user, email_taken, has_email}
use python_react_template.Store.AuthorizationRepository.{role_codes_for_user}
use python_react_template.Store.AdminQuery.{escape_like_search}

pub record AdminUserListQuery : Type 0 where
  pub search : Option String
  pub is_active : Option Bool
  pub role : Option String

pub record AdminUserRecord : Type 0 where
  pub user : User
  pub roles : List String

pub record AdminUserDetail : Type 0 where
  pub user : User
  pub roles : List String
  pub permissions : List String

pub record AdminUserUpdateChanges : Type 0 where
  pub email : Option String
  pub password : Option String
  pub is_active : Option Bool
  pub roles : Option (List String)
  pub fields_set : List String

pub record AdminOffsetPageRequest : Type 0 where
  pub offset : ℕ
  pub limit : ℕ

pub record AdminOffsetPageResult : Type 0 where
  pub items : List AdminUserRecord
  pub total : ℕ
  pub offset : ℕ
  pub limit : ℕ

-- `order by registered_at desc, id desc`
abbrev pub is_newer : User → User → Bool
is_newer a b =
    ltb b.registered_at a.registered_at || (a.registered_at == b.registered_at && leb b.id a.id)

unfoldable pub insert_user : User → List User → List User
insert_user a [] = a ∷ []
insert_user a (b ∷ rest) = if is_newer a b then a ∷ b ∷ rest else b ∷ insert_user a rest

unfoldable pub order_users : List User → List User
unfolding insert_user
order_users [] = []
order_users (a ∷ rest) = insert_user a (order_users rest)

unfoldable pub matches_activity : Option Bool → User → Bool
matches_activity none u = true
matches_activity (some true) u = u.is_active
matches_activity (some false) u = not u.is_active

unfoldable pub matches_role : Option String → List UserRole → User → Bool
matches_role none roles u = true
matches_role (some code) roles u =
    any (λ (r : UserRole). r.user_id == u.id && str_eq r.role_code code) roles

-- `_role_codes_for_users`, as the look-up of its dictionary, with `()` for a user it does not have.
unfoldable pub role_codes_for_users : List ℕ → List UserRole → ℕ → List String
role_codes_for_users user_ids roles user_id =
    if any (λ i. i == user_id) user_ids then role_codes_for_user user_id roles else []

-- The rows that the first part of `update_user` takes: live ones.
abbrev pub is_live : ℕ → User → Bool
is_live user_id u = u.id == user_id && is_present u

module _ (env : Env) (like : String → String → Bool) where
  unfoldable pub matches_search : Option String → User → Bool
  unfolding escape_like_search
  matches_search none u = true
  matches_search (some search) u =
      like (env.sql_lower u.email)
        (str_append "%" (str_append (escape_like_search (env.lower search)) "%"))

  -- `_filters`, as one test of a row.
  unfoldable pub filters : AdminUserListQuery → List UserRole → User → Bool
  unfolding matches_search matches_activity matches_role
  filters query roles u =
      is_present u
      && matches_search query.search u
      && matches_activity query.is_active u
      && matches_role query.role roles u

  -- The rows that match, in order: what the two statements share.
  unfoldable pub matching_users : AdminUserListQuery → Db → List User
  unfolding order_users filters keep
  matching_users query db = order_users (keep (filters query db.roles) db.users)

  unfoldable pub list_users :
      {L : Type 0} → AdminUserListQuery → AdminOffsetPageRequest → Exec L AdminOffsetPageResult
  unfolding matching_users role_codes_for_users
  list_users q page = do
    users ← query (λ db. take page.limit (drop page.offset (matching_users q db)))
    total ← query (λ db. length (keep (filters q db.roles) db.users))
    roles_by_user_id ← query (λ db. role_codes_for_users (map (λ (u : User). u.id) users) db.roles)
    pure (record {
      items = map (λ (u : User). record { user = u; roles = roles_by_user_id u.id }) users;
      total = total;
      offset = page.offset;
      limit = page.limit;
    })

module _ {L : Type 0} where
  unfoldable pub get_user : ℕ → Exec L (Option User)
  get_user user_id = query λ db. find (is_live user_id) db.users

-- The assignments of `update_user` to the row, each of which may raise.
unfoldable pub set_email : AdminUserUpdateChanges → User → Result User
set_email changes u =
    if contains "email" changes.fields_set
    then (elim changes.email [
      | none ↦ err value_error
      | some email ↦ ok (record u { email = email })
    ])
    else ok u

unfoldable pub set_password : AdminUserUpdateChanges → Option String → User → Result User
set_password changes password_hash u =
    if contains "password" changes.fields_set
    then (elim password_hash [
      | none ↦ err value_error
      | some hash ↦ ok (record u { password_hash = some hash })
    ])
    else ok u

unfoldable pub set_activity : AdminUserUpdateChanges → User → Result User
set_activity changes u =
    if contains "is_active" changes.fields_set
    then (elim changes.is_active [
      | none ↦ err value_error
      | some is_active ↦ ok (record u { is_active = is_active })
    ])
    else ok u

module _ {L A : Type 0} where
  -- A value or a raise, inside the code that reads and writes.
  abbrev pub lift : Result A → Exec L A
  lift r w = (r, w)

module _ (env : Env) {L : Type 0} where
  unfoldable pub create_user : String → String → Bool → Exec L User
  create_user email password_hash is_active = do
    id ← draw env.uuid4
    registered_at ← draw env.utcnow
    modified_at ← draw env.utcnow
    let user : User = record {
      id = id;
      email = email;
      password_hash = some password_hash;
      is_active = is_active;
      language_code = default_language_code;
      registered_at = registered_at;
      modified_at = modified_at;
      last_logged_in_at = none;
      deleted_at = none;
    }
    raise_if (← query (email_taken env email)) email_already_registered
    modify (λ db. record db { users = db.users ++ user ∷ [] })
    pure user

  -- The row once it is found. The unique index refuses an email that another row has.
  unfoldable pub update_found :
      ℕ → AdminUserUpdateChanges → Option String → Option User → Exec L User
  unfolding set_email set_password set_activity
  update_found user_id changes password_hash none = raise (user_not_found user_id)
  update_found user_id changes password_hash (some u) = do
    a ← lift (set_email changes u)
    b ← lift (set_password changes password_hash a)
    c ← lift (set_activity changes b)
    modified_at ← draw env.utcnow
    let changed : User = record c { modified_at = modified_at }
    raise_if
        (← query (λ db. any (λ r. has_email env changed.email r && not (r.id == user_id)) db.users))
        email_already_registered
    modify (set_user user_id (λ _. changed))
    pure changed

  unfoldable pub update_user : ℕ → AdminUserUpdateChanges → Option String → Exec L User
  unfolding update_found get_user
  update_user user_id changes password_hash = do
    update_found user_id changes password_hash (← get_user user_id)
