-- ===== src/Auth/AdminUsers/Tests.antt =====
-- Administration of users at concrete inputs.
use python_react_template.Prelude.{
  String, Bool, true, false, not, ◌&&◌, ◌≡◌, ◌==◌, ◌-◌, ◌+◌, ◌++◌, min, length, map, take, drop,
  inr, refl, none, some, [], ◌∷◌, any, keep, find, contains, count_if, update_where, sorted,
  set_minus,
}
use python_react_template.Store.Rows.{User}
use python_react_template.Store.Exec.{integrity_error}
use python_react_template.Store.AuthRepository.Sessions.{is_active_at}
use python_react_template.Store.AuthorizationRepository.{role_codes_for_user}
use python_react_template.Store.AdminUserRepository.{
  AdminUserListQuery, AdminUserUpdateChanges, AdminUserDetail, AdminUserRecord, is_live,
  matching_users,
}
use python_react_template.Store.AdminUserRepository.Paging.{
  items_of, total_of, page, with_roles, list_users-pages,
}
use python_react_template.Auth.Usecase.Context.{AuthenticatedSessionContext}
use python_react_template.Auth.AccountDeletion.Erasure.{IsErased}
use python_react_template.Auth.AdminUsers.{delete_user}
use python_react_template.Auth.AdminUsers.Changes.{update_user}
use python_react_template.Auth.AdminUsers.Deletion.{delete_user-erases}
use python_react_template.Auth.AdminUsers.Update.{update_user-ends_sessions}
use python_react_template.Auth.AdminUsers.Atomicity.{update_user-atomic}
use python_react_template.Auth.Examples.{environment, alice, alice_session, tables, world}

abbrev actor : AuthenticatedSessionContext
actor = record { user = alice; session = alice_session; roles = []; permissions = [] }

delete_user-erases_example :
    ((u : User) × (find (is_live 7) (tables alice).users ≡ some u))
    × IsErased 7 (tables alice) (delete_user environment actor 7 none none (world alice)).1.db
unfolding delete_user find count_if update_where
    python_react_template.Store.AdminUserRepository.get_user
delete_user-erases_example = delete_user-erases environment actor 7 none none (world alice) refl

abbrev inactive : AdminUserUpdateChanges
inactive = record {
  email = none;
  password = none;
  is_active = some false;
  roles = none;
  fields_set = "is_active" ∷ [];
}

abbrev detail : AdminUserDetail
detail = record {
  user = record alice { is_active = false; modified_at = 100001 };
  roles = [];
  permissions = [];
}

update_user-ends_sessions_example :
    (any
        (λ s. s.user_id == 7 && is_active_at 5 s)
        (update_user environment actor 7 inactive none none (world alice)).1.db.sessions
      ≡ false)
    × (keep
          (λ s. not (s.user_id == 7))
          (update_user environment actor 7 inactive none none (world alice)).1.db.sessions
        ≡ keep (λ s. not (s.user_id == 7)) (tables alice).sessions)
unfolding update_user find sorted role_codes_for_user contains any
    python_react_template.Store.AdminUserRepository.update_user
    python_react_template.Auth.Authorization.resolve_user_authorization
update_user-ends_sessions_example =
    update_user-ends_sessions environment actor 7 inactive none none (world alice) 5 {d = detail}
      (inr (refl, refl)) refl

-- An administrator whose row is gone.
abbrev stranger : AuthenticatedSessionContext
stranger = record actor { user = record alice { id = 8 } }

abbrev promoted : AdminUserUpdateChanges
promoted = record {
  email = none;
  password = none;
  is_active = some false;
  roles = some ("admin" ∷ []);
  fields_set = "is_active" ∷ "roles" ∷ [];
}

-- The activity is set before the grant is refused, and is what it was behind the transaction.
update_user-atomic_example :
    (update_user environment stranger 7 promoted none none (world alice)).1.db ≡ tables alice
unfolding update_user contains find sorted role_codes_for_user set_minus any update_where
    python_react_template.Store.AdminUserRepository.update_user
    python_react_template.Store.AuthorizationRepository.replace_user_roles
update_user-atomic_example =
    update_user-atomic environment stranger 7 promoted none none (world alice) {e = integrity_error}
      refl refl

abbrev everyone : AdminUserListQuery
everyone = record { search = none; is_active = none; role = none }

-- A matcher that lets every text through.
abbrev any_like : String → String → Bool
any_like text pattern = true

list_users-pages_example :
    (length (items_of (page environment any_like everyone 0 1 (world alice)))
      ≡ min 1 (total_of (page environment any_like everyone 0 1 (world alice)) - 0))
    × (items_of (page environment any_like everyone 0 1 (world alice))
          ++ items_of (page environment any_like everyone (0 + 1) 1 (world alice))
        ≡ items_of (page environment any_like everyone 0 (1 + 1) (world alice)))
    × (items_of (page environment any_like everyone 0 1 (world alice))
        ≡ map
            (with_roles [])
            (take 1 (drop 0 (matching_users environment any_like everyone (tables alice)))))
list_users-pages_example = list_users-pages environment any_like everyone 0 1 1 (world alice)
