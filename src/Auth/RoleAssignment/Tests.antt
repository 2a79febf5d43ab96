-- ===== src/Auth/RoleAssignment/Tests.antt =====
-- Role assignment at concrete inputs.
use python_react_template.Prelude.{
  false, not, ◌&&◌, none, some, [], ◌∷◌, ◌≡◌, ◌==◌, refl, contains, if◌then◌else◌, find, set_minus,
  sorted,
}
use python_react_template.Store.Rows.{User, UserRole}
use python_react_template.Store.Exec.{World, integrity_error}
use python_react_template.Store.AuthRepository.Users.{get_user}
use python_react_template.Store.AuthorizationRepository.{
  role_codes_for_user, UserRoleReplacementResult,
}
use python_react_template.Store.AuthorizationRepository.Replacement.{holds}
use python_react_template.Auth.Usecase.Context.{AuthenticatedSessionContext}
use python_react_template.Auth.RoleAssignment.{known_codes, replace_user_roles}
use python_react_template.Auth.RoleAssignment.Outcome.{
  replace_user_roles-assigns, replace_user_roles-atomic,
}
use python_react_template.Auth.Examples.{environment, limiter, alice, alice_session, tables, world}

abbrev actor : AuthenticatedSessionContext
actor = record { user = alice; session = alice_session; roles = []; permissions = [] }

abbrev assigned : UserRoleReplacementResult
assigned = record {
  user_id = 7;
  granted_role_codes = "admin" ∷ [];
  revoked_role_codes = [];
  current_role_codes = "admin" ∷ [];
}

replace_user_roles-assigns_example :
    ((not (contains "admin" known_codes) && contains "admin" ("admin" ∷ [])) ≡ false)
    × ((u : User) × (get_user 7 (tables alice).users ≡ some u) × (u.deleted_at ≡ none))
    × (holds 7 "admin"
          (replace_user_roles environment actor 7 ("admin" ∷ []) none none (world alice)).1.db.roles
        ≡ (if 7 == 7 then contains "admin" ("admin" ∷ []) else holds 7 "admin" []))
unfolding replace_user_roles set_minus find
    python_react_template.Store.AuthorizationRepository.replace_user_roles sorted
    role_codes_for_user
replace_user_roles-assigns_example =
    replace_user_roles-assigns environment actor 7 ("admin" ∷ []) none none (world alice)
      {r = assigned} 7 "admin" refl

-- An administrator whose row is gone, and a user who is an editor.
abbrev stranger : AuthenticatedSessionContext
stranger = record actor { user = record alice { id = 8 } }

abbrev editor : UserRole
editor = record {
  id = 1;
  user_id = 7;
  role_code = "editor";
  assigned_at = 0;
  assigned_by_user_id = none;
}

abbrev edited : World limiter.State
edited = record (world alice) { db = record (tables alice) { roles = editor ∷ [] } }

-- The role is taken away before the grant is refused, and is there again behind the transaction.
replace_user_roles-atomic_example :
    (replace_user_roles environment stranger 7 ("admin" ∷ []) none none edited).1.db ≡ edited.db
unfolding replace_user_roles set_minus find
    python_react_template.Store.AuthorizationRepository.replace_user_roles sorted
    role_codes_for_user
replace_user_roles-atomic_example =
    replace_user_roles-atomic environment stranger 7 ("admin" ∷ []) none none edited
      {e = integrity_error} refl refl
