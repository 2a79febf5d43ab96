-- ===== src/Auth/Catalog.antt =====
-- The checks and the listings of the catalogs of backend/app/config/authorization.py.
use Prim.Native.String.{count}
use python_react_template.Prelude.{
  ℕ, String, Bool, true, false, not, ◌&&◌, Option, some, List, [], ◌∷◌, ◌++◌, map, str_eq,
  str_append, str_leb, contains, dedupe, keep, sorted, set_minus, count_if, ltb, if◌then◌else◌,
}
use python_react_template.Auth.Authorization.{RoleDefinition, default_authorization_definitions}

pub record PermissionDefinition : Type 0 where
  pub code : String
  pub display_name : String
  pub description : Option String

pub record RoleWithPermissions : Type 0 where
  pub code : String
  pub display_name : String
  pub description : Option String
  pub permissions : List String

abbrev pub default_authorization_permissions : List PermissionDefinition
default_authorization_permissions =
    record {
      code = "admin:access";
      display_name = "Admin access";
      description = some "Access administrative endpoints.";
    }
    ∷ []

abbrev pub permission_code_max_length : ℕ
permission_code_max_length = 120

abbrev pub role_code_max_length : ℕ
role_code_max_length = 64

-- `", ".join(codes)`
unfoldable pub join_codes : List String → String
join_codes [] = ""
join_codes (code ∷ []) = code
join_codes (code ∷ next ∷ codes) = str_append code (str_append ", " (join_codes (next ∷ codes)))

-- `sorted(code for code, count in counts.items() if count > 1)`, of the counted codes.
unfoldable pub duplicates : List String → List String
unfolding sorted dedupe keep
duplicates codes = sorted (keep (λ code. ltb 1 (count_if (str_eq code) codes)) (dedupe codes))

unfoldable pub oversized : ℕ → List String → List String
unfolding sorted dedupe keep
oversized max_length codes =
    sorted (keep (λ code. not (str_eq code "") && ltb max_length (count code)) (dedupe codes))

-- `if codes: errors.append(…)`
unfoldable pub error_of_codes : String → List String → List String
unfolding join_codes
error_of_codes message [] = []
error_of_codes message (code ∷ codes) = str_append message (join_codes (code ∷ codes)) ∷ []

-- `if test: errors.append(…)`
abbrev pub error_if : Bool → String → List String
error_if test message = if test then message ∷ [] else []

abbrev pub is_empty_catalog : {A : Type 0} → List A → Bool
is_empty_catalog [] = true
is_empty_catalog (entry ∷ entries) = false

-- The loop over the roles, with the codes of the permissions.
unfoldable pub missing_permission_errors : List String → List RoleDefinition → List String
unfolding set_minus sorted error_of_codes
missing_permission_errors permission_codes [] = []
missing_permission_errors permission_codes (role ∷ roles) =
    error_of_codes (str_append "Role " (str_append role.code " references unknown permissions: "))
      (sorted (set_minus role.permission_codes permission_codes))
    ++ missing_permission_errors permission_codes roles

-- The errors of the codes: doubled, absent, empty and too long ones.
unfoldable pub code_errors :
    List String → List String → List PermissionDefinition → List RoleDefinition → List String
unfolding duplicates oversized error_of_codes contains
code_errors permission_codes role_codes permissions roles =
    error_of_codes "Duplicate permission codes: " (duplicates permission_codes)
    ++ error_of_codes "Duplicate role codes: " (duplicates role_codes)
    ++ error_if (is_empty_catalog permissions) "Permission catalog must not be empty."
    ++ error_if (is_empty_catalog roles) "Role catalog must not be empty."
    ++ error_if (contains "" permission_codes) "Permission code must not be empty."
    ++ error_if (contains "" role_codes) "Role code must not be empty."
    ++ map (str_append "Permission code exceeds 120 characters: ")
        (oversized permission_code_max_length permission_codes)
    ++ map (str_append "Role code exceeds 64 characters: ")
        (oversized role_code_max_length role_codes)

unfoldable pub authorization_config_errors :
    List PermissionDefinition → List RoleDefinition → List String
unfolding code_errors missing_permission_errors
authorization_config_errors permissions roles =
    let permission_codes = map (λ (p : PermissionDefinition). p.code) permissions in
    code_errors permission_codes (map (λ (r : RoleDefinition). r.code) roles) permissions roles
    ++ missing_permission_errors permission_codes roles

-- `sorted(roles, key=lambda role: role.code)`, which keeps the order of equal codes.
unfoldable pub insert_role : RoleDefinition → List RoleDefinition → List RoleDefinition
insert_role role [] = role ∷ []
insert_role role (next ∷ roles) =
    if str_leb role.code next.code then role ∷ next ∷ roles else next ∷ insert_role role roles

unfoldable pub roles_by_code : List RoleDefinition → List RoleDefinition
unfolding insert_role
roles_by_code [] = []
roles_by_code (role ∷ roles) = insert_role role (roles_by_code roles)

unfoldable pub role_with_permissions : RoleDefinition → RoleWithPermissions
unfolding sorted dedupe
role_with_permissions role = record {
  code = role.code;
  display_name = role.display_name;
  description = role.description;
  permissions = sorted (dedupe role.permission_codes);
}

unfoldable pub roles_with_permissions : List RoleWithPermissions
unfolding roles_by_code role_with_permissions
roles_with_permissions = map role_with_permissions (roles_by_code default_authorization_definitions)
