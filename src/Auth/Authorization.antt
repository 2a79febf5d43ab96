-- ===== src/Auth/Authorization.antt =====
-- The role catalog of backend/app/config/authorization.py. A `frozenset` is a list without
-- repetitions; the warning about unknown codes is not modelled.
mod Grants
mod Tests
use python_react_template.Prelude.{
  ℕ, String, Bool, true, false, not, Option, none, some, List, [], ◌∷◌, ◌++◌, ◌||◌, ◌&&◌, ◌≡◌, refl,
  arith, str_eq, eq_iff, is_some, contains, contains-keep, contains-dedupe, dedupe, keep,
  if◌then◌else◌,
}

pub record RoleDefinition : Type 0 where
  pub code : String
  pub display_name : String
  pub description : Option String
  pub permission_codes : List String

pub record UserAuthorization : Type 0 where
  pub user_id : ℕ
  pub roles : List String
  pub permissions : List String

abbrev pub default_authorization_definitions : List RoleDefinition
default_authorization_definitions =
    record {
      code = "admin";
      display_name = "Admin";
      description = some "Full administrative access for this template.";
      permission_codes = "admin:access" ∷ [];
    }
    ∷ []

-- `role_catalog_by_code().get(code)`: of two definitions with one code, the later one.
unfoldable pub role_by_code : String → List RoleDefinition → Option RoleDefinition
role_by_code code [] = none
role_by_code code (r ∷ rs) =
    let later = role_by_code code rs in
    if is_some later then later else if str_eq r.code code then some r else none

-- The loop of `permissions_for_role_codes`, over any catalog.
abbrev pub codes_of : Option RoleDefinition → List String
codes_of none = []
codes_of (some r) = r.permission_codes

unfoldable pub all_permissions : List RoleDefinition → List String → List String
unfolding role_by_code
all_permissions catalog [] = []
all_permissions catalog (code ∷ codes) =
    codes_of (role_by_code code catalog) ++ all_permissions catalog codes

unfoldable pub permissions_for_role_codes : List RoleDefinition → List String → List String
unfolding all_permissions dedupe
permissions_for_role_codes catalog role_codes = dedupe (all_permissions catalog role_codes)

unfoldable pub unknown_role_codes : List RoleDefinition → List String → List String
unfolding role_by_code dedupe keep
unknown_role_codes catalog role_codes =
    dedupe (keep (λ code. not (is_some (role_by_code code catalog))) role_codes)

unfoldable pub user_authorization_from_role_codes :
    List RoleDefinition → ℕ → List String → UserAuthorization
unfolding role_by_code dedupe keep permissions_for_role_codes
user_authorization_from_role_codes catalog user_id role_codes =
    let known = keep (λ code. is_some (role_by_code code catalog)) (dedupe role_codes) in
    record {
      user_id = user_id;
      roles = known;
      permissions = permissions_for_role_codes catalog known;
    }

unfoldable pub resolve_user_authorization : ℕ → List String → UserAuthorization
unfolding user_authorization_from_role_codes
resolve_user_authorization user_id role_codes =
    user_authorization_from_role_codes default_authorization_definitions user_id (dedupe role_codes)

-- A permission is held exactly through some assigned role that the catalog has.
unfoldable pub grants : List RoleDefinition → String → List String → Bool
grants catalog permission [] = false
grants catalog permission (code ∷ codes) =
    contains permission (codes_of (role_by_code code catalog)) || grants catalog permission codes
