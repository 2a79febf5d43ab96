-- ===== src/Auth/CatalogErrors.antt =====
-- What catalogs without errors are.
use python_react_template.Prelude.{
  ◌≡◌, refl, ap, arith, String, true, List, [], ◌∷◌, ◌++◌, map, contains, All, count_if, sorted,
  set_minus, contains-sorted, contains-set_minus,
}
use python_react_template.Auth.Authorization.{RoleDefinition, default_authorization_definitions}
use python_react_template.Auth.Catalog.{
  PermissionDefinition, default_authorization_permissions, error_of_codes,
  missing_permission_errors, code_errors, authorization_config_errors,
}

-- The catalogs of the program have no errors.
default-authorization_config_errors :
    authorization_config_errors default_authorization_permissions default_authorization_definitions
    ≡ []
unfolding authorization_config_errors count_if
default-authorization_config_errors = refl

right-nil : {A : Type 0} (xs ys : List A) → xs ++ ys ≡ [] → ys ≡ []
right-nil [] ys h = h
right-nil (x ∷ xs) ys h = absurd cc

left-nil : {A : Type 0} (xs ys : List A) → xs ++ ys ≡ [] → xs ≡ []
left-nil [] ys h = refl
left-nil (x ∷ xs) ys h = absurd cc

none-missing :
    (message : String) (codes : List String) → error_of_codes message codes ≡ [] → codes ≡ []
unfolding error_of_codes
none-missing message [] h = refl
none-missing message (code ∷ codes) h = absurd cc

-- A role's permissions are among the codes.
abbrev pub IsGrounded : List String → RoleDefinition → Type 0
IsGrounded codes role =
    (code : String) → contains code role.permission_codes ≡ true → contains code codes ≡ true

missing_permission_errors-none :
    (codes : List String) (roles : List RoleDefinition)
    → missing_permission_errors codes roles ≡ []
    → All (IsGrounded codes) roles
unfolding missing_permission_errors contains
missing_permission_errors-none codes [] h = tt
missing_permission_errors-none codes (role ∷ roles) h =
    let rest = missing_permission_errors codes roles in
    let missing =
      none-missing _ (sorted (set_minus role.permission_codes codes)) (left-nil _ rest h) in
    (
      (λ code held. ground (
        arith,
        held,
        contains-sorted code (set_minus role.permission_codes codes),
        contains-set_minus code role.permission_codes codes,
        ap (contains code) missing,
      )),
      missing_permission_errors-none codes roles (right-nil _ rest h),
    )

-- In catalogs without errors, the permissions of a role are permissions of the catalog.
pub authorization_config_errors-none :
    (permissions : List PermissionDefinition) (roles : List RoleDefinition)
    → authorization_config_errors permissions roles ≡ []
    → All (IsGrounded (map (λ (p : PermissionDefinition). p.code) permissions)) roles
unfolding authorization_config_errors
authorization_config_errors-none permissions roles h =
    let codes = map (λ (p : PermissionDefinition). p.code) permissions in
    missing_permission_errors-none codes roles (
      right-nil (code_errors codes (map (λ (r : RoleDefinition). r.code) roles) permissions roles)
        (missing_permission_errors codes roles) h)
