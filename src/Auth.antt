-- ===== src/Auth.antt =====
-- Authentication and users: auth_usecase.py, account_deletion_usecase.py, authorization_usecase.py,
-- admin_user_usecase.py and oauth_oidc_usecase.py of backend/app/usecases, and what they rest on in
-- backend/app/config, backend/app/libraries and backend/app/services/oidc_provider_client.py.
pub mod Settings
pub mod OidcSettings
pub mod Authorization
pub mod Catalog
pub mod CatalogErrors
pub mod Issuer
pub mod Usecase
pub mod AccountDeletion
pub mod Oidc
pub mod RoleAssignment
pub mod AdminUsers
pub mod Examples
mod Tests
mod SessionTests
mod OutageTests
