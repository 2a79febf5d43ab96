-- ===== src/Store/AuthRepository.antt =====
-- backend/app/services/auth_repository.py
pub mod Users
pub mod Sessions
pub mod AuditLogs
pub mod Oidc
