-- ===== src/Store.antt =====
-- The database tables, the unit of work and the repositories:
-- backend/app/models, backend/app/services and backend/app/libraries/clock.py.
pub mod Rows
pub mod Exec
pub mod Inet
pub mod AuthRepository
pub mod AuthorizationRepository
pub mod SampleItemRepository
pub mod AdminQuery
pub mod AdminUserRepository
mod Tests
