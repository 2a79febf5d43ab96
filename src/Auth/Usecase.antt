-- ===== src/Auth/Usecase.antt =====
-- `AuthUsecase` of backend/app/usecases/auth_usecase.py, over any rate limiter. Each function runs
-- alone: requests that run at the same time are not modelled.
pub mod Context
pub mod Login
pub mod Session
pub mod Soundness
pub mod Logout
pub mod RoundTrip
pub mod Outcome
pub mod Completeness
pub mod Expiry
pub mod Rejection
pub mod Atomicity
pub mod LoginRoundTrip
pub mod Outage
