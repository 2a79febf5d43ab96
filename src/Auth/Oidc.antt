-- ===== src/Auth/Oidc.antt =====
-- `OAuthOidcUsecase` of backend/app/usecases/oauth_oidc_usecase.py, over any client of the identity
-- providers, rate limiter and parser of URLs.
mod Tests
mod IdTokenTests
pub mod Redirect
pub mod Client
pub mod Start
pub mod ErrorNames
pub mod Resolve
pub mod State
pub mod Login
pub mod Reauth
pub mod Callback
pub mod Entitled
pub mod Entitlement
pub mod LoginSoundness
pub mod Presented
pub mod ReauthSoundness
pub mod Soundness
pub mod Frame
pub mod Replay
pub mod Completion
pub mod Atomicity
pub mod IdToken
pub mod ClaimChecks
pub mod VerifiedClaims
