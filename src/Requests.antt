-- ===== src/Requests.antt =====
-- What a request passes on its way to a controller: backend/app/libraries/client_ip.py and
-- backend/app/bootstrap/csrf.py.
pub mod ClientIp
pub mod Spoofing
pub mod Csrf
pub mod CsrfTokens
mod Tests
