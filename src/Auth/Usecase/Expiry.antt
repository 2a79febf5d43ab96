-- ===== src/Auth/Usecase/Expiry.antt =====
-- How long a session lives.
use python_react_template.Prelude.{◌≡◌}
use python_react_template.Store.Rows.{AuthSession}
use python_react_template.Auth.Settings.{AuthSettings}
use python_react_template.Auth.Issuer.{calculate_session_expiry}

-- The expiry is the one that the times of the session give.
abbrev pub IsTimed : AuthSettings → AuthSession → Type 0
IsTimed settings s = s.expires_at ≡ calculate_session_expiry settings s.issued_at s.last_seen_at
