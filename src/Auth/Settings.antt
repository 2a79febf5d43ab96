-- ===== src/Auth/Settings.antt =====
-- The settings of backend/app/config/auth.py that the use cases read, and the password policy of
-- backend/app/libraries/password_hasher.py. A touch interval below 0 acts as 0 does.
use Prim.Native.String.{count}
use python_react_template.Prelude.{
  ℕ, ◌/◌, String, Bool, true, false, Option, none, some, ltb, leb, ◌==◌, str_eq, if◌then◌else◌,
}

pub record AuthSettings : Type 0 where
  pub session_absolute_ttl_seconds : ℕ
  pub session_idle_ttl_seconds : ℕ
  pub session_touch_interval_seconds : ℕ
  pub rate_limit_window_seconds : ℕ
  pub rate_limit_registration_window_seconds : ℕ

unfoldable pub effective_session_touch_interval_seconds : AuthSettings → ℕ
effective_session_touch_interval_seconds s =
    if s.session_touch_interval_seconds == 0
    then 0
    else if leb (s.session_idle_ttl_seconds / 2) s.session_touch_interval_seconds
    then s.session_idle_ttl_seconds / 2
    else s.session_touch_interval_seconds

unfoldable pub validate_password_policy : String → Bool
validate_password_policy raw_password =
    if ltb (count raw_password) 12
    then false
    else if ltb 128 (count raw_password)
    then false
    else true

-- Python's truth of a text that may be `None`: `if not token`.
unfoldable pub truthy : Option String → Option String
truthy none = none
truthy (some s) = if str_eq s "" then none else some s

-- `ip_address or "unknown"`
unfoldable pub rate_limit_ip : Option String → String
rate_limit_ip none = "unknown"
rate_limit_ip (some ip) = if str_eq ip "" then "unknown" else ip
