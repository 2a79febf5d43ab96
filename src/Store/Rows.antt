-- ===== src/Store/Rows.antt =====
-- The rows of backend/app/models. Identifiers are numbers, times are milliseconds since 1970 (the
-- resolution of `UnixTimestampMillis`). The columns `created_at` and `updated_at`, which no code
-- reads, are left out.
use python_react_template.Prelude.{ℕ, String, Bool, Option, List}

-- auth_event_type.py
pub data AuthEventType : Type 0 where
  register_success register_failed login_success login_failed logout : AuthEventType
  session_rejected user_marked_deleted account_deletion_reauth_failed : AuthEventType
  session_revoked_deleted_user session_revoked_inactive_user : AuthEventType
  oidc_login_success oidc_login_failed oidc_identity_linked oidc_user_provisioned : AuthEventType
  oidc_reauth_success oidc_reauth_failed role_granted role_revoked : AuthEventType
  user_created_by_admin user_updated_by_admin user_deleted_by_admin : AuthEventType

-- language.py
pub data LanguageCode : Type 0 where
  en ja : LanguageCode

-- `DEFAULT_LANGUAGE_CODE`
abbrev pub default_language_code : LanguageCode
default_language_code = ja

-- user.py
pub record User : Type 0 where
  pub id : ℕ
  pub email : String
  pub password_hash : Option String
  pub is_active : Bool
  pub language_code : LanguageCode
  pub registered_at : ℕ
  pub modified_at : ℕ
  pub last_logged_in_at : Option ℕ
  pub deleted_at : Option ℕ

-- auth_session.py
pub record AuthSession : Type 0 where
  pub id : ℕ
  pub user_id : ℕ
  pub session_token_hash : String
  pub csrf_token_hash : String
  pub issued_at : ℕ
  pub last_seen_at : ℕ
  pub expires_at : ℕ
  pub revoked_at : Option ℕ
  pub last_oidc_authenticated_at : Option ℕ
  pub ip_address : Option String
  pub user_agent : Option String

-- `OidcAuthorizationPurpose` of oidc.py
pub data Purpose : Type 0 where
  login account_deletion_reauth : Purpose

-- The keys that `_replay_detail_json` writes, at the types that it writes.
pub record ReplayDetail : Type 0 where
  pub distinct_ip_count : ℕ
  pub last_ip_address : Option String
  pub last_user_agent : Option String
  pub last_replayed_at : ℕ
  pub recent_ip_addresses : List String
  pub replay_count : ℕ
  pub window_seconds : ℕ

-- The shapes of `detail_json` that the code writes.
pub data Detail : Type 0 where
  replay : ReplayDetail → Detail
  -- `role_audit_detail`: the actor, the target, the role and the resulting roles.
  role : Option ℕ → ℕ → String → List String → Detail
  -- The actor, the target and the changed fields, if they are listed.
  admin : ℕ → ℕ → Option (List String) → Detail
  -- The provider, the purpose and, of a failure, the error's name.
  oidc : String → Purpose → Option String → Detail

-- auth_audit_log.py
pub record AuthAuditLog : Type 0 where
  pub id : ℕ
  pub user_id : Option ℕ
  pub session_id : Option ℕ
  pub event_type : AuthEventType
  pub ip_address : Option String
  pub user_agent : Option String
  pub detail_json : Option Detail
  pub occurred_at : ℕ

-- auth_identity.py
pub record AuthIdentity : Type 0 where
  pub id : ℕ
  pub user_id : ℕ
  pub provider_id : String
  pub provider_subject : String
  pub email : Option String
  pub is_email_verified : Bool
  pub claims_json : String
  pub linked_at : ℕ
  pub last_logged_in_at : Option ℕ

-- authorization.py
pub record UserRole : Type 0 where
  pub id : ℕ
  pub user_id : ℕ
  pub role_code : String
  pub assigned_at : ℕ
  pub assigned_by_user_id : Option ℕ

-- sample_item.py
pub record SampleItem : Type 0 where
  pub id : ℕ
  pub owner_user_id : ℕ
  pub title : String
  pub description : Option String
  pub is_completed : Bool
  pub registered_at : ℕ
  pub modified_at : ℕ

-- auth_oidc_state.py
pub record AuthOidcState : Type 0 where
  pub id : ℕ
  pub state_hash : String
  pub browser_binding_hash : String
  pub nonce_hash : String
  pub pkce_verifier : String
  pub provider_id : String
  pub purpose : Purpose
  pub expected_user_id : Option ℕ
  pub expected_session_id : Option ℕ
  pub redirect_path : String
  pub login_hint : Option String
  pub language_code : Option LanguageCode
  pub expires_at : ℕ
  pub consumed_at : Option ℕ

-- The tables.
pub record Db : Type 0 where
  pub users : List User
  pub sessions : List AuthSession
  pub audit_logs : List AuthAuditLog
  pub identities : List AuthIdentity
  pub roles : List UserRole
  pub items : List SampleItem
  pub oidc_states : List AuthOidcState
