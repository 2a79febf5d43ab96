-- ===== src/Store/Tests.antt =====
-- The repositories at concrete inputs.
use python_react_template.Prelude.{
  ◌+◌, true, false, any, ◌≡◌, refl, none, some, [], ◌∷◌, ◌==◌, leb, str_eq, contains, find,
  if◌then◌else◌,
}
use python_react_template.Store.Rows.{User, AuthOidcState, UserRole, ReplayDetail, login, en}
use python_react_template.Store.Exec.{Env, World, ok}
use python_react_template.Store.AuthRepository.AuditLogs.Replay.{
  IsReplayLog, replayed, replayed-IsReplayLog,
}
use python_react_template.Store.AuthRepository.Oidc.{
  find_state, consume_oidc_authorization_state, already_consumed,
}
use python_react_template.Store.AuthRepository.Oidc.Consume.{consume_oidc_authorization_state-once}
use python_react_template.Store.AdminQuery.{
  tokens, literals, literal, any_text, any_char, escape_like_search, tokens-escape_like_search,
}
use python_react_template.Store.AuthorizationRepository.{
  UserRoleReplacementResult, replace_user_roles,
}
use python_react_template.Store.AuthorizationRepository.Replacement.{
  holds, replace_user_roles-holds,
}

abbrev environment : Env
environment = record {
  utcnow = λ n. 100000 + n;
  uuid4 = λ n. n;
  token_urlsafe = λ n. "token";
  sha256 = λ t. t;
  hash_password = λ n p. p;
  verify_password = λ p h. str_eq p h;
  strip = λ t. t;
  lower = λ t. t;
  sql_lower = λ t. t;
  ip_address = λ t. t;
  try_advisory_lock = λ n. true;
}

abbrev oidc_state : AuthOidcState
oidc_state = record {
  id = 3;
  state_hash = "state";
  browser_binding_hash = "browser";
  nonce_hash = "nonce";
  pkce_verifier = "verifier";
  provider_id = "provider";
  purpose = login;
  expected_user_id = none;
  expected_session_id = none;
  redirect_path = "/";
  login_hint = none;
  language_code = none;
  expires_at = 500;
  consumed_at = none;
}

abbrev editor : UserRole
editor = record {
  id = 1;
  user_id = 7;
  role_code = "editor";
  assigned_at = 0;
  assigned_by_user_id = none;
}

abbrev member : User
member = record {
  id = 7;
  email = "a@b.c";
  password_hash = none;
  is_active = true;
  language_code = en;
  registered_at = 0;
  modified_at = 0;
  last_logged_in_at = none;
  deleted_at = none;
}

abbrev world : World Unit
world = record {
  db = record {
    users = member ∷ [];
    sessions = [];
    audit_logs = [];
    identities = [];
    roles = editor ∷ [];
    items = [];
    oidc_states = oidc_state ∷ [];
  };
  limiter = tt;
  calls = 0;
  in_transaction = false;
}

consume_oidc_authorization_state-once_example :
    (r : AuthOidcState) × (find_state "state" (oidc_state ∷ []) ≡ some r)
    × (r.consumed_at ≡ none)
    × (leb r.expires_at 400 ≡ false)
    × (r.browser_binding_hash ≡ "browser")
    × (record oidc_state { consumed_at = some 400 } ≡ record r { consumed_at = some 400 })
    × ((consume_oidc_authorization_state "state" "other" 450
          (consume_oidc_authorization_state "state" "browser" 400 world).1).0
        ≡ ok (already_consumed (record oidc_state { consumed_at = some 400 })))
unfolding consume_oidc_authorization_state find_state find
consume_oidc_authorization_state-once_example =
    consume_oidc_authorization_state-once "state" "browser" 400 "other" 450 world refl

replace_user_roles-holds_example :
    let (result, w') = replace_user_roles environment 7 ("admin" ∷ []) none world in
    ((r : UserRoleReplacementResult) × (result ≡ ok r))
    × (holds 7 "editor" w'.db.roles
        ≡ (if 7 == 7 then contains "editor" ("admin" ∷ []) else holds 7 "editor" (editor ∷ [])))
unfolding python_react_template.Store.AuthorizationRepository.has_references any
replace_user_roles-holds_example =
    replace_user_roles-holds environment 7 ("admin" ∷ []) none world 7 "editor" refl

replayed-IsReplayLog_example :
    (d : ReplayDetail) × (replayed 300
        ((some "10.0.0.2", none, 2000) ∷ (some "10.0.0.1", none, 1000) ∷ [])
      ≡ some d)
    × IsReplayLog d 2
replayed-IsReplayLog_example =
    replayed-IsReplayLog 300 (some "10.0.0.2", none, 2000) ((some "10.0.0.1", none, 1000) ∷ [])

tokens-escape_like_search_example : tokens false (escape_like_search "50%_\\") ≡ literals "50%_\\"
tokens-escape_like_search_example = tokens-escape_like_search "50%_\\"

-- Unescaped, the text has two wildcards.
unescaped : tokens false "5%_" ≡ literal "5" ∷ any_text ∷ any_char ∷ []
unfolding tokens
unescaped = refl
