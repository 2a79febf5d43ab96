-- ===== src/Auth/Oidc/Client.antt =====
-- What the OIDC use case takes and gives: `OidcProviderClientInterface` of
-- backend/app/interfaces/services/oidc_provider_client_interface.py, and the results of
-- backend/app/models/oidc.py.
use python_react_template.Prelude.{ℕ, ◌+◌, String, Bool, Option}
use python_react_template.Store.Exec.{Exec, Result}
use python_react_template.Auth.OidcSettings.{OidcVerifiedClaims}
use python_react_template.Auth.Usecase.Context.{AuthenticatedSessionContext, IssuedAuthSession}
use python_react_template.Auth.Oidc.Redirect.{ParsedUrl}

-- The provider and the network answer by the number of the call.
pub record OidcProviderClient : Type 0 where
  -- of the provider, the state, the nonce, the code challenge, the prompt, the maximal age and the
  -- login hint
  pub build_authorization_url :
      String
      → String
      → String
      → String
      → Option String
      → Option ℕ
      → Option String
      → ℕ
      → Result String
  -- of the provider, the code and the code verifier: the identity token
  pub exchange_code : String → String → String → ℕ → Result String
  -- of the provider, the token, the nonce's hash, and whether the time of authentication is required
  pub validate_id_token : String → String → String → Bool → ℕ → Result OidcVerifiedClaims

-- `urlparse`, and `base64url(sha256(…))` of `_s256_code_challenge`.
pub record OidcTexts : Type 0 where
  pub urlparse : String → ParsedUrl
  pub s256_code_challenge : String → String

pub record OidcAuthorizationStartResult : Type 0 where
  pub provider_id : String
  pub authorization_url : String
  pub browser_binding_cookie_name : String
  pub browser_binding_cookie_value : String
  pub browser_binding_cookie_max_age : ℕ

pub record OidcCallbackResult : Type 0 where
  pub redirect_path : String
  pub issued_session : Option IssuedAuthSession
  pub reauthenticated_context : Option AuthenticatedSessionContext

module _ {L A : Type 0} where
  -- A call of the client.
  abbrev pub call : (ℕ → Result A) → Exec L A
  call f w = (f w.calls, record w { calls = w.calls + 1 })
