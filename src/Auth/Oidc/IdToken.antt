-- ===== src/Auth/Oidc/IdToken.antt =====
-- The claims of an identity token: `validate_id_token` of
-- backend/app/services/oidc_provider_client.py behind the decoding of the token. The text of
-- `claims_json` is written by a parameter.
use python_react_template.Prelude.{
  ℕ, ◌+◌, ◌*◌, ◌/◌, String, Bool, true, false, not, Option, none, some, List, [], ◌∷◌, ◌++◌, any,
  ltb, leb, str_eq, if◌then◌else◌,
}
use python_react_template.Store.Exec.{
  Env, Exec, pure, raise, raise_if, draw, oidc_claims_validation, oidc_reauth_auth_time_required,
  oidc_reauth_stale, value_error, ◌>>=◌, ◌>>◌,
}
use python_react_template.Auth.OidcSettings.{OidcProviderSettings, OidcSettings, OidcVerifiedClaims}

-- The value of a claim: `None`, a `str`, an `int` from 0 on that is no `bool`, a `bool`, a `list`, of
-- which only the members that are texts matter, and any other value, which ends every test alike.
pub data Claim : Type 0 where
  null : Claim
  text : String → Claim
  whole : ℕ → Claim
  boolean : Bool → Claim
  list_of : List (Option String) → Claim
  other : Claim

-- `none` is a claim that is absent.
abbrev pub Claims : Type 0
Claims = String → Option Claim

abbrev pub is_text : String → Option String → Bool
is_text t none = false
is_text t (some u) = str_eq u t

-- `_audience_contains`
unfoldable pub audience_contains : Option Claim → String → Bool
audience_contains (some (text audience)) client_id = str_eq audience client_id
audience_contains (some (list_of audience)) client_id = any (is_text client_id) audience
audience_contains _ client_id = false

-- `claims.get("email_verified") is True`
unfoldable pub is_true : Option Claim → Bool
is_true (some (boolean b)) = b
is_true _ = false

-- `expected is not None and value != expected`
unfoldable pub differs : Option String → String → Bool
differs none value = false
differs (some expected) value = not (str_eq value expected)

-- `_optional_normalized_email`
unfoldable pub optional_normalized_email : Env → Option Claim → Option String
optional_normalized_email env (some (text value)) =
    if str_eq (env.lower (env.strip value)) "" then none else some (env.lower (env.strip value))
optional_normalized_email env _ = none

-- The dictionary of `_claims_json`.
abbrev pub Persisted : Type 0
Persisted = List (String × Claim)

abbrev pub has_key : String → String × Claim → Bool
has_key name (key, value) = str_eq key name

abbrev pub optional_text : Option String → Claim
optional_text none = null
optional_text (some t) = text t

abbrev pub optional_seconds : Option ℕ → Persisted
optional_seconds none = []
optional_seconds (some milliseconds) = ("auth_time", whole (milliseconds / 1000)) ∷ []

unfoldable pub add_claim : String → Option Claim → Persisted → Persisted
add_claim name none persisted = persisted
add_claim name (some value) persisted =
    if any (has_key name) persisted then persisted else persisted ++ (name, value) ∷ []

-- The loop over `claims_allowlist`.
unfoldable pub add_allowed : Claims → List String → Persisted → Persisted
unfolding add_claim
add_allowed claims [] persisted = persisted
add_allowed claims (name ∷ names) persisted =
    add_allowed claims names (add_claim name (claims name) persisted)

unfoldable pub claims_json :
    OidcProviderSettings → Claims → String → String → Option String → Bool → Option ℕ → Persisted
unfolding add_allowed
claims_json provider claims issuer subject email email_verified auth_time =
    add_allowed claims provider.claims_allowlist (
      ("iss", text issuer)
      ∷ ("sub", text subject)
      ∷ ("email", optional_text email)
      ∷ ("email_verified", boolean email_verified)
      ∷ optional_seconds auth_time)

module _ {L : Type 0} where
  -- `_required_str`, of the value at the key.
  unfoldable pub required_str : Option Claim → Exec L String
  required_str (some (text value)) =
      if str_eq value "" then raise oidc_claims_validation else pure value
  required_str _ = raise oidc_claims_validation

  -- `datetime.fromtimestamp(value, UTC)`, which ends with the year 9999.
  unfoldable pub from_timestamp : ℕ → Exec L ℕ
  from_timestamp value = if ltb 253402300799 value then raise value_error else pure (value * 1000)

  -- `_datetime_claim`
  unfoldable pub datetime_claim : Option Claim → Exec L ℕ
  unfolding from_timestamp
  datetime_claim (some (whole value)) = from_timestamp value
  datetime_claim _ = raise oidc_claims_validation

  -- `_optional_datetime_claim`
  unfoldable pub optional_datetime_claim : Option Claim → Exec L (Option ℕ)
  unfolding from_timestamp
  optional_datetime_claim none = pure none
  optional_datetime_claim (some null) = pure none
  optional_datetime_claim (some (whole value)) = do t ← from_timestamp value; pure (some t)
  optional_datetime_claim _ = raise oidc_claims_validation

  -- The test of `auth_time`, if it is required: it is there, and before the limit.
  unfoldable pub check_auth_time : Bool → ℕ → Option ℕ → Exec L Unit
  check_auth_time false limit auth_time = pure tt
  check_auth_time true limit none = raise oidc_reauth_auth_time_required
  check_auth_time true limit (some auth_time) = raise_if (ltb limit auth_time) oidc_reauth_stale

  -- The tests of the times, and the answer.
  unfoldable pub validate_times :
      Env
      → OidcSettings
      → (Persisted → String)
      → OidcProviderSettings
      → Claims
      → Bool
      → ℕ
      → String
      → String
      → Exec L OidcVerifiedClaims
  unfolding datetime_claim optional_datetime_claim check_auth_time optional_normalized_email is_true
      claims_json
  validate_times env oidc dumps provider claims require_auth_time now issuer subject = do
    let limit = now + oidc.future_leeway_seconds * 1000
    expires_at ← datetime_claim (claims "exp")
    raise_if (leb expires_at now) oidc_claims_validation
    issued_at ← datetime_claim (claims "iat")
    raise_if (ltb limit issued_at) oidc_claims_validation
    auth_time ← optional_datetime_claim (claims "auth_time")
    check_auth_time require_auth_time limit auth_time
    let email = optional_normalized_email env (claims "email")
    let email_verified = is_true (claims "email_verified")
    pure (record {
      provider_id = provider.provider_id;
      issuer = issuer;
      audience = provider.client_id;
      subject = subject;
      email = email;
      email_verified = email_verified;
      issued_at = issued_at;
      expires_at = expires_at;
      auth_time = auth_time;
      claims_json =
          dumps (claims_json provider claims issuer subject email email_verified auth_time);
    })

  unfoldable pub validate_claims :
      Env
      → OidcSettings
      → (Persisted → String)
      → OidcProviderSettings
      → Claims
      → Option String
      → Option String
      → Bool
      → Exec L OidcVerifiedClaims
  unfolding required_str audience_contains differs validate_times
  validate_claims env oidc dumps provider claims expected_nonce expected_nonce_hash
        require_auth_time =
      do
        now ← draw env.utcnow
        issuer ← required_str (claims "iss")
        raise_if (not (str_eq issuer provider.issuer)) oidc_claims_validation
        raise_if (not (audience_contains (claims "aud") provider.client_id)) oidc_claims_validation
        subject ← required_str (claims "sub")
        raise_if (str_eq (env.strip subject) "") oidc_claims_validation
        nonce ← required_str (claims "nonce")
        raise_if (differs expected_nonce nonce) oidc_claims_validation
        raise_if (differs expected_nonce_hash (env.sha256 nonce)) oidc_claims_validation
        validate_times env oidc dumps provider claims require_auth_time now issuer
            (env.strip subject)
