-- ===== src/Auth/Oidc/VerifiedClaims.antt =====
-- What the claims of an accepted identity token are.
use python_react_template.Prelude.{
  ℕ, ◌+◌, ◌*◌, ◌≡◌, ◌⊎◌, ap, sym, ◌∙◌, arith, String, Bool, true, false, not, Option, none, some,
  ltb, leb, str_eq, eq_iff,
}
use python_react_template.Store.Exec.{Env, World, ok}
use python_react_template.Auth.OidcSettings.{OidcProviderSettings, OidcSettings, OidcVerifiedClaims}
use python_react_template.Auth.Oidc.IdToken.{
  text, whole, Claims, Persisted, audience_contains, differs, validate_times, validate_claims,
}
use python_react_template.Auth.Oidc.ClaimChecks.{
  is_timely, milliseconds_of, email_of, says_true, IsForClient, raise_if-ok, required_str-ok,
  check_auth_time-ok, datetime_claim-ok, optional_datetime_claim-ok, is_true-says,
  optional_normalized_email-of, differs-no, audience_contains-client, not-false, ok-inj,
}

-- The claims are the provider's, for this client, of the expected nonce, and of this time; the
-- answer has the token's subject and, in milliseconds, the token's times.
pub record IsVerified (env : Env) (oidc : OidcSettings) (provider : OidcProviderSettings)
    (claims : Claims) (expected_nonce : Option String) (nonce_hash : String)
    (require_auth_time : Bool) (now : ℕ) (v : OidcVerifiedClaims) : Type 0 where
  pub is_issued : claims "iss" ≡ some (text provider.issuer)
  pub issuer : v.issuer ≡ provider.issuer
  pub is_for_client : IsForClient provider.client_id (claims "aud")
  pub nonce : String
  pub has_nonce : claims "nonce" ≡ some (text nonce)
  pub is_expected : (expected_nonce ≡ none) ⊎ (expected_nonce ≡ some nonce)
  pub has_hash : env.sha256 nonce ≡ nonce_hash
  pub expires : ℕ
  pub has_expiry : claims "exp" ≡ some (whole expires)
  pub is_unexpired : leb (expires * 1000) now ≡ false
  pub expires_at : v.expires_at ≡ expires * 1000
  pub issued : ℕ
  pub has_issue_time : claims "iat" ≡ some (whole issued)
  pub is_issued_before : leb (issued * 1000) (now + oidc.future_leeway_seconds * 1000) ≡ true
  pub issued_at : v.issued_at ≡ issued * 1000
  pub auth_time : v.auth_time ≡ milliseconds_of (claims "auth_time")
  pub is_authenticated_before :
      is_timely require_auth_time (now + oidc.future_leeway_seconds * 1000) v.auth_time ≡ true
  pub email : v.email ≡ email_of env (claims "email")
  pub email_verified : v.email_verified ≡ says_true (claims "email_verified")
  pub sub : String
  pub has_subject : claims "sub" ≡ some (text sub)
  pub is_named : str_eq (env.strip sub) "" ≡ false
  pub subject : v.subject ≡ env.strip sub

-- The tests of the times that `v` has passed.
record IsTimed (env : Env) (claims : Claims) (require : Bool) (now limit : ℕ) (iss sub : String)
    (v : OidcVerifiedClaims) : Type 0 where
  expires : ℕ
  has_expiry : claims "exp" ≡ some (whole expires)
  is_unexpired : leb (expires * 1000) now ≡ false
  expires_at : v.expires_at ≡ expires * 1000
  issued : ℕ
  has_issue_time : claims "iat" ≡ some (whole issued)
  is_issued_before : leb (issued * 1000) limit ≡ true
  issued_at : v.issued_at ≡ issued * 1000
  auth_time : v.auth_time ≡ milliseconds_of (claims "auth_time")
  is_authenticated_before : is_timely require limit v.auth_time ≡ true
  email : v.email ≡ email_of env (claims "email")
  email_verified : v.email_verified ≡ says_true (claims "email_verified")
  issuer : v.issuer ≡ iss
  subject : v.subject ≡ sub

module _ (env : Env) (oidc : OidcSettings) (dumps : Persisted → String) {L : Type 0} where
  validate_times-IsTimed :
      (provider : OidcProviderSettings) (claims : Claims) (require : Bool) (now : ℕ)
      (issuer subject : String) (w : World L) {v : OidcVerifiedClaims}
      → (validate_times env oidc dumps provider claims require now issuer subject w).0 ≡ ok v
      → IsTimed env claims require now (now + oidc.future_leeway_seconds * 1000) issuer subject v
  unfolding validate_times
  validate_times-IsTimed provider claims require now issuer subject w {v} h =
      let limit = now + oidc.future_leeway_seconds * 1000 in
      let (expires, expiry, h1) = datetime_claim-ok (claims "exp") _ w h in
      let (unexpired, h2) = raise_if-ok (leb (expires * 1000) now) _ _ _ h1 in
      let (issued, issue, h3) = datetime_claim-ok (claims "iat") _ _ h2 in
      let (before, h4) = raise_if-ok (ltb limit (issued * 1000)) _ _ _ h3 in
      let time = milliseconds_of (claims "auth_time") in
      let h5 = optional_datetime_claim-ok (claims "auth_time") _ _ h4 in
      let (timely, h6) = check_auth_time-ok require limit time _ _ h5 in
      let same = sym (ok-inj h6) in
      let auth_time = ap (λ (y : OidcVerifiedClaims). y.auth_time) same in
      record {
        expires = expires;
        has_expiry = expiry;
        is_unexpired = unexpired;
        expires_at = ap (λ (y : OidcVerifiedClaims). y.expires_at) same;
        issued = issued;
        has_issue_time = issue;
        is_issued_before = ground (arith, before);
        issued_at = ap (λ (y : OidcVerifiedClaims). y.issued_at) same;
        auth_time = auth_time;
        is_authenticated_before = ap (is_timely require limit) auth_time ∙ timely;
        email =
            ap (λ (y : OidcVerifiedClaims). y.email) same
            ∙ optional_normalized_email-of env (claims "email");
        email_verified =
            ap (λ (y : OidcVerifiedClaims). y.email_verified) same
            ∙ is_true-says (claims "email_verified");
        issuer = ap (λ (y : OidcVerifiedClaims). y.issuer) same;
        subject = ap (λ (y : OidcVerifiedClaims). y.subject) same;
      }

  -- The claims of a token that is accepted are issued by the provider for this client, have the
  -- expected nonce and a subject, and are of now: not expired, not issued after now with the
  -- leeway, and, if the time of authentication is required, with one that is not after that either.
  -- The answer has the subject, the times, the email and its verification that the token claims.
  pub validate_claims-IsVerified :
      (provider : OidcProviderSettings) (claims : Claims) (expected_nonce : Option String)
      (nonce_hash : String) (require_auth_time : Bool) (w : World L) (v : OidcVerifiedClaims)
      → (validate_claims env oidc dumps provider claims expected_nonce
          (some nonce_hash)
          require_auth_time
          w).0
        ≡ ok v
      → IsVerified env oidc provider claims expected_nonce nonce_hash require_auth_time
          (env.utcnow w.calls)
          v
  unfolding validate_claims differs
  validate_claims-IsVerified provider claims expected nonce_hash require w v h =
      let now = env.utcnow w.calls in
      let (issuer, is_issuer, h1) = required_str-ok (claims "iss") _ _ h in
      let (own, h2) = raise_if-ok (not (str_eq issuer provider.issuer)) _ _ _ h1 in
      let (audience, h3) =
        raise_if-ok (not (audience_contains (claims "aud") provider.client_id)) _ _ _ h2 in
      let (subject, is_subject, h4) = required_str-ok (claims "sub") _ _ h3 in
      let (filled, h5) = raise_if-ok (str_eq (env.strip subject) "") _ _ _ h4 in
      let (nonce, is_nonce, h6) = required_str-ok (claims "nonce") _ _ h5 in
      let (plain, h7) = raise_if-ok (differs expected nonce) _ _ _ h6 in
      let (hashed, h8) = raise_if-ok (not (str_eq (env.sha256 nonce) nonce_hash)) _ _ _ h7 in
      let timed =
        validate_times-IsTimed provider claims require now issuer (env.strip subject) _ h8 in
      let same_issuer = (eq_iff issuer provider.issuer).0 (not-false own) in
      record {
        is_issued = is_issuer ∙ ap (λ x. some (text x)) same_issuer;
        issuer = timed.issuer ∙ same_issuer;
        is_for_client =
            audience_contains-client (claims "aud") provider.client_id (not-false audience);
        nonce = nonce;
        has_nonce = is_nonce;
        is_expected = differs-no expected nonce plain;
        has_hash = (eq_iff (env.sha256 nonce) nonce_hash).0 (not-false hashed);
        expires = timed.expires;
        has_expiry = timed.has_expiry;
        is_unexpired = timed.is_unexpired;
        expires_at = timed.expires_at;
        issued = timed.issued;
        has_issue_time = timed.has_issue_time;
        is_issued_before = timed.is_issued_before;
        issued_at = timed.issued_at;
        auth_time = timed.auth_time;
        is_authenticated_before = timed.is_authenticated_before;
        email = timed.email;
        email_verified = timed.email_verified;
        sub = subject;
        has_subject = is_subject;
        is_named = filled;
        subject = timed.subject;
      }
