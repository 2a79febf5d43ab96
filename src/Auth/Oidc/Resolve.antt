-- ===== src/Auth/Oidc/Resolve.antt =====
-- `_resolve_login_user_and_identity` of backend/app/usecases/oauth_oidc_usecase.py: whom an
-- identity logs in.
use python_react_template.Prelude.{
  ℕ, String, not, ◌||◌, Option, none, some, List, [], ◌∷◌, is_some, str_eq, if◌then◌else◌,
}
use python_react_template.Store.Rows.{
  User, AuthIdentity, AuthEventType, LanguageCode, default_language_code, oidc_identity_linked,
  oidc_user_provisioned,
}
use python_react_template.Store.Exec.{
  Result, ok, err, Env, Exec, World, oidc_email_not_verified, oidc_identity_unavailable,
  oidc_identity_link_disabled, oidc_identity_link_required, oidc_provisioning_disabled, pure, raise,
  raise_if, draw, ◌>>=◌, ◌>>◌,
}
use python_react_template.Store.AuthRepository.Users.{
  create_user, find_user_by_id_for_authentication, find_user_by_verified_email_for_oidc_link,
  find_user_by_email_for_oidc_collision,
}
use python_react_template.Store.AuthRepository.Oidc.{
  create_auth_identity, find_identity_by_provider_subject,
}
use python_react_template.Auth.OidcSettings.{
  OidcProviderSettings, OidcVerifiedClaims, LinkMode, auto, manual, disabled, allows_auto_provision,
}
use python_react_template.Auth.Usecase.Login.{is_email_taken}

-- What `_resolve_login_user_and_identity` answers.
abbrev pub Resolved : Type 0
Resolved = User × AuthIdentity × List AuthEventType

module _ (env : Env) where
  -- `_trusted_verified_email`; `none` is its `OidcEmailNotVerifiedError`.
  unfoldable pub trusted_verified_email : OidcProviderSettings → OidcVerifiedClaims → Option String
  trusted_verified_email provider claims =
      if not provider.trust_verified_email || not claims.email_verified
      then none
      else (elim claims.email [
        | none ↦ none
        | some email ↦
            if str_eq (env.lower (env.strip email)) ""
            then none
            else some (env.lower (env.strip email))
      ])

  unfoldable pub lowered : Option String → Option String
  lowered none = none
  lowered (some email) = some (env.lower (env.strip email))

  module _ {L : Type 0} where
    -- `_identity_for_claims`, of a new row.
    unfoldable pub identity_for_claims :
        OidcProviderSettings → OidcVerifiedClaims → ℕ → Exec L AuthIdentity
    unfolding lowered
    identity_for_claims provider claims user_id = do
      id ← draw env.uuid4
      linked_at ← draw env.utcnow
      pure (record {
        id = id;
        user_id = user_id;
        provider_id = provider.provider_id;
        provider_subject = claims.subject;
        email = lowered claims.email;
        is_email_verified = claims.email_verified;
        claims_json = claims.claims_json;
        linked_at = linked_at;
        last_logged_in_at = none;
      })

    -- The identity that is added for a user, with the event to be logged.
    unfoldable pub link_identity :
        OidcProviderSettings → OidcVerifiedClaims → AuthEventType → User → Exec L Resolved
    unfolding identity_for_claims create_auth_identity
    link_identity provider claims event user = do
      new ← identity_for_claims provider claims user.id
      identity ← create_auth_identity new
      pure (user, identity, event ∷ [])

    -- The user of an identity that is there.
    unfoldable pub identified_user : AuthIdentity → Option User → Exec L Resolved
    identified_user identity none = raise oidc_identity_unavailable
    identified_user identity (some u) =
        if is_some u.deleted_at || not u.is_active
        then raise oidc_identity_unavailable
        else pure (u, identity, [])

    unfoldable pub linked_by_mode :
        OidcProviderSettings → OidcVerifiedClaims → LinkMode → User → Exec L Resolved
    unfolding link_identity
    linked_by_mode provider claims disabled user = raise oidc_identity_link_disabled
    linked_by_mode provider claims manual user = raise oidc_identity_link_required
    linked_by_mode provider claims auto user =
        link_identity provider claims oidc_identity_linked user

    -- `except EmailAlreadyRegisteredError as exc: raise OidcIdentityUnavailableError from exc`
    unfoldable pub unless_taken : Result User × World L → Result User × World L
    unless_taken (ok u, w) = (ok u, w)
    unless_taken (err e, w) = (err (if is_email_taken e then oidc_identity_unavailable else e), w)

    -- The last part: a user for an email that no user has.
    unfoldable pub provision_user :
        OidcProviderSettings → OidcVerifiedClaims → Option LanguageCode → String → Exec L Resolved
    unfolding create_user unless_taken link_identity allows_auto_provision
    provision_user provider claims language_code normalized_email = do
      raise_if (not (allows_auto_provision provider)) oidc_provisioning_disabled
      user ← λ w. unless_taken (
          create_user env normalized_email none
            (elim language_code [ none ↦ default_language_code | some code ↦ code ]) w)
      link_identity provider claims oidc_user_provisioned user

    unfoldable pub collided_or_new :
        OidcProviderSettings
        → OidcVerifiedClaims
        → Option LanguageCode
        → String
        → Option User
        → Exec L Resolved
    unfolding provision_user
    collided_or_new provider claims language_code normalized_email (some colliding_user) =
        raise oidc_identity_unavailable
    collided_or_new provider claims language_code normalized_email none =
        provision_user provider claims language_code normalized_email

    unfoldable pub linked_or_new :
        OidcProviderSettings
        → OidcVerifiedClaims
        → Option LanguageCode
        → String
        → Option User
        → Exec L Resolved
    unfolding linked_by_mode find_user_by_email_for_oidc_collision collided_or_new
    linked_or_new provider claims language_code normalized_email (some linked_user) =
        linked_by_mode provider claims provider.link_mode linked_user
    linked_or_new provider claims language_code normalized_email none = do
      colliding_user ← find_user_by_email_for_oidc_collision env normalized_email
      collided_or_new provider claims language_code normalized_email colliding_user

    unfoldable pub resolve_by_email :
        OidcProviderSettings
        → OidcVerifiedClaims
        → Option LanguageCode
        → Option String
        → Exec L Resolved
    unfolding find_user_by_verified_email_for_oidc_link linked_or_new
    resolve_by_email provider claims language_code none = raise oidc_email_not_verified
    resolve_by_email provider claims language_code (some normalized_email) = do
      linked_user ← find_user_by_verified_email_for_oidc_link env normalized_email
      linked_or_new provider claims language_code normalized_email linked_user

    unfoldable pub resolve_identity :
        OidcProviderSettings
        → OidcVerifiedClaims
        → Option LanguageCode
        → Option AuthIdentity
        → Exec L Resolved
    unfolding find_user_by_id_for_authentication identified_user trusted_verified_email
        resolve_by_email
    resolve_identity provider claims language_code (some identity) = do
      user ← find_user_by_id_for_authentication identity.user_id
      identified_user identity user
    resolve_identity provider claims language_code none =
        resolve_by_email provider claims language_code (trusted_verified_email provider claims)

    unfoldable pub resolve_login_user_and_identity :
        OidcProviderSettings → OidcVerifiedClaims → Option LanguageCode → Exec L Resolved
    unfolding find_identity_by_provider_subject resolve_identity
    resolve_login_user_and_identity provider claims language_code = do
      identity ← find_identity_by_provider_subject provider.provider_id claims.subject
      resolve_identity provider claims language_code identity
