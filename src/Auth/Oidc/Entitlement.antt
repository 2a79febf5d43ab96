-- ===== src/Auth/Oidc/Entitlement.antt =====
-- Whom `_resolve_login_user_and_identity` answers with.
use python_react_template.Prelude.{
  ◌≡◌, refl, sym, subst, ap, ◌∙◌, inl, inr, arith, String, true, false, not, ◌&&◌, ◌||◌, Option,
  none, some, [], find, str_eq, is_some, Bool-cases, Option-cases,
}
use python_react_template.Store.Rows.{
  User, AuthIdentity, AuthEventType, LanguageCode, default_language_code, oidc_user_provisioned,
}
use python_react_template.Store.Exec.{Env, Exec, World, Result, ok, err}
use python_react_template.Store.Exec.Laws.{>>=-ok}
use python_react_template.Store.AuthRepository.Users.{
  is_present, get_user, email_taken, create_user, find_user_by_id_for_authentication,
  find_user_by_verified_email_for_oidc_link, find_user_by_email_for_oidc_collision,
}
use python_react_template.Store.AuthRepository.Oidc.{
  create_auth_identity, find_identity_by_provider_subject,
}
use python_react_template.Auth.OidcSettings.{
  OidcProviderSettings, OidcVerifiedClaims, LinkMode, auto, manual, disabled, allows_auto_provision,
}
use python_react_template.Auth.Oidc.Resolve.{
  Resolved, trusted_verified_email, identity_for_claims, link_identity, identified_user,
  linked_by_mode, unless_taken, provision_user, collided_or_new, linked_or_new, resolve_by_email,
  resolve_identity, resolve_login_user_and_identity,
}
use python_react_template.Auth.Oidc.Entitled.{
  identity_of, trusted_verified_email-IsTrusted, allows-enabled, IsProvisioned, IsEntitled,
  by_identity, by_email, by_provisioning,
}

module _ (env : Env) {L : Type 0} where
  link_identity-user :
      (provider : OidcProviderSettings) (claims : OidcVerifiedClaims) (event : AuthEventType)
      (v : User) (w : World L) {r : Resolved}
      → (link_identity env provider claims event v w).0 ≡ ok r
      → r.0 ≡ v
  unfolding link_identity identity_for_claims create_auth_identity
  link_identity-user provider claims event v w h = ground (arith, h)

  linked_by_mode-user :
      (provider : OidcProviderSettings) (claims : OidcVerifiedClaims) (mode : LinkMode) (v : User)
      (w : World L) {r : Resolved}
      → (linked_by_mode env provider claims mode v w).0 ≡ ok r
      → (mode ≡ auto) × (r.0 ≡ v)
  unfolding linked_by_mode
  linked_by_mode-user provider claims disabled v w h = cc
  linked_by_mode-user provider claims manual v w h = cc
  linked_by_mode-user provider claims auto v w h =
      (refl, link_identity-user provider claims _ v w h)

  identified_user-user :
      (i : AuthIdentity) (o : Option User) (w : World L) {r : Resolved}
      → (identified_user env i o w).0 ≡ ok r
      → (o ≡ some r.0) × (r.0.deleted_at ≡ none) × (r.0.is_active ≡ true)
  unfolding identified_user
  identified_user-user i none w h = cc
  identified_user-user i (some u) w {r} h =
      elim (Bool-cases (is_some u.deleted_at || not u.is_active)) [
        | inl refused ↦ absurd (cc (rw refused at h))
        | inr fine ↦
            let same : ok (u, i, []) ≡ ok r = rw fine at h in
            let user : u ≡ r.0 = cc in
            let deleted : u.deleted_at ≡ none = ground (arith, fine) in
            let active : u.is_active ≡ true = ground (arith, fine) in
            (
              ap some user,
              subst (λ (v : User). v.deleted_at ≡ none) user deleted,
              subst (λ (v : User). v.is_active ≡ true) user active,
            )
      ]

  unless_taken-ok :
      (x : Result User × World L) {u : User}
      → (unless_taken env x).0 ≡ ok u
      → (x.0 ≡ ok u) × ((unless_taken env x).1 ≡ x.1)
  unfolding unless_taken
  unless_taken-ok (ok v, w) h = (h, refl)
  unless_taken-ok (err e, w) h = cc

  create_user-new :
      (email : String) (code : LanguageCode) (w : World L) {u : User}
      → (create_user env email none code w).0 ≡ ok u
      → (email_taken env email w.db ≡ false) × (u.email ≡ email) × IsProvisioned env u
  unfolding create_user
  create_user-new email code w h = (
    ground (arith, h),
    ground (arith, h),
    (ground (arith, h), ground (arith, h), ground (arith, h), w.calls, ground (arith, h)),
  )

  provision_user-user :
      (provider : OidcProviderSettings) (claims : OidcVerifiedClaims) (o : Option LanguageCode)
      (email : String) (w : World L) {r : Resolved}
      → (provision_user env provider claims o email w).0 ≡ ok r
      → (allows_auto_provision provider ≡ true)
        × (email_taken env email w.db ≡ false)
        × (r.0.email ≡ email)
        × IsProvisioned env r.0
  unfolding provision_user
  provision_user-user provider claims o email w {r} h =
      elim (Bool-cases (allows_auto_provision provider)) [
        | inr not_allowed ↦ absurd (cc (rw not_allowed at h))
        | inl allowed ↦
            let code : LanguageCode = elim o [ none ↦ default_language_code | some c ↦ c ] in
            let made : Exec L User = λ v. unless_taken env (create_user env email none code v) in
            let (u, created, linked, same) =
              >>=-ok made (link_identity env provider claims oidc_user_provisioned) w
                (rw allowed at h) in
            let (new, kept) = unless_taken-ok (create_user env email none code w) created in
            let (free, named, provisioned) = create_user-new email code w new in
            let user =
              link_identity-user provider claims oidc_user_provisioned u (made w).1 linked in
            (
              allowed,
              free,
              ap (λ (v : User). v.email) user ∙ named,
              subst (IsProvisioned env) (sym user) provisioned,
            )
      ]

  linked_or_new-IsEntitled :
      (provider : OidcProviderSettings) (claims : OidcVerifiedClaims) (o : Option LanguageCode)
      (email : String) (w : World L) {r : Resolved}
      → identity_of provider claims w.db ≡ none
      → trusted_verified_email env provider claims ≡ some email
      → (resolve_by_email env provider claims o (some email) w).0 ≡ ok r
      → IsEntitled env provider claims w.db r.0
  unfolding resolve_by_email linked_or_new collided_or_new find_user_by_verified_email_for_oidc_link
      find_user_by_email_for_oidc_collision
  linked_or_new-IsEntitled provider claims o email w {r} fresh trusted h =
      let linked =
        find
          (λ (v : User).
            str_eq (env.sql_lower v.email) (env.lower (env.strip email))
            && is_present v
            && v.is_active)
          w.db.users in
      let collided =
        find
          (λ (v : User).
            str_eq (env.sql_lower v.email) (env.lower (env.strip email)) && is_present v)
          w.db.users in
      elim (Option-cases linked) [
        | inr (v, found) ↦
            let (mode, user) =
              linked_by_mode-user provider claims provider.link_mode v w (rw found at h) in
            by_email email fresh
              (trusted_verified_email-IsTrusted env provider claims email trusted) mode
              (found ∙ ap some (sym user))
        | inl nobody ↦ elim (Option-cases collided) [
          | inr (v, other) ↦ absurd (cc (rw (nobody, other) at h))
          | inl no_other ↦
              let (allowed, free, named, new) =
                provision_user-user provider claims o email w (rw (nobody, no_other) at h) in
              by_provisioning email fresh
                (trusted_verified_email-IsTrusted env provider claims email trusted)
                (allows-enabled provider allowed) free named new
        ]
      ]

  -- Whoever an identity is resolved to is entitled to log in by it.
  pub resolve_login_user_and_identity-IsEntitled :
      (provider : OidcProviderSettings) (claims : OidcVerifiedClaims) (o : Option LanguageCode)
      (w : World L) {r : Resolved}
      → (resolve_login_user_and_identity env provider claims o w).0 ≡ ok r
      → IsEntitled env provider claims w.db r.0
  unfolding resolve_login_user_and_identity resolve_identity find_identity_by_provider_subject
      find_user_by_id_for_authentication
  resolve_login_user_and_identity-IsEntitled provider claims o w {r} h =
      elim (Option-cases (identity_of provider claims w.db)) [
        | inr (i, there) ↦
            let (found, present, active) =
              identified_user-user i (get_user i.user_id w.db.users) w (rw there at h) in
            by_identity i there found present active
        | inl absent ↦ elim (Option-cases (trusted_verified_email env provider claims)) [
          | inl untrusted ↦ absurd (cc (rw (absent, untrusted, resolve_by_email) at h))
          | inr (email, trusted) ↦
              linked_or_new-IsEntitled provider claims o email w absent trusted
                (rw (absent, trusted) at h)
        ]
      ]
