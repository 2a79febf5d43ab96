-- ===== src/Auth/Oidc/Entitled.antt =====
-- Whom an identity may log in.
use python_react_template.Prelude.{
  ℕ, ◌≡◌, ◌≢◌, eq_iff, refl, inl, inr, arith, String, true, false, not, ◌&&◌, ◌||◌, Option, none,
  some, find, str_eq, Bool-cases, Option-cases,
}
use python_react_template.Store.Rows.{User, AuthIdentity, Db}
use python_react_template.Store.Exec.{Env}
use python_react_template.Store.AuthRepository.Users.{is_present, get_user, email_taken}
use python_react_template.Auth.OidcSettings.{
  OidcProviderSettings, OidcVerifiedClaims, auto, allows_auto_provision, AutoProvisionMode, enabled,
  link_only, is_enabled,
}
use python_react_template.Auth.Oidc.Resolve.{trusted_verified_email}

abbrev pub identity_of : OidcProviderSettings → OidcVerifiedClaims → Db → Option AuthIdentity
identity_of provider claims d =
    find
      (λ i. str_eq i.provider_id provider.provider_id && str_eq i.provider_subject claims.subject)
      d.identities

-- The email, in its normal form, is claimed as verified, by a provider that is trusted with it.
pub record IsTrusted (env : Env) (provider : OidcProviderSettings) (claims : OidcVerifiedClaims)
    (email : String) : Type 0 where
  pub is_trusting : provider.trust_verified_email ≡ true
  pub is_verified : claims.email_verified ≡ true
  pub given : String
  pub has_email : claims.email ≡ some given
  pub is_normal : email ≡ env.lower (env.strip given)
  pub is_filled : email ≢ ""

pub trusted_verified_email-IsTrusted :
    (env : Env) (provider : OidcProviderSettings) (claims : OidcVerifiedClaims) (email : String)
    → trusted_verified_email env provider claims ≡ some email
    → IsTrusted env provider claims email
unfolding trusted_verified_email
trusted_verified_email-IsTrusted env provider claims email h =
    elim (Bool-cases (not provider.trust_verified_email || not claims.email_verified)) [
      | inl refused ↦ absurd (cc (rw refused at h))
      | inr fine ↦ elim (Option-cases claims.email) [
        | inl no_email ↦ absurd (cc (rw (fine, no_email) at h))
        | inr (given, there) ↦ elim (Bool-cases (str_eq (env.lower (env.strip given)) "")) [
          | inl nothing ↦ absurd (cc (rw (fine, there, nothing) at h))
          | inr filled ↦
              let same : some (env.lower (env.strip given)) ≡ some email =
                rw (fine, there, filled) at h in
              let normal : email ≡ env.lower (env.strip given) = cc in
              record {
                is_trusting = ground (arith, fine);
                is_verified = ground (arith, fine);
                given = given;
                has_email = there;
                is_normal = normal;
                is_filled = λ empty.
                    ground (arith, filled, eq_iff (env.lower (env.strip given)) "", normal, empty);
              }
        ]
      ]
    ]

-- A provider that provisions users is set to.
pub allows-enabled :
    (provider : OidcProviderSettings)
    → allows_auto_provision provider ≡ true
    → provider.auto_provision ≡ enabled
unfolding allows_auto_provision
allows-enabled provider h = set_to provider.auto_provision (ground (arith, h))
  where
    set_to : (m : AutoProvisionMode) → is_enabled m ≡ true → m ≡ enabled
    set_to enabled e = refl
    set_to link_only e = absurd (ground (arith, e))

-- A new user: the identifier is drawn anew, and there is no password.
abbrev pub IsProvisioned : Env → User → Type 0
IsProvisioned env u =
    (u.password_hash ≡ none)
    × (u.is_active ≡ true)
    × (u.deleted_at ≡ none)
    × (n : ℕ) × (u.id ≡ env.uuid4 n)

-- The user has the identity and is active; or the identity is new, its email is verified by a
-- provider that is trusted with it, and the user is the active one of that email, where the
-- provider links by itself, or a new one of that email, active and without a password, where the
-- provider provisions users and no user has the email.
pub data IsEntitled (env : Env) (provider : OidcProviderSettings) (claims : OidcVerifiedClaims)
    (d : Db) (u : User) : Type 0 where
  by_identity :
      (i : AuthIdentity)
      → identity_of provider claims d ≡ some i
      → get_user i.user_id d.users ≡ some u
      → u.deleted_at ≡ none
      → u.is_active ≡ true
      → IsEntitled env provider claims d u
  by_email :
      (email : String)
      → identity_of provider claims d ≡ none
      → IsTrusted env provider claims email
      → provider.link_mode ≡ auto
      → find
          (λ v.
            str_eq (env.sql_lower v.email) (env.lower (env.strip email))
            && is_present v
            && v.is_active)
          d.users
        ≡ some u
      → IsEntitled env provider claims d u
  by_provisioning :
      (email : String)
      → identity_of provider claims d ≡ none
      → IsTrusted env provider claims email
      → provider.auto_provision ≡ enabled
      → email_taken env email d ≡ false
      → u.email ≡ email
      → IsProvisioned env u
      → IsEntitled env provider claims d u

-- It is a matter of the users and the identities only.
pub IsEntitled-same :
    (env : Env) (provider : OidcProviderSettings) (claims : OidcVerifiedClaims) (d d' : Db)
    (u : User)
    → d'.users ≡ d.users
    → d'.identities ≡ d.identities
    → IsEntitled env provider claims d' u
    → IsEntitled env provider claims d u
IsEntitled-same env provider claims d d' u users identities
      (by_identity i there found present active) =
    by_identity i (rw identities at there) (rw users at found) present active
IsEntitled-same env provider claims d d' u users identities (by_email e absent trusted mode found) =
    by_email e (rw identities at absent) trusted mode (rw users at found)
IsEntitled-same env provider claims d d' u users identities
      (by_provisioning e absent trusted allowed free named new) =
    by_provisioning e (rw identities at absent) trusted allowed (rw users at free) named new
