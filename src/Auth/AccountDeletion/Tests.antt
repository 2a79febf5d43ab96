-- ===== src/Auth/AccountDeletion/Tests.antt =====
-- Account deletion at concrete inputs.
use python_react_template.Prelude.{none, some, [], ◌≡◌, refl, find, count_if, update_where}
use python_react_template.Auth.Usecase.Context.{AuthenticatedSessionContext}
use python_react_template.RateLimit.Buckets.{get_existing_bucket, lookup}
use python_react_template.RateLimit.Memory.{is_account_deletion_reauth_allowed}
use python_react_template.Auth.OidcSettings.{OidcSettings}
use python_react_template.Auth.AccountDeletion.{delete_account}
use python_react_template.Auth.AccountDeletion.Erasure.{IsErased}
use python_react_template.Auth.AccountDeletion.Deletion.{IsReauthenticated, delete_account-erases}
use python_react_template.Auth.Examples.{
  environment, settings, limiter, alice, alice_session, tables, world,
}

abbrev oidc : OidcSettings
oidc = record {
  providers = [];
  reauth_freshness_seconds = 300;
  state_ttl_seconds = 300;
  future_leeway_seconds = 60;
}

abbrev context : AuthenticatedSessionContext
context = record { user = alice; session = alice_session; roles = []; permissions = [] }

delete_account-erases_example :
    (environment.lower alice.email ≡ environment.lower "a@b.c")
    × IsReauthenticated environment oidc context (some "correct horse") 100000
    × IsErased 7
        (tables alice)
        (delete_account limiter environment settings oidc context "a@b.c"
          (some "correct horse")
          none
          none
          (world alice)).1.db
unfolding delete_account is_account_deletion_reauth_allowed get_existing_bucket lookup count_if find
    update_where
delete_account-erases_example =
    delete_account-erases limiter environment settings oidc context "a@b.c" (some "correct horse")
      none none (world alice) refl
