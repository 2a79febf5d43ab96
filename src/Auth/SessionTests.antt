-- ===== src/Auth/SessionTests.antt =====
-- Sessions at concrete inputs.
use python_react_template.Prelude.{
  ◌&&◌, any, keep, not, ◌==◌, String, true, false, ◌≡◌, ◌≢◌, refl, none, some, [], ◌∷◌, arith, find,
}
use python_react_template.Store.Rows.{User, AuthSession}
use python_react_template.Store.Exec.{ok}
use python_react_template.Store.AuthRepository.Users.{get_user}
use python_react_template.Store.AuthRepository.Sessions.{is_active_at, active_session}
use python_react_template.Store.AuthorizationRepository.{role_codes_for_user}
use python_react_template.Auth.Settings.{truthy, effective_session_touch_interval_seconds}
use python_react_template.Auth.Authorization.{resolve_user_authorization}
use python_react_template.Auth.Usecase.Context.{AuthenticatedSessionContext}
use python_react_template.Auth.Usecase.Session.{authenticate_session, logout}
use python_react_template.Auth.Usecase.Soundness.{authenticate_session_sound}
use python_react_template.Auth.Usecase.Logout.{logout-revoked, authenticate_session-logout}
use python_react_template.Auth.Usecase.Rejection.{authenticate_session-rejects}
use python_react_template.Auth.Examples.{environment, settings, alice, alice_session, world}

abbrev alice_context : AuthenticatedSessionContext
alice_context = record { user = alice; session = alice_session; roles = []; permissions = [] }

abbrev inactive : User
inactive = record alice { is_active = false }

authenticate_session_sound_example :
    (token : String) × (s : AuthSession) × (truthy (some "s") ≡ some token)
    × (active_session token 100000 (world alice).db.sessions ≡ some s)
    × (get_user s.user_id (world alice).db.users ≡ some alice)
    × (alice.deleted_at ≡ none)
    × (alice.is_active ≡ true)
unfolding authenticate_session active_session get_user find effective_session_touch_interval_seconds
    resolve_user_authorization role_codes_for_user truthy
authenticate_session_sound_example =
    authenticate_session_sound environment settings (some "s") none none (world alice)
      {ctx = alice_context} refl

authenticate_session-rejects_example :
    let (result, w') =
      authenticate_session environment settings (some "s") none none (world inactive) in
    (result ≡ ok none)
    × (any (λ r. r.user_id == 7 && is_active_at 200000 r) w'.db.sessions ≡ false)
    × (keep (λ r. not (r.user_id == 7)) w'.db.sessions
        ≡ keep (λ r. not (r.user_id == 7)) (alice_session ∷ []))
unfolding active_session get_user truthy find
authenticate_session-rejects_example =
    authenticate_session-rejects environment settings (some "s") none none (world inactive) 200000
      {token = "s"} {s = alice_session} {u = inactive} refl refl refl refl

logout-revoked_example :
    ((logout environment (some "s") none none (world alice)).0 ≡ ok tt)
    × (active_session "s" 200000
          (logout environment (some "s") none none (world alice)).1.db.sessions
        ≡ none)
unfolding any truthy
logout-revoked_example =
    logout-revoked environment "s" (some "s") none none (world alice) 200000 refl (refl, tt)
      (omega arith)

authenticate_session-logout_example :
    (authenticate_session environment settings
      (some "s")
      none
      none
      (logout environment (some "s") none none (world alice)).1).0
    ≢ ok (some alice_context)
unfolding any logout
authenticate_session-logout_example =
    authenticate_session-logout environment settings (some "s") none none (world alice)
      (logout environment (some "s") none none (world alice)).1 (refl, tt) refl (omega arith)
