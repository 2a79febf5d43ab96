-- ===== src/Requests/CsrfTokens.antt =====
-- Which tokens a request that reaches the application has.
use python_react_template.Prelude.{
  ◌≡◌, refl, ap, inl, inr, String, true, false, Option, none, some, str_eq, eq_iff, subst,
  Bool-cases, str_eq_refl, if◌then◌else◌,
}
use python_react_template.Store.Rows.{AuthSession}
use python_react_template.Store.Exec.{Env, World, ok}
use python_react_template.Store.AuthRepository.Sessions.{
  active_session, find_active_session_by_token_hash,
}
use python_react_template.Auth.Settings.{truthy}
use python_react_template.Auth.Usecase.Session.{validate_session_csrf, compare_csrf}
use python_react_template.Requests.ClientIp.{Request, AddressLibrary, resolve_client_ip}
use python_react_template.Requests.Csrf.{
  passed, forbidden, CsrfSettings, requires_csrf, outcome_of, validate_from, validate_session,
  validate_tokens, validate, or_internal_server_error, call_middleware,
}

truthy-some :
    (text : Option String) {token : String}
    → truthy text ≡ some token
    → (text ≡ some token) × (str_eq token "" ≡ false)
unfolding truthy
truthy-some none h = absurd cc
truthy-some (some t) {token} h = elim (Bool-cases (str_eq t "")) [
  | inl empty ↦ absurd (cc (rw empty at h))
  | inr filled ↦
      let same : some t ≡ some token = rw filled at h in
      let value : t ≡ token = cc in (same, subst (λ (x : String). str_eq x "" ≡ false) value filled)
]

truthy-filled :
    (text : Option String) (token : String)
    → text ≡ some token
    → str_eq token "" ≡ false
    → truthy text ≡ some token
unfolding truthy
truthy-filled text token is_token filled = rw is_token (rw filled refl)

module _ {A N : Type 0} (lib : AddressLibrary A N) (env : Env) {L : Type 0} where
  validate_tokens-same :
      (settings : CsrfSettings) (request : Request) (cookie header : Option String) (w : World L)
      → (or_internal_server_error lib env
          (validate_tokens lib env settings request cookie header w)).0
        ≡ passed
      → (token : String) × (cookie ≡ some token) × (header ≡ some token)
  unfolding validate_tokens or_internal_server_error
  validate_tokens-same settings request none header w h = absurd cc
  validate_tokens-same settings request (some c) none w h = absurd cc
  validate_tokens-same settings request (some c) (some t) w h = elim (Bool-cases (str_eq c t)) [
    | inr other ↦ absurd (cc (rw other at h))
    | inl same ↦ (t, ap some ((eq_iff c t).0 same), refl)
  ]

  -- A request that needs CSRF tokens reaches the application only if its cookie and its header have
  -- the same token, which is not empty.
  pub call_middleware-same_token :
      (upper : String → String) (settings : CsrfSettings) (request : Request) (w : World L)
      → request.is_http ≡ true
      → requires_csrf upper env.strip settings request ≡ true
      → (call_middleware lib env upper settings request w).0 ≡ passed
      → (token : String) × (request.csrf_cookie ≡ some token)
        × (request.csrf_header ≡ some token)
        × (str_eq token "" ≡ false)
  unfolding call_middleware validate
  call_middleware-same_token upper settings request w http required h =
      let (token, cookie, header) =
        validate_tokens-same settings request (truthy request.csrf_cookie)
          (truthy request.csrf_header) w (rw (http, required) at h) in
      let (is_cookie, filled) = truthy-some request.csrf_cookie cookie in
      (token, is_cookie, (truthy-some request.csrf_header header).0, filled)

  -- A request that needs CSRF tokens, has the same one in its cookie and its header, and has the
  -- cookie of an active session, reaches the application if the token is the session's, and is
  -- refused with 403 if it is not; the addresses of the trusted proxies are well-formed.
  pub call_middleware-session :
      (upper : String → String) (settings : CsrfSettings) (request : Request) (w : World L)
      (token session_token : String) (s : AuthSession) (client_ip : Option String)
      → request.is_http ≡ true
      → requires_csrf upper env.strip settings request ≡ true
      → request.csrf_cookie ≡ some token
      → request.csrf_header ≡ some token
      → str_eq token "" ≡ false
      → truthy request.session_cookie ≡ some session_token
      → active_session (env.sha256 session_token) (env.utcnow w.calls) w.db.sessions ≡ some s
      → resolve_client_ip lib request settings.trusted_proxy_ips ≡ ok client_ip
      → (call_middleware lib env upper settings request w).0
        ≡ (if str_eq s.csrf_token_hash (env.sha256 token) then passed else forbidden)
  unfolding call_middleware validate validate_tokens validate_session validate_from
      validate_session_csrf compare_csrf outcome_of or_internal_server_error
      find_active_session_by_token_hash
  call_middleware-session upper settings request w token session_token s client_ip http required
        cookie header filled cookie_session active resolved =
      rw (call_middleware, http, required)
        (rw
          (
            validate,
            truthy-filled request.csrf_cookie token cookie filled,
            truthy-filled request.csrf_header token header filled,
          )
          (rw (validate_tokens, str_eq_refl token, cookie_session)
            (rw (validate_session, resolved)
              (rw (validate_from, validate_session_csrf, active)
                (elim (Bool-cases (str_eq s.csrf_token_hash (env.sha256 token))) [
                  | inl same ↦ rw same refl
                  | inr other ↦ rw other refl
                ])))))
