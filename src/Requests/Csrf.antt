-- ===== src/Requests/Csrf.antt =====
-- backend/app/bootstrap/csrf.py: which requests reach the application.
use Prim.Native.String.{count}
use python_react_template.Prelude.{
  String, Bool, false, not, ◌&&◌, ◌||◌, Option, none, some, List, [], ◌∷◌, str_eq, str_append,
  contains, dedupe, map, keep, drop_chars, starts_with, split_on, if◌then◌else◌,
}
use python_react_template.Store.Exec.{Env, Exec, World, Result, ok, err, pure, ◌>>=◌}
use python_react_template.Auth.Settings.{truthy}
use python_react_template.Auth.Usecase.Session.{
  SessionCsrfStatus, no_session, valid, mismatch, validate_session_csrf,
}
use python_react_template.Requests.ClientIp.{
  Request, AddressLibrary, resolve_client_ip, get_user_agent,
}

-- The application is called, or an error response is sent: 403 or 500.
pub data Outcome : Type 0 where
  passed forbidden internal_server_error : Outcome

-- The settings that the middleware reads.
pub record CsrfSettings : Type 0 where
  pub csrf_exempt_paths : String
  pub trusted_proxy_ips : String

-- `UNSAFE_METHODS`
abbrev pub unsafe_methods : List String
unsafe_methods = "POST" ∷ "PUT" ∷ "PATCH" ∷ "DELETE" ∷ []

-- `_csrf_exempt_paths`, by `str.strip`.
unfoldable pub exempt_paths : (String → String) → String → List String
exempt_paths strip raw_paths =
    dedupe (keep (λ path. not (str_eq path "")) (map strip (split_on "," raw_paths)))

-- `_route_path`
unfoldable pub route_path : String → String → String
route_path path root_path =
    if str_eq root_path ""
    then path
    else if str_eq path root_path
    then ""
    else if starts_with (str_append root_path "/") path
    then drop_chars (count root_path) path
    else path

-- `_requires_csrf`, by `str.upper` and `str.strip`.
unfoldable pub requires_csrf : (String → String) → (String → String) → CsrfSettings → Request → Bool
unfolding route_path exempt_paths contains
requires_csrf upper strip settings request =
    let path = route_path request.path request.root_path in
    if not (contains (upper request.method) unsafe_methods)
    then false
    else if not (str_eq path "/api") && not (starts_with "/api/" path)
    then false
    else not (contains path (exempt_paths strip settings.csrf_exempt_paths))

unfoldable pub outcome_of : SessionCsrfStatus → Outcome
outcome_of no_session = passed
outcome_of valid = passed
outcome_of mismatch = forbidden

module _ {A N : Type 0} (lib : AddressLibrary A N) (env : Env) {L : Type 0} where
  -- The last part of `_validate`, behind the client's address.
  unfoldable pub validate_from : Request → String → String → Result (Option String) → Exec L Outcome
  unfolding validate_session_csrf outcome_of get_user_agent
  validate_from request session_token header_token (err e) w = (err e, w)
  validate_from request session_token header_token (ok client_ip) w =
      (validate_session_csrf env session_token header_token client_ip
            (get_user_agent request.user_agent)
          >>= λ status. pure (outcome_of status))
        w

  unfoldable pub validate_session : CsrfSettings → Request → String → Option String → Exec L Outcome
  unfolding resolve_client_ip validate_from
  validate_session settings request header_token none = pure passed
  validate_session settings request header_token (some session_token) =
      validate_from request session_token header_token
        (resolve_client_ip lib request settings.trusted_proxy_ips)

  unfoldable pub validate_tokens :
      CsrfSettings → Request → Option String → Option String → Exec L Outcome
  unfolding validate_session truthy
  validate_tokens settings request none header_token = pure forbidden
  validate_tokens settings request (some cookie_token) none = pure forbidden
  validate_tokens settings request (some cookie_token) (some header_token) =
      if str_eq cookie_token header_token
      then validate_session settings request header_token (truthy request.session_cookie)
      else pure forbidden

  -- `_validate`
  unfoldable pub validate : CsrfSettings → Request → Exec L Outcome
  unfolding validate_tokens truthy
  validate settings request =
      validate_tokens settings request (truthy request.csrf_cookie) (truthy request.csrf_header)

  -- `except Exception`
  unfoldable pub or_internal_server_error : Result Outcome × World L → Outcome × World L
  or_internal_server_error (ok outcome, w) = (outcome, w)
  or_internal_server_error (err e, w) = (internal_server_error, w)

  -- `__call__`
  unfoldable pub call_middleware :
      (String → String) → CsrfSettings → Request → World L → Outcome × World L
  unfolding requires_csrf validate or_internal_server_error
  call_middleware upper settings request w =
      if not request.is_http || not (requires_csrf upper env.strip settings request)
      then (passed, w)
      else or_internal_server_error (validate settings request w)
