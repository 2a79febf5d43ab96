-- ===== src/Requests/Tests.antt =====
-- Requests of a browser behind two proxies.
use python_react_template.Prelude.{
  ◌≡◌, refl, String, true, false, none, some, [], ◌∷◌, str_eq, has_part, starts_with, split_on,
  comma_join, any, drop_chars, dedupe, find, if◌then◌else◌,
}
use python_react_template.Store.Exec.{ok, err, value_error}
use python_react_template.Requests.ClientIp.{
  Request, AddressLibrary, resolve_client_ip, parse_forwarded_for_ip, candidate_of,
  parse_trusted_proxy_networks, is_trusted, parse_direct_client_ip,
}
use python_react_template.Requests.Spoofing.{IsTrustedHop, resolve_client_ip-spoofed}
use python_react_template.Requests.Csrf.{
  CsrfSettings, passed, forbidden, internal_server_error, requires_csrf, route_path,
  call_middleware,
}
use python_react_template.Requests.CsrfTokens.{call_middleware-same_token, call_middleware-session}
use python_react_template.Store.AuthRepository.Sessions.{active_session}
use python_react_template.Auth.Settings.{truthy}
use python_react_template.Auth.Examples.{environment, alice, alice_session, world}

-- Texts with a dot are addresses, which are the networks too.
abbrev library : AddressLibrary String String
library = record {
  ip_address = λ t. if has_part "." t then (if has_part ":" t then none else some t) else none;
  ip_network = λ t. if has_part "." t then some t else none;
  ipv4_mapped = λ a. none;
  is_in = str_eq;
  str = λ a. a;
  is_digit = λ t. true;
  strip = λ t. t;
}

abbrev settings : CsrfSettings
settings = record { csrf_exempt_paths = "/api/hook"; trusted_proxy_ips = "10.0.0.1,10.0.0.2" }

abbrev request : Request
request = record {
  client_host = some "10.0.0.1";
  forwarded_for = "6.6.6.6,9.9.9.9:80" ∷ "10.0.0.2" ∷ [];
  user_agent = none;
  is_http = true;
  method = "POST";
  path = "/api/items";
  root_path = "";
  csrf_cookie = some "c";
  csrf_header = some "c";
  session_cookie = some "s";
}

ports : parse_forwarded_for_ip library "9.9.9.9:80" ≡ some "9.9.9.9"
unfolding parse_forwarded_for_ip has_part starts_with split_on drop_chars
ports = refl

brackets : parse_forwarded_for_ip library "[9.9.9.9]:80" ≡ some "9.9.9.9"
unfolding parse_forwarded_for_ip has_part starts_with split_on drop_chars
brackets = refl

direct_peer :
    resolve_client_ip library
      (record request { client_host = some "9.9.9.8" })
      settings.trusted_proxy_ips
    ≡ ok (some "9.9.9.8")
unfolding resolve_client_ip has_part split_on any
direct_peer = refl

wrong_networks : resolve_client_ip library request "x" ≡ err value_error
unfolding resolve_client_ip has_part split_on
wrong_networks = refl

mounted : route_path "/root/api/items" "/root" ≡ "/api/items"
unfolding route_path starts_with drop_chars
mounted = refl

exempt : requires_csrf (λ t. t) (λ t. t) settings (record request { path = "/api/hook" }) ≡ false
unfolding requires_csrf starts_with split_on dedupe
exempt = refl

no_header :
    (call_middleware library environment
      (λ t. t)
      settings
      (record request { csrf_header = none })
      (world alice)).0
    ≡ forbidden
unfolding call_middleware has_part starts_with split_on dedupe
no_header = refl

bad_setting :
    (call_middleware library environment
      (λ t. t)
      (record settings { trusted_proxy_ips = "x" })
      request
      (world alice)).0
    ≡ internal_server_error
unfolding call_middleware has_part starts_with split_on dedupe
bad_setting = refl

hop : IsTrustedHop library ("10.0.0.1" ∷ "10.0.0.2" ∷ []) "10.0.0.2"
unfolding candidate_of is_trusted has_part any
hop = record { hop = "10.0.0.2"; is_parsed = refl; is_hop_trusted = refl }

resolve_client_ip-spoofed_example :
    resolve_client_ip library request "10.0.0.1,10.0.0.2" ≡ ok (some "9.9.9.9")
unfolding parse_direct_client_ip parse_trusted_proxy_networks is_trusted candidate_of has_part
    split_on any comma_join starts_with
resolve_client_ip-spoofed_example =
    resolve_client_ip-spoofed library request "10.0.0.1,10.0.0.2" ("10.0.0.1" ∷ "10.0.0.2" ∷ [])
      "10.0.0.1" "9.9.9.9" ("6.6.6.6" ∷ []) ("10.0.0.2" ∷ []) "9.9.9.9:80" refl refl refl refl refl
      (hop, tt) refl refl

call_middleware-same_token_example :
    (token : String) × (some "c" ≡ some token) × (some "c" ≡ some token) × (str_eq token "" ≡ false)
unfolding call_middleware requires_csrf starts_with split_on dedupe has_part active_session find
call_middleware-same_token_example =
    call_middleware-same_token library environment (λ t. t) settings request (world alice) refl refl
      refl

call_middleware-session_example :
    (call_middleware library environment (λ t. t) settings request (world alice)).0 ≡ passed
unfolding requires_csrf resolve_client_ip truthy active_session has_part starts_with split_on any
    comma_join dedupe find
call_middleware-session_example =
    call_middleware-session library environment (λ t. t) settings request (world alice) "c" "s"
      alice_session (some "9.9.9.9") refl refl refl refl refl refl refl refl
