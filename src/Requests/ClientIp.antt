-- ===== src/Requests/ClientIp.antt =====
-- backend/app/libraries/client_ip.py: the address that a request is taken to come from.
use python_react_template.Prelude.{
  String, Bool, ◌&&◌, Option, none, some, List, [], ◌∷◌, ◌||◌, not, str_eq, has_part, any,
  drop_chars, starts_with, split_on, comma_join, first_chars, if◌then◌else◌,
}
use mathlib.Core.List.{reverse}
use python_react_template.Store.Exec.{Result, ok, err, value_error}

-- What the code reads of a request.
pub record Request : Type 0 where
  pub client_host : Option String
  pub forwarded_for : List String
  pub user_agent : Option String
  pub is_http : Bool
  pub method : String
  pub path : String
  pub root_path : String
  pub csrf_cookie : Option String
  pub csrf_header : Option String
  pub session_cookie : Option String

-- `ipaddress`, with its addresses `A` and networks `N`: `none` is a `ValueError`, or `None`. Beside
-- it the two methods of texts that go by Unicode.
pub record AddressLibrary (A N : Type 0) : Type 0 where
  pub ip_address : String → Option A
  pub ip_network : String → Option N
  pub ipv4_mapped : A → Option A
  pub is_in : A → N → Bool
  pub str : A → String
  pub is_digit : String → Bool
  pub strip : String → String

abbrev pub first_part : List String → String
first_part [] = ""
first_part (part ∷ parts) = part

-- The networks in front of the others, unless these are refused.
abbrev pub with_network : {N : Type 0} → N → Result (List N) → Result (List N)
with_network network (ok networks) = ok (network ∷ networks)
with_network network (err e) = err e

-- `get_user_agent`
unfoldable pub get_user_agent : Option String → Option String
get_user_agent none = none
get_user_agent (some user_agent) =
    if str_eq user_agent "" then none else some (first_chars 512 user_agent)

module _ {A N : Type 0} (lib : AddressLibrary A N) where
  unfoldable pub networks_of : List String → Result (List N)
  networks_of [] = ok []
  networks_of (raw_value ∷ raw_values) =
      let networks = networks_of raw_values in
      if str_eq (lib.strip raw_value) ""
      then networks
      else (elim (lib.ip_network (lib.strip raw_value)) [
        | none ↦ err value_error
        | some network ↦ with_network network networks
      ])

  unfoldable pub parse_trusted_proxy_networks : String → Result (List N)
  unfolding networks_of
  parse_trusted_proxy_networks trusted_proxy_ips = networks_of (split_on "," trusted_proxy_ips)

  unfoldable pub normalize_ip_address : A → A
  normalize_ip_address candidate = elim (lib.ipv4_mapped candidate) [
    | none ↦ candidate
    | some ipv4_mapped ↦ ipv4_mapped
  ]

  -- `_normalize_ip_address(ip_address(…))`
  unfoldable pub parse_ip : String → Option A
  unfolding normalize_ip_address
  parse_ip value = elim (lib.ip_address value) [
    | none ↦ none
    | some a ↦ some (normalize_ip_address a)
  ]

  unfoldable pub parse_direct_client_ip : Option String → Option A
  unfolding parse_ip
  parse_direct_client_ip none = none
  parse_direct_client_ip (some host) = parse_ip host

  -- The host of a `host:port`, by the parts between its colons.
  unfoldable pub parse_host_and_port : List String → Option A
  unfolding parse_ip
  parse_host_and_port (host ∷ port ∷ []) = if lib.is_digit port then parse_ip host else none
  parse_host_and_port _ = none

  unfoldable pub parse_forwarded_for_ip : String → Option A
  unfolding parse_ip parse_host_and_port
  parse_forwarded_for_ip value = elim (parse_ip value) [
    | some a ↦ some a
    | none ↦
        if starts_with "[" value && has_part "]" value
        then parse_ip (first_part (split_on "]" (drop_chars 1 value)))
        else parse_host_and_port (split_on ":" value)
  ]

  unfoldable pub is_trusted : A → List N → Bool
  is_trusted candidate trusted_networks = any (lib.is_in candidate) trusted_networks

  -- One part of the header; `none` for an empty one and for a `ValueError`.
  unfoldable pub candidate_of : String → Option A
  unfolding parse_forwarded_for_ip
  candidate_of raw_value =
      if str_eq (lib.strip raw_value) "" then none else parse_forwarded_for_ip (lib.strip raw_value)

  -- The loop over the parts, from the right.
  unfoldable pub nearest_untrusted : List N → A → A → List String → A
  unfolding candidate_of is_trusted
  nearest_untrusted trusted_networks direct_ip leftmost_candidate [] = leftmost_candidate
  nearest_untrusted trusted_networks direct_ip leftmost_candidate (raw_value ∷ raw_values) =
      elim (candidate_of raw_value) [
        | none ↦ direct_ip
        | some candidate ↦
            let rest = nearest_untrusted trusted_networks direct_ip candidate raw_values in
            if is_trusted candidate trusted_networks then rest else candidate
      ]

  unfoldable pub resolve_forwarded_for_client_ip : String → List N → A → A
  unfolding nearest_untrusted
  resolve_forwarded_for_client_ip forwarded_for trusted_networks direct_ip =
      nearest_untrusted trusted_networks direct_ip direct_ip (reverse (split_on "," forwarded_for))

  -- The part of `resolve_client_ip` behind the parsing of the networks.
  unfoldable pub client_ip_behind : List String → A → List N → A
  unfolding is_trusted resolve_forwarded_for_client_ip comma_join
  client_ip_behind headers direct_ip trusted_networks =
      if not (is_trusted direct_ip trusted_networks) || str_eq (comma_join headers) ""
      then direct_ip
      else resolve_forwarded_for_client_ip (comma_join headers) trusted_networks direct_ip

  unfoldable pub resolve_client_ip : Request → String → Result (Option String)
  unfolding parse_direct_client_ip parse_trusted_proxy_networks client_ip_behind
  resolve_client_ip request trusted_proxy_ips = elim (parse_direct_client_ip request.client_host) [
    | none ↦ ok none
    | some direct_ip ↦ elim (parse_trusted_proxy_networks trusted_proxy_ips) [
      | err e ↦ err e
      | ok trusted_networks ↦
          ok (some (lib.str (client_ip_behind request.forwarded_for direct_ip trusted_networks)))
    ]
  ]
