-- ===== src/Requests/Spoofing.antt =====
-- What a client can do to the address that `resolve_client_ip` gives.
use python_react_template.Prelude.{
  ◌≡◌, refl, ap, ◌∙◌, String, true, false, some, List, [], ◌∷◌, ◌++◌, str_eq, split_on, comma_join,
  All,
}
use mathlib.Core.List.{reverse, reverse-append, reverse-cons, reverse-reverse, append_assoc}
use python_react_template.Store.Exec.{ok}
use python_react_template.Requests.ClientIp.{
  Request, AddressLibrary, candidate_of, is_trusted, nearest_untrusted, parse_direct_client_ip,
  parse_trusted_proxy_networks, client_ip_behind, resolve_forwarded_for_client_ip,
  resolve_client_ip,
}

module _ {A N : Type 0} (lib : AddressLibrary A N) (networks : List N) where
  -- A part that a trusted proxy has added for another one.
  pub record IsTrustedHop (part : String) : Type 0 where
    pub hop : A
    pub is_parsed : candidate_of lib part ≡ some hop
    pub is_hop_trusted : is_trusted lib hop networks ≡ true

  pub nearest_untrusted-hops :
      (direct leftmost : A) (hops rest : List String) (part : String) {client : A}
      → All IsTrustedHop hops
      → candidate_of lib part ≡ some client
      → is_trusted lib client networks ≡ false
      → nearest_untrusted lib networks direct leftmost (hops ++ part ∷ rest) ≡ client
  unfolding nearest_untrusted
  nearest_untrusted-hops direct leftmost [] rest part trusted parsed untrusted =
      rw (nearest_untrusted, ◌++◌, parsed) (rw untrusted refl)
  nearest_untrusted-hops direct leftmost (h ∷ hops) rest part (first, others) parsed untrusted =
      rw (nearest_untrusted, ◌++◌, first.is_parsed)
        (rw first.is_hop_trusted
          (nearest_untrusted-hops direct first.hop hops rest part others parsed untrusted))

reverse-hops :
    {A : Type 0} (spoofed hops : List A) (part : A)
    → reverse (spoofed ++ part ∷ reverse hops) ≡ hops ++ part ∷ reverse spoofed
reverse-hops spoofed hops part = simp (reverse-append, reverse-cons, reverse-reverse, append_assoc)

module _ {A N : Type 0} (lib : AddressLibrary A N) where
  -- A request that comes through trusted proxies, each of which adds the address that it sees to
  -- X-Forwarded-For, is taken to come from the address that the first of them saw, if that one is
  -- not trusted: whatever the client wrote before it does not count.
  pub resolve_client_ip-spoofed :
      (request : Request) (trusted_proxy_ips : String) (networks : List N) (direct client : A)
      (spoofed hops : List String) (part : String)
      → parse_direct_client_ip lib request.client_host ≡ some direct
      → parse_trusted_proxy_networks lib trusted_proxy_ips ≡ ok networks
      → is_trusted lib direct networks ≡ true
      → str_eq (comma_join request.forwarded_for) "" ≡ false
      → split_on "," (comma_join request.forwarded_for) ≡ spoofed ++ part ∷ reverse hops
      → All (IsTrustedHop lib networks) hops
      → candidate_of lib part ≡ some client
      → is_trusted lib client networks ≡ false
      → resolve_client_ip lib request trusted_proxy_ips ≡ ok (some (lib.str client))
  unfolding resolve_client_ip client_ip_behind resolve_forwarded_for_client_ip
  resolve_client_ip-spoofed request ips networks direct client spoofed hops part peer parsed trusted
        filled parts hops_trusted found untrusted =
      rw (resolve_client_ip, peer)
        (rw (client_ip_behind, parsed)
          (rw (trusted, filled)
            (rw (resolve_forwarded_for_client_ip, parts)
              (ap
                  (λ order.
                    ok (some (lib.str (nearest_untrusted lib networks direct direct order))))
                  (reverse-hops spoofed hops part)
                ∙ ap (λ a. ok (some (lib.str a)))
                    (nearest_untrusted-hops lib networks direct direct hops (reverse spoofed) part
                      hops_trusted found untrusted)))))
