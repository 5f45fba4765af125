-- ===== src/ClientIp.antt =====
-- Which address a request is counted under, relay/internal/ratelimit/ip.go. Addresses and their CIDRs are
-- those of package net, and so are parameters, as is `strings.TrimSpace`.
pub mod Spoofing
use pushward_integrations.Prelude.{
  ℕ, Bool, true, false, not, ◌&&◌, ◌||◌, Option, none, some, List, [], ◌∷◌, ◌++◌, ◌==◌,
  if◌then◌else◌, Str, is_some,
}
use pushward_integrations.Cipoll.Cache.{is_blank}

-- What is used of package net and of strings.
pub record Net : Type 1 where
  pub Ip : Type 0
  pub Cidr : Type 0
  pub parse_ip : Str → Option Ip
  pub contains : Cidr → Ip → Bool
  pub split_host_port : Str → Option Str
  pub trim_space : Str → Str

-- The headers that are read, blank where they are missing.
pub record Headers : Type 0 where
  pub cf_connecting_ip : Str
  pub x_real_ip : Str
  pub x_forwarded_for : Str

abbrev pub comma : ℕ
comma = b','

abbrev onto_first : ℕ → List Str → List Str
onto_first c [] = (c ∷ []) ∷ []
onto_first c (p ∷ ps) = (c ∷ p) ∷ ps

-- `strings.Split(s, ",")`
unfoldable pub split_comma : Str → List Str
split_comma [] = [] ∷ []
split_comma (c ∷ s) =
    let rest = split_comma s in if c == comma then [] ∷ rest else onto_first c rest

module _ (net : Net) (trusted_proxies : List net.Cidr) where
  abbrev in_any : List net.Cidr → net.Ip → Bool
  in_any [] ip = false
  in_any (n ∷ ns) ip = net.contains n ip || in_any ns ip

  unfoldable pub is_trusted_proxy : Str → Bool
  is_trusted_proxy s = elim (net.parse_ip s) [ none ↦ false | some ip ↦ in_any trusted_proxies ip ]

  abbrev pub is_ip : Str → Bool
  is_ip s = is_some (net.parse_ip s)

  -- The walk from the right: what the later parts decide, they decide first.
  unfoldable pub last_untrusted : List Str → Option Str
  unfolding is_trusted_proxy
  last_untrusted [] = none
  last_untrusted (p ∷ ps) = elim (last_untrusted ps) [
    | some c ↦ some c
    | none ↦
        let candidate = net.trim_space p in
        if is_ip candidate && not (is_trusted_proxy candidate) then some candidate else none
  ]

  abbrev or_peer : Str → Option Str → Str
  or_peer host none = host
  or_peer host (some c) = c

  abbrev pub host_of : Str → Str
  host_of remote_addr = or_peer remote_addr (net.split_host_port remote_addr)

  -- The headers, of a trusted peer.
  unfoldable pub from_headers : Str → Headers → Str
  unfolding last_untrusted split_comma
  from_headers host h =
      if not (is_blank h.cf_connecting_ip) && is_ip h.cf_connecting_ip
      then h.cf_connecting_ip
      else if not (is_blank h.x_real_ip) && is_ip h.x_real_ip
      then h.x_real_ip
      else if is_blank h.x_forwarded_for
      then host
      else or_peer host (last_untrusted (split_comma h.x_forwarded_for))

  unfoldable pub client_ip : Str → Headers → Str
  unfolding is_trusted_proxy from_headers
  client_ip remote_addr h =
      let host = host_of remote_addr in if is_trusted_proxy host then from_headers host h else host
