-- ===== src/ClientIp/Spoofing.antt =====
-- What a client can and cannot choose of the address it is counted under, relay/internal/ratelimit/ip.go.
use pushward_integrations.Prelude.{
  ◌≡◌, refl, true, false, Bool-cases, inl, inr, some, List, [], ◌∷◌, ◌++◌, ◌==◌, Str, arith,
}
use pushward_integrations.Cipoll.Cache.{is_blank}
use pushward_integrations.ClientIp.{
  Net, Headers, split_comma, comma, is_trusted_proxy, is_ip, last_untrusted, client_ip,
  from_headers, host_of,
}

split_comma_cons : (s : Str) → (p : Str) × (ps : List Str) × (split_comma s ≡ p ∷ ps)
unfolding split_comma
split_comma_cons [] = ([], [], refl)
split_comma_cons (c ∷ s) = elim (Bool-cases (c == comma)) [
  | inl here ↦ ([], split_comma s, rw here refl)
  | inr there ↦ let (p, ps, e) = split_comma_cons s in (c ∷ p, ps, rw (there, e) refl)
]

split_comma-append : (s t : Str) → split_comma (s ++ (comma ∷ t)) ≡ split_comma s ++ split_comma t
unfolding split_comma
split_comma-append [] t = ground arith
split_comma-append (c ∷ s) t =
    let rest = split_comma-append s t in
    let (p, ps, e) = split_comma_cons s in
    elim (Bool-cases (c == comma)) [
      | inl here ↦ rw (here, rest) refl
      | inr there ↦ rw (there, rest, e) refl
    ]

not_blank : (s t : Str) → is_blank (s ++ (comma ∷ t)) ≡ false
not_blank [] t = refl
not_blank (c ∷ s) t = refl

module _ (net : Net) (trusted_proxies : List net.Cidr) where
  last_untrusted-append :
      (ps qs : List Str) (c : Str)
      → last_untrusted net trusted_proxies qs ≡ some c
      → last_untrusted net trusted_proxies (ps ++ qs) ≡ some c
  unfolding last_untrusted
  last_untrusted-append [] qs c h = h
  last_untrusted-append (p ∷ ps) qs c h = rw (last_untrusted-append ps qs c h) refl

  -- No header of a peer that is not a trusted proxy is read, whatever they are. Behind one that is, and
  -- without a valid address in the two headers that take precedence, the part of X-Forwarded-For that comes
  -- after a comma decides alone if it has an address that is not a trusted proxy's: what stands before it,
  -- which the client can choose, has no effect.
  pub client_ip_unspoofed :
      (remote_addr s t c : Str) (any h : Headers)
      → is_ip net trusted_proxies h.cf_connecting_ip ≡ false
      → is_ip net trusted_proxies h.x_real_ip ≡ false
      → last_untrusted net trusted_proxies (split_comma t) ≡ some c
      → let host = host_of net trusted_proxies remote_addr in
        (is_trusted_proxy net trusted_proxies host ≡ false
          → client_ip net trusted_proxies remote_addr any ≡ host)
        × (is_trusted_proxy net trusted_proxies host ≡ true
            → client_ip net trusted_proxies remote_addr
                (record h { x_forwarded_for = s ++ (comma ∷ t) })
              ≡ c)
  unfolding client_ip from_headers
  client_ip_unspoofed remote_addr s t c any h no_cf no_real found =
      let walk = last_untrusted-append (split_comma s) (split_comma t) c found in
      (
        λ direct. rw direct refl,
        λ proxied.
            rw (proxied, no_cf, no_real, not_blank s t, split_comma-append s t, walk)
              (ground arith),
      )
