-- ===== src/Tests/ClientIpCases.antt =====
-- The client's address at a concrete network, where an address is a string of one byte and the proxies are
-- given one by one.
use pushward_integrations.Prelude.{
  ◌≡◌, refl, true, false, Option, none, some, List, [], ◌∷◌, ◌++◌, Str, str_eq,
}
use pushward_integrations.ClientIp.{
  Net, Headers, client_ip, is_trusted_proxy, last_untrusted, split_comma, comma, host_of,
}
use pushward_integrations.ClientIp.Spoofing.{client_ip_unspoofed}

abbrev parse : Str → Option Str
parse (c ∷ []) = some (c ∷ [])
parse _ = none

abbrev network : Net
network = record {
  Ip = Str;
  Cidr = Str;
  parse_ip = parse;
  contains = λ n ip. str_eq n ip;
  split_host_port = λ s. some s;
  trim_space = λ s. s;
}

abbrev proxies : List Str
proxies = (b'p' ∷ []) ∷ []

abbrev no_headers : Headers
no_headers = record { cf_connecting_ip = []; x_real_ip = []; x_forwarded_for = [] }

-- A client's address and the proxy's own, as the proxies append them.
abbrev appended : Str
appended = b'c' ∷ comma ∷ b'p' ∷ []

appended_decides : last_untrusted network proxies (split_comma appended) ≡ some (b'c' ∷ [])
unfolding last_untrusted split_comma str_eq
appended_decides = refl

-- A header that a peer which is no proxy would forge.
abbrev claimed : Headers
claimed = record no_headers { cf_connecting_ip = b'z' ∷ [] }

client_ip_unspoofed_example :
    let host = host_of network proxies (b'p' ∷ []) in
    (is_trusted_proxy network proxies host ≡ false
      → client_ip network proxies (b'p' ∷ []) claimed ≡ host)
    × (is_trusted_proxy network proxies host ≡ true
        → client_ip network proxies
            (b'p' ∷ [])
            (record no_headers { x_forwarded_for = (b'x' ∷ []) ++ (comma ∷ appended) })
          ≡ b'c' ∷ [])
client_ip_unspoofed_example =
    client_ip_unspoofed network proxies (b'p' ∷ []) (b'x' ∷ []) appended (b'c' ∷ []) claimed
      no_headers refl refl appended_decides
