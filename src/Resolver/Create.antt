-- ===== src/Resolver/Create.antt =====
-- `create_resolver` of src/resolver/mod.rs: the upstreams of the configuration, and the policy that
-- asks them. The URL parser, the address parsers and the bootstrap lookup are parameters.
use ad_nope.Prelude.{
  ℕ, String, Bool, true, false, List, [], ◌∷◌, Option, none, some, Result, ok, err, get_or, ◌==◌,
  string_eq, if◌then◌else◌,
}
use ad_nope.Net.{IpAddr}
use ad_nope.Config.{Config}
use ad_nope.Resolver.{Protocol, udp, tcp, tls, https, quic, h3, Upstream}

pub record Url : Type 0 where
  pub scheme : String
  pub port : Option ℕ
  pub host : Option String

-- The name servers that the bootstrap resolver asks: Google's, or those at the given socket
-- addresses.
pub data Bootstrap : Type 0 where
  google : Bootstrap
  servers : List (IpAddr × ℕ) → Bootstrap

-- What the program takes from other code: `Url::parse`, the parsers of `IpAddr` and `SocketAddr`,
-- and `lookup_ip`.
pub record Environment : Type 0 where
  pub parse_url : String → Option Url
  pub parse_ip : String → Option IpAddr
  pub parse_socket : String → Option (IpAddr × ℕ)
  pub lookup_ip : Bootstrap → String → Result (List IpAddr)

unfoldable pub protocol_of : String → Protocol
protocol_of scheme =
    if scheme == "udp"
    then udp
    else if scheme == "tcp"
    then tcp
    else if scheme == "tls"
    then tls
    else if scheme == "https"
    then https
    else if scheme == "quic"
    then quic
    else if scheme == "h3"
    then h3
    else udp

unfoldable pub default_port_of : Protocol → ℕ
default_port_of udp = 53
default_port_of tcp = 53
default_port_of tls = 853
default_port_of https = 443
default_port_of h3 = 443
default_port_of quic = 853

unfoldable pub is_encrypted : Protocol → Bool
is_encrypted udp = false
is_encrypted tcp = false
is_encrypted _ = true

-- `if let Ok(sa) = ip.parse::<SocketAddr>()`: other entries are skipped.
unfoldable pub socket_addresses : (String → Option (IpAddr × ℕ)) → List String → List (IpAddr × ℕ)
socket_addresses parse [] = []
socket_addresses parse (ip ∷ rest) = elim (parse ip) [
  | some sa ↦ sa ∷ socket_addresses parse rest
  | none ↦ socket_addresses parse rest
]

unfoldable pub bootstrap_config : (String → Option (IpAddr × ℕ)) → List String → Bootstrap
unfolding socket_addresses
bootstrap_config parse [] = google
bootstrap_config parse (ip ∷ rest) = servers (socket_addresses parse (ip ∷ rest))

abbrev pub first_ip : Result (List IpAddr) → Result IpAddr
first_ip (ok (ip ∷ _)) = ok ip
first_ip (ok []) = err "No IP found for bootstrap host"
first_ip (err e) = err e

module _ (env : Environment) (config : Config) where
  unfoldable pub bootstrap_host : String → Result IpAddr
  unfolding bootstrap_config
  bootstrap_host host = elim (env.parse_ip host) [
    | some addr ↦ ok addr
    | none ↦ first_ip (env.lookup_ip (bootstrap_config env.parse_socket config.bootstrap_dns) host)
  ]

  -- The upstream at a parsed URL, once its host has an address.
  unfoldable pub upstream_at : String → Url → IpAddr → Upstream
  unfolding protocol_of default_port_of is_encrypted
  upstream_at upstream_url url address =
      let protocol = protocol_of url.scheme in
      let host = get_or url.host "0.0.0.0" in
      record {
        url = upstream_url;
        resolver = record {
          address = address;
          port = get_or url.port (default_port_of protocol);
          protocol = protocol;
          tls_dns_name = if is_encrypted protocol then some host else none;
          timeout_ms = config.upstream_timeout_ms;
        };
      }

  unfoldable pub create_single_upstream : String → Result (Option Upstream)
  unfolding bootstrap_host upstream_at
  create_single_upstream upstream_url = elim (env.parse_url upstream_url) [
    | none ↦ err "Failed to parse upstream URL"
    | some url ↦ elim (bootstrap_host (get_or url.host "0.0.0.0")) [
      | ok address ↦ ok (some (upstream_at upstream_url url address))
      | err e ↦ ok none
    ]
  ]

  abbrev pub keep : Result (Option Upstream) → List Upstream → List Upstream
  keep (ok (some upstream)) upstreams = upstream ∷ upstreams
  keep (ok none) upstreams = upstreams
  keep (err e) upstreams = upstreams

  -- A server that fails is logged and left out.
  unfoldable pub create_configured_upstreams : List String → List Upstream
  create_configured_upstreams [] = []
  create_configured_upstreams (url ∷ rest) =
      keep (create_single_upstream url) (create_configured_upstreams rest)

  abbrev pub required : Result (Option Upstream) → Result Upstream
  required (ok (some upstream)) = ok upstream
  required (ok none) = err "Failed to create default upstream"
  required (err e) = err e

  unfoldable pub create_default_upstream : Result Upstream
  create_default_upstream = required (create_single_upstream "h3://dns.google/dns-query")

-- The four implementations of `DnsResolver`.
pub data Resolver : Type 0 where
  single : Upstream → Resolver
  sequential : List Upstream → Resolver
  round_robin : List Upstream → ℕ → Resolver
  parallel : List Upstream → Resolver

unfoldable pub by_policy : String → List Upstream → Resolver
by_policy policy upstreams =
    if policy == "sequential"
    then sequential upstreams
    else if policy == "round-robin"
    then round_robin upstreams 0
    else if policy == "parallel"
    then parallel upstreams
    else parallel upstreams

unfoldable pub choose : String → List Upstream → Result Resolver
unfolding by_policy
choose policy [] = err "No valid upstreams available"
choose policy (upstream ∷ []) = ok (single upstream)
choose policy (u ∷ v ∷ rest) = ok (by_policy policy (u ∷ v ∷ rest))

abbrev pub and_then : Result Upstream → (List Upstream → Result Resolver) → Result Resolver
and_then (ok upstream) f = f (upstream ∷ [])
and_then (err e) f = err e

abbrev pub is_nil : List String → Bool
is_nil [] = true
is_nil (x ∷ xs) = false

unfoldable pub create_resolver : Environment → Config → Result Resolver
unfolding create_default_upstream create_configured_upstreams choose
create_resolver env config =
    if is_nil config.upstream_servers
    then and_then (create_default_upstream env config) (choose config.resolution_policy)
    else choose config.resolution_policy
        (create_configured_upstreams env config config.upstream_servers)

-- The upstreams of a resolver.
abbrev pub upstreams_of : Resolver → List Upstream
upstreams_of (single u) = u ∷ []
upstreams_of (sequential us) = us
upstreams_of (round_robin us current) = us
upstreams_of (parallel us) = us
