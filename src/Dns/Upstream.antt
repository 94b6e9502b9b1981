-- ===== src/Dns/Upstream.antt =====
-- src/dns/handler.rs: which servers a query is forwarded to, in which order they are tried, and how
-- long their answer is kept. The exchange with a server is a parameter, `query`: what the attempt
-- of a given number at a given server returns.
pub mod Failover
pub mod Ttl
use leshy.Prelude.{
  ℕ, suc, ◌+◌, Bool, true, false, ◌||◌, Option, none, some, List, [], ◌∷◌, map, ltb, leb,
  if◌then◌else◌, ◌==◌, is_empty, Eq, max, min,
}
use leshy.Prelude.Results.{Result, ok, err}
use leshy.Config.{SocketAddr, DnsServerConfig, ZoneConfig, ServerConfig, DnsProtocol, udp}
use leshy.Zones.{MatchedZone}
use leshy.Dns.Message.{Hickory, Record}

-- A server to try, with its own settings if it is a zone's.
abbrev pub Upstream : Type 0
Upstream = SocketAddr × Option DnsServerConfig

unfoldable pub zone_upstreams : List DnsServerConfig → List Upstream
zone_upstreams servers = map (λ s. (s.address, some s)) servers

unfoldable pub default_upstreams : List SocketAddr → List Upstream
default_upstreams addresses = map (λ a. (a, none)) addresses

unfoldable pub upstreams : ServerConfig → Option MatchedZone → List Upstream × DnsProtocol
upstreams server none = (default_upstreams server.default_upstream, udp)
upstreams server (some z) =
    if is_empty z.config.dns_servers
    then (default_upstreams server.default_upstream, udp)
    else (zone_upstreams z.config.dns_servers, z.config.dns_protocol)

-- `a.or(b).unwrap_or(c)`
unfoldable pub cascade : Option ℕ → Option ℕ → ℕ → ℕ
cascade (some a) b c = a
cascade none (some b) c = b
cascade none none c = c

-- `u64::clamp`, which panics if the bounds are the wrong way round
unfoldable pub clamp : ℕ → ℕ → ℕ → Option ℕ
clamp n low high =
    if ltb high low then none else some (if ltb n low then low else if ltb high n then high else n)

unfoldable pub min_ttl_of : List Record → Option ℕ
min_ttl_of [] = none
min_ttl_of (r ∷ records) = elim (min_ttl_of records) [
  | none ↦ some r.ttl
  | some n ↦ some (min r.ttl n)
]

unfoldable pub server_setting : (DnsServerConfig → Option ℕ) → Option DnsServerConfig → Option ℕ
server_setting field none = none
server_setting field (some s) = field s

unfoldable pub zone_setting : (ZoneConfig → Option ℕ) → Option ZoneConfig → Option ℕ
zone_setting field none = none
zone_setting field (some z) = field z

module _ (hickory : Hickory) where
  open hickory use {
    Message, ResponseCode, code_eq, serv_fail, refused, nx_domain, response_code, answers,
  }

  unfoldable pub is_code : ResponseCode → ResponseCode → Bool
  is_code a b = (code_eq).test a b

  -- in seconds; `none` where the code panics
  unfoldable pub resolve_cache_ttl :
      Option DnsServerConfig → Option ZoneConfig → ServerConfig → Message → Option ℕ
  resolve_cache_ttl server_cfg zone global message =
      let min_ttl =
        cascade (server_setting (λ s. s.cache_min_ttl) server_cfg)
          (zone_setting (λ z. z.cache_min_ttl) zone) global.cache_min_ttl in
      let max_ttl =
        cascade (server_setting (λ s. s.cache_max_ttl) server_cfg)
          (zone_setting (λ z. z.cache_max_ttl) zone) global.cache_max_ttl in
      let negative_ttl =
        cascade (server_setting (λ s. s.cache_negative_ttl) server_cfg)
          (zone_setting (λ z. z.cache_negative_ttl) zone) global.cache_negative_ttl in
      if is_code (response_code message) nx_domain || is_empty (answers message)
      then some negative_ttl
      else clamp (elim (min_ttl_of (answers message)) [ none ↦ min_ttl | some n ↦ n ]) min_ttl
          max_ttl

  -- the guard of the first arm of `match res`
  unfoldable pub is_refusal : Message → Bool
  is_refusal response =
      is_code (response_code response) serv_fail || is_code (response_code response) refused

  -- The loop over the servers, from the attempt `i` on.
  unfoldable pub failover :
      (ℕ → SocketAddr → Result Message ResponseCode)
      → ℕ
      → ResponseCode
      → List Upstream
      → Result (Message × Option DnsServerConfig) ResponseCode
  failover query i last_err [] = err last_err
  failover query i last_err ((upstream, server_cfg) ∷ rest) = elim (query i upstream) [
    | ok response ↦
        if is_refusal response
        then failover query (i + 1) (response_code response) rest
        else ok (response, server_cfg)
    | err rcode ↦ failover query (i + 1) rcode rest
  ]
