-- ===== src/Config.antt =====
-- src/config.rs: the configuration's types and their defaults. A `SocketAddr` is its address
-- and its port. Attributes of serde name the defaults; deserialisation itself is serde's.
pub mod Validate
pub mod Load
use leshy.Prelude.{ℕ, ◌≡◌, ◌↔◌, Bool, false, true, Option, none, List, Eq, eqb, arith}
use leshy.Prelude.Text.{Str}

pub data IpAddr : Type 0 where
  v4 : ℕ → IpAddr
  v6 : ℕ → IpAddr

abbrev pub ip_beq : IpAddr → IpAddr → Bool
ip_beq (v4 a) (v4 b) = eqb a b
ip_beq (v6 a) (v6 b) = eqb a b
ip_beq _ _ = false

pub ip_beq_iff : (a b : IpAddr) → (ip_beq a b ≡ true) ↔ (a ≡ b)
ip_beq_iff (v4 a) (v4 b) = ground arith
ip_beq_iff (v6 a) (v6 b) = ground arith
ip_beq_iff (v4 a) (v6 b) = ground arith
ip_beq_iff (v6 a) (v4 b) = ground arith

instance abbrev pub ip_eq : Eq IpAddr
ip_eq = record { test = ip_beq; decides = ip_beq_iff }

pub record SocketAddr : Type 0 where
  pub ip : IpAddr
  pub port : ℕ

pub data RouteFailureMode : Type 0 where
  servfail fallback : RouteFailureMode

pub data DnsProtocol : Type 0 where
  udp tcp : DnsProtocol

pub data ZoneMode : Type 0 where
  inclusive exclusive : ZoneMode

pub data RouteType : Type 0 where
  via dev : RouteType

pub record DnsServerConfig : Type 0 where
  pub address : SocketAddr
  pub cache_min_ttl : Option ℕ
  pub cache_max_ttl : Option ℕ
  pub cache_negative_ttl : Option ℕ

pub record ZoneConfig : Type 0 where
  pub name : Str
  pub mode : ZoneMode
  pub dns_servers : List DnsServerConfig
  pub route_type : RouteType
  pub route_target : Str
  pub domains : List Str
  pub patterns : List Str
  pub static_routes : List Str
  pub dns_protocol : DnsProtocol
  pub cache_min_ttl : Option ℕ
  pub cache_max_ttl : Option ℕ
  pub cache_negative_ttl : Option ℕ

pub record ServerConfig : Type 0 where
  pub listen_address : SocketAddr
  pub default_upstream : List SocketAddr
  pub route_failure_mode : RouteFailureMode
  pub auto_reload : Bool
  pub config_dir : Option Str
  pub cache_size : ℕ
  pub cache_min_ttl : ℕ
  pub cache_max_ttl : ℕ
  pub cache_negative_ttl : ℕ
  pub route_aggregation_prefix : Option ℕ

pub record Config : Type 0 where
  pub server : ServerConfig
  pub zones : List ZoneConfig

-- `==` on the enums
abbrev pub is_exclusive : ZoneMode → Bool
is_exclusive inclusive = false
is_exclusive exclusive = true

pub data DnsServerEntry : Type 0 where
  simple : SocketAddr → DnsServerEntry
  rich : DnsServerConfig → DnsServerEntry

-- the closure of `deserialize_dns_servers`
unfoldable pub to_server_config : DnsServerEntry → DnsServerConfig
to_server_config (simple address) = record {
  address = address;
  cache_min_ttl = none;
  cache_max_ttl = none;
  cache_negative_ttl = none;
}
to_server_config (rich config) = config
