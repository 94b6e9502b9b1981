-- ===== src/Dns/Handler.antt =====
-- src/dns/handler.rs: `DnsHandler`, which answers a query from the cache or from the first server
-- that answers, and hands the addresses of the answer over to the route manager.
-- A task that the handler spawns is a value beside the reply, and running it is a step of its own.
pub mod Again
pub mod Static
pub mod Pending
pub mod Kept
pub mod Shape
pub mod Errors
use leshy.Prelude.{
  ℕ, ◌+◌, Bool, true, false, not, ◌&&◌, Option, none, some, List, [], ◌∷◌, if◌then◌else◌, is_empty,
  any, filter_map, eqb, nat_eq, list_eq,
}
use leshy.Prelude.HashMap.{HashMap}
use leshy.Prelude.Results.{Result, ok, err}
use leshy.Prelude.Text.{Str}
use leshy.Config.{
  IpAddr, Config, ZoneConfig, ServerConfig, DnsServerConfig, DnsProtocol, SocketAddr, is_exclusive,
}
use leshy.Zones
use leshy.Zones.{Zone, MatchedZone, RegexEngine, find_zone, is_excluded}
use leshy.Routing.Manager
use leshy.Routing.Manager.{RouteManager, RouteAdder, FileRead, add_route, add_static_route}
use leshy.Dns.Cache
use leshy.Dns.Cache.{DnsCache, lookup, insert, is_enabled, clear}
use leshy.Dns.Message.{Hickory, Record}
use leshy.Dns.Upstream.{upstreams, failover, resolve_cache_ttl, is_code}

-- The task of `add_routes_from_response`.
pub record RouteTask : Type 0 where
  pub matched_zone : MatchedZone
  pub ips : List IpAddr

unfoldable pub matched_config : Option MatchedZone → Option ZoneConfig
matched_config none = none
matched_config (some z) = some z.config

module _ (to_lowercase : Str → Str) (regex : RegexEngine) (hickory : Hickory) (K : Type 0) where
  open regex use {RegexSet}
  open hickory use {
    Message, Header, RecordType, type_eq, ResponseCode, serv_fail, not_imp, response_code, answers,
    header, set_id,
  }

  pub record DnsHandler : Type 0 where
    pub config : Config
    pub matcher : List (Zone RegexSet)
    pub route_manager : RouteManager K
    pub cache : DnsCache RecordType Message

  pub record Request : Type 0 where
    pub id : ℕ
    pub is_query : Bool
    pub qname : Str
    pub qtype : RecordType

  -- What is sent: an error of the request, or the sections of a message under a header. `panicked`
  -- is a task that ends without sending.
  pub data Reply : Type 0 where
    error_msg : ResponseCode → Reply
    built : Header → Message → Reply
    panicked : Reply

  pub record Handled : Type 0 where
    pub handler : DnsHandler
    pub reply : Reply
    pub spawned : List RouteTask

  unfoldable pub new : K → Config → List (Zone RegexSet) → DnsHandler
  new kernel config matcher = record {
    config = config;
    matcher = matcher;
    route_manager = Manager.new kernel config.server.route_aggregation_prefix;
    cache = Cache.new config.server.cache_size;
  }

  unfoldable pub update_config : DnsHandler → Config → List (Zone RegexSet) → DnsHandler
  update_config self new_config new_matcher = record self {
    config = new_config;
    matcher = new_matcher;
    cache =
        if eqb new_config.server.cache_size self.config.server.cache_size
        then clear self.cache
        else Cache.new new_config.server.cache_size;
  }

  -- `add_routes_from_response`, up to the task that it spawns
  unfoldable pub add_routes_from_response : DnsHandler → Message → Str → List RouteTask
  add_routes_from_response self message qname =
      let ips = filter_map (λ (r : Record). r.address) (answers message) in
      elim (find_zone to_lowercase regex self.matcher qname) [
        | none ↦ []
        | some matched_zone ↦
            if is_empty ips then [] else record { matched_zone = matched_zone; ips = ips } ∷ []
      ]

  -- the cache's part of `handle_request`
  unfoldable pub check_cache : ℕ → DnsHandler → Request → Option Message × DnsHandler
  check_cache now self request =
      let (found, cache) =
        lookup to_lowercase ⦃r = type_eq⦄ now request.qname request.qtype self.cache in
      if is_enabled self.cache then (found, record self { cache = cache }) else (none, self)

  -- the arm `Some` of `match result`
  unfoldable pub reply_with :
      ℕ → DnsHandler → Request → Option MatchedZone → Message → Option DnsServerConfig → Handled
  reply_with now self request zone response server_cfg =
      let spawned = add_routes_from_response self response request.qname in
      let reply = built (header response) response in
      let ttl =
        resolve_cache_ttl hickory server_cfg (matched_config zone) self.config.server response in
      if is_enabled self.cache && not (is_code hickory (response_code response) serv_fail)
      then elim ttl [
        | none ↦ record { handler = self; reply = panicked; spawned = spawned }
        | some seconds ↦ record {
          handler = record self {
            cache =
                insert to_lowercase ⦃r = type_eq⦄ now request.qname request.qtype response seconds
                  self.cache;
          };
          reply = reply;
          spawned = spawned;
        }
      ]
      else record { handler = self; reply = reply; spawned = spawned }

  -- `handle_request` after a miss; `query` forwards the request, by the zone's protocol
  unfoldable pub forward :
      (DnsProtocol → ℕ → SocketAddr → Result Message ResponseCode)
      → ℕ
      → DnsHandler
      → Request
      → Handled
  forward query now self request =
      let zone = find_zone to_lowercase regex self.matcher request.qname in
      let (servers, protocol) = upstreams self.config.server zone in
      elim (failover hickory (query protocol) 0 serv_fail servers) [
        | ok (response, server_cfg) ↦ reply_with now self request zone response server_cfg
        | err last_err ↦ record { handler = self; reply = error_msg last_err; spawned = [] }
      ]

  unfoldable pub handle_request :
      (DnsProtocol → ℕ → SocketAddr → Result Message ResponseCode)
      → ℕ
      → DnsHandler
      → Request
      → Handled
  handle_request query now self request =
      let (found, self') = check_cache now self request in
      let miss = forward query now self' request in
      if not request.is_query
      then record { handler = self; reply = error_msg not_imp; spawned = [] }
      else elim found [
        | some cached ↦ record {
          handler = self';
          reply = built (set_id request.id (header cached)) cached;
          spawned = add_routes_from_response self' cached request.qname;
        }
        | none ↦ miss
      ]

  unfoldable pub cleanup_zone : DnsHandler → Str → DnsHandler
  cleanup_zone self zone_name = record self {
    route_manager = Manager.cleanup_zone self.route_manager zone_name;
  }

unfoldable pub has_static_routes : List ZoneConfig → Bool
has_static_routes zones =
    any (λ z. not (is_exclusive z.mode) && not (is_empty z.static_routes)) zones

module _ {K : Type 0} (adder : RouteAdder K) (iter : HashMap ℕ Str → List (ℕ × Str))
    (parse_v6 : Str → Option ℕ) where
  -- the loop of the spawned task; the errors are only logged
  unfoldable pub run_task :
      (Str → FileRead) → MatchedZone → RouteManager K → List IpAddr → RouteManager K
  run_task files matched_zone manager [] = manager
  run_task files matched_zone manager (ip ∷ ips) =
      let added = (add_route adder iter files manager ip matched_zone.config).0 in
      run_task files matched_zone (if is_excluded matched_zone ip then manager else added) ips

  -- the inner loop of `apply_static_routes`, with the number of failures
  unfoldable pub apply_zone :
      (Str → FileRead) → ZoneConfig → List Str → RouteManager K × ℕ → RouteManager K × ℕ
  apply_zone files zone [] s = s
  apply_zone files zone (cidr ∷ cidrs) (manager, failures) =
      let (manager', outcome) = add_static_route adder iter parse_v6 files manager cidr zone in
      let failures' : ℕ = elim outcome [ ok done ↦ failures | err e ↦ failures + 1 ] in
      apply_zone files zone cidrs (manager', failures')

  unfoldable pub apply_static_routes :
      (Str → FileRead) → List ZoneConfig → RouteManager K × ℕ → RouteManager K × ℕ
  apply_static_routes files [] s = s
  apply_static_routes files (zone ∷ zones) s =
      apply_static_routes files zones
        (if is_exclusive zone.mode then s else apply_zone files zone zone.static_routes s)
