-- ===== src/Dns/Handler/Shape.antt =====
-- What requests, tasks, static routes and reloads do to the aggregator, and which addresses the tasks
-- that requests spawn are for.
use leshy.Prelude.{
  ℕ, ◌≡◌, refl, Option, some, List, [], ◌∷◌, ◌++◌, inl, inr, Bool-cases, Option-cases, is_empty, In,
  not, ◌&&◌, if_either, filter_map, In-filter_map,
}
use leshy.Prelude.HashMap.{HashMap}
use leshy.Prelude.Results.{Result, Result-cases}
use leshy.Prelude.Text.{Str}
use leshy.Config.{
  IpAddr, Config, ZoneConfig, DnsServerConfig, DnsProtocol, SocketAddr, is_exclusive,
}
use leshy.Zones
use leshy.Zones.{RegexEngine, Zone, MatchedZone, is_excluded, find_zone}
use leshy.Routing.Aggregator.Routes.{Iterates}
use leshy.Routing.Manager.{RouteManager, RouteAdder, FileRead}
use leshy.Routing.Manager.Shape.{
  IsAddress, IsShaped, cleanup_zone-IsShaped, add_route-IsShaped, add_static_route-IsShaped,
}
use leshy.Dns.Message.{Hickory, Record}
use leshy.Dns.Upstream.{upstreams, failover, resolve_cache_ttl, is_code}
use leshy.Dns.Cache.{is_enabled}
use leshy.Dns.Handler.{
  DnsHandler, Request, RouteTask, run_task, apply_zone, apply_static_routes, cleanup_zone,
  add_routes_from_response, reply_with, forward, handle_request, check_cache, matched_config,
  update_config,
}
use leshy.Reload.{cleanup_zones, apply_config, get_zones_to_cleanup}

abbrev pub AreAll : List IpAddr → Type 0
AreAll [] = Unit
AreAll (ip ∷ ips) = IsAddress ip × AreAll ips

-- The addresses that tasks have not come to are addresses.
abbrev pub Addressed : List RouteTask → Type 0
Addressed [] = Unit
Addressed (t ∷ ts) = AreAll t.ips × Addressed ts

pub Addressed-append : (ts us : List RouteTask) → Addressed ts → Addressed us → Addressed (ts ++ us)
Addressed-append [] us hs hu = hu
Addressed-append (t ∷ ts) us hs hu = (hs.0, Addressed-append ts us hs.1 hu)

-- One address of one task is done.
pub Addressed-step :
    (before : List RouteTask) (zone : MatchedZone) (ip : IpAddr) (ips : List IpAddr)
    (later : List RouteTask)
    → Addressed (before ++ record { matched_zone = zone; ips = ip ∷ ips } ∷ later)
    → IsAddress ip × Addressed (before ++ record { matched_zone = zone; ips = ips } ∷ later)
Addressed-step [] zone ip ips later h = (h.0.0, (h.0.1, h.1))
Addressed-step (t ∷ before) zone ip ips later h =
    let (here, rest) = Addressed-step before zone ip ips later h.1 in (here, (h.0, rest))

AreAll-of_In : (ips : List IpAddr) → ((ip : IpAddr) → In ip ips → IsAddress ip) → AreAll ips
AreAll-of_In [] h = tt
AreAll-of_In (ip ∷ ips) h = (h ip (inl refl), AreAll-of_In ips (λ x at. h x (inr at)))

module _ {K : Type 0} (adder : RouteAdder K) (iter : HashMap ℕ Str → List (ℕ × Str))
    (iterates : Iterates iter) (parse_v6 : Str → Option ℕ) (files : Str → FileRead) where
  pub run_task-IsShaped :
      (zone : MatchedZone) (ips : List IpAddr) (m : RouteManager K)
      → AreAll ips
      → IsShaped m
      → IsShaped (run_task adder iter parse_v6 files zone m ips)
  unfolding run_task
  run_task-IsShaped zone [] m h w = w
  run_task-IsShaped zone (ip ∷ ips) m h w = run_task-IsShaped zone ips _ h.1 (
      if_either IsShaped (is_excluded zone ip) _ _ w
        (add_route-IsShaped adder iter iterates files m ip zone.config h.0 w))

  apply_zone-IsShaped :
      (zone : ZoneConfig) (cidrs : List Str) (s : RouteManager K × ℕ)
      → IsShaped s.0
      → IsShaped (apply_zone adder iter parse_v6 files zone cidrs s).0
  unfolding apply_zone
  apply_zone-IsShaped zone [] s w = w
  apply_zone-IsShaped zone (c ∷ cidrs) s w =
      apply_zone-IsShaped zone cidrs _
        (add_static_route-IsShaped adder iter iterates parse_v6 files s.0 c zone w)

  pub apply_static_routes-IsShaped :
      (zones : List ZoneConfig) (s : RouteManager K × ℕ)
      → IsShaped s.0
      → IsShaped (apply_static_routes adder iter parse_v6 files zones s).0
  unfolding apply_static_routes
  apply_static_routes-IsShaped [] s w = w
  apply_static_routes-IsShaped (zone ∷ zones) s w = apply_static_routes-IsShaped zones _ (
      if_either (λ (x : RouteManager K × ℕ). IsShaped x.0) (is_exclusive zone.mode) s _ w
        (apply_zone-IsShaped zone zone.static_routes s w))

-- The IPv4 addresses in hickory's records are 32-bit numbers.
abbrev pub HasAddresses : Hickory → Type 0
HasAddresses hickory =
    (m : hickory.Message) (r : Record) (ip : IpAddr)
    → In r (hickory.answers m)
    → r.address ≡ some ip
    → IsAddress ip

module _ (to_lowercase : Str → Str) (regex : RegexEngine) (hickory : Hickory) {K : Type 0} where
  module _ (adder : RouteAdder K) (iter : HashMap ℕ Str → List (ℕ × Str)) (iterates : Iterates iter)
      (parse_v6 : Str → Option ℕ) where
    cleanup_zones-IsShaped :
        (names : List Str) (self : DnsHandler to_lowercase regex hickory K)
        → IsShaped self.route_manager
        → IsShaped
            (cleanup_zones to_lowercase regex hickory adder iter parse_v6 self names).route_manager
    unfolding cleanup_zones cleanup_zone
    cleanup_zones-IsShaped [] self w = w
    cleanup_zones-IsShaped (n ∷ names) self w =
        cleanup_zones-IsShaped names _ (cleanup_zone-IsShaped self.route_manager n w)

    pub apply_config-IsShaped :
        (files : Str → FileRead) (self : DnsHandler to_lowercase regex hickory K) (c : Config)
        → IsShaped self.route_manager
        → IsShaped
            (apply_config to_lowercase regex hickory adder iter parse_v6 files self
              c).0.route_manager
    unfolding apply_config update_config
    apply_config-IsShaped files self c w =
        let w' = cleanup_zones-IsShaped (get_zones_to_cleanup self.config.zones c.zones) self w in
        elim (Result-cases (Zones.new to_lowercase regex c.zones)) [
          | inl (matcher, e) ↦
              rw (e, apply_config)
                (apply_static_routes-IsShaped adder iter iterates parse_v6 files c.zones _ w')
          | inr (x, e) ↦ rw (e, apply_config) w'
        ]

  module _ (addresses : HasAddresses hickory) where
    add_routes-Addressed :
        (self : DnsHandler to_lowercase regex hickory K) (m : hickory.Message) (qname : Str)
        → Addressed (add_routes_from_response to_lowercase regex hickory K self m qname)
    unfolding add_routes_from_response
    add_routes-Addressed self m qname =
        let ips = filter_map (λ (r : Record). r.address) (hickory.answers m) in
        let all : AreAll ips = AreAll-of_In ips (λ ip at.
          let (r, listed, e) =
            In-filter_map (λ (r : Record). r.address) ip (hickory.answers m) at in
          addresses m r ip listed e) in
        elim (Option-cases (find_zone to_lowercase regex self.matcher qname)) [
          | inl e ↦ rw (e, add_routes_from_response) tt
          | inr (z, e) ↦
              rw (e, add_routes_from_response) (if_either Addressed (is_empty ips) _ _ tt (all, tt))
        ]

    reply_with-Addressed :
        (now : ℕ) (self : DnsHandler to_lowercase regex hickory K)
        (request : Request to_lowercase regex hickory K) (zone : Option MatchedZone)
        (response : hickory.Message) (cfg : Option DnsServerConfig)
        → Addressed
            (reply_with to_lowercase regex hickory K now self request zone response cfg).spawned
    unfolding reply_with
    reply_with-Addressed now self request zone response cfg =
        let added = add_routes-Addressed self response request.qname in
        elim (Bool-cases (
          is_enabled self.cache
          && not (is_code hickory (hickory.response_code response) hickory.serv_fail))) [
            | inr off ↦ rw (off, reply_with) added
            | inl on ↦
                elim (Option-cases (
                  resolve_cache_ttl hickory cfg (matched_config zone) self.config.server
                    response)) [
                      | inl e ↦ rw (on, e, reply_with) added
                      | inr (ttl, e) ↦ rw (on, e, reply_with) added
                    ]
          ]

    pub forward-Addressed :
        (query : DnsProtocol → ℕ → SocketAddr → Result hickory.Message hickory.ResponseCode)
        (now : ℕ) (self : DnsHandler to_lowercase regex hickory K)
        (request : Request to_lowercase regex hickory K)
        → Addressed (forward to_lowercase regex hickory K query now self request).spawned
    unfolding forward
    forward-Addressed query now self request =
        let zone = find_zone to_lowercase regex self.matcher request.qname in
        let up = upstreams self.config.server zone in
        elim (Result-cases (failover hickory (query up.1) 0 hickory.serv_fail up.0)) [
          | inl ((response, cfg), e) ↦
              rw (e, forward) (reply_with-Addressed now self request zone response cfg)
          | inr (code, e) ↦ rw (e, forward) tt
        ]

    pub handle_request-Addressed :
        (query : DnsProtocol → ℕ → SocketAddr → Result hickory.Message hickory.ResponseCode)
        (now : ℕ) (self : DnsHandler to_lowercase regex hickory K)
        (request : Request to_lowercase regex hickory K)
        → Addressed (handle_request to_lowercase regex hickory K query now self request).spawned
    unfolding handle_request
    handle_request-Addressed query now self request =
        let checked = check_cache to_lowercase regex hickory K now self request in
        elim (Bool-cases (not request.is_query)) [
          | inl e ↦ rw (e, handle_request) tt
          | inr e ↦ elim (Option-cases checked.0) [
            | inl f ↦ rw (e, f, handle_request) (forward-Addressed query now checked.1 request)
            | inr (m, f) ↦
                rw (e, f, handle_request) (add_routes-Addressed checked.1 m request.qname)
          ]
        ]
