-- ===== src/Routing/Manager.antt =====
-- src/routing/mod.rs: `RouteManager`, which carries the aggregator's actions out against the kernel
-- and keeps the addresses that each zone has a route for.
-- The platform's `RouteAdder` is a record of functions on a state of the kernel; the file system is
-- a function from paths, an argument of each call, as files come and go between calls. An operation
-- here is one that no other interrupts; Interleaved takes `add_route_v4` apart, where calls overlap.
pub mod Repeat
pub mod Mirror
pub mod Cleanup
pub mod Cidr
pub mod Tracked
pub mod Interleaved
pub mod Shape
use leshy.Prelude.{
  nat_eq, ℕ, Bool, Option, none, some, List, [], ◌∷◌, ltb, if◌then◌else◌, ◌==◌, is_empty, length,
  list_eq,
}
use leshy.Prelude.HashMap
use leshy.Prelude.HashMap.{HashMap}
use leshy.Prelude.Results.{Result, ok, err}
use leshy.Prelude.Text.{Str, split_once, trim}
use leshy.Config.{RouteType, via, dev, IpAddr, v4, v6, ip_eq, ZoneConfig}
use leshy.Net.{parse_u8, parse_ip}
use leshy.Routing.Aggregator
use leshy.Routing.Aggregator.{RouteAggregator, RouteAction, add, remove, process_ip}

-- `tokio::fs::read_to_string`
pub data FileRead : Type 0 where
  content : Str → FileRead
  not_found : FileRead
  failed : Str → FileRead

pub data RouteError : Type 0 where
  device_empty : Str → RouteError
  device_not_found : Str → RouteError
  io : Str → RouteError
  adder_failed : Str → RouteError
  no_device : Str → RouteError
  unparsable_ip : Str → RouteError
  unparsable_prefix : Str → RouteError
  prefix_exceeds : ℕ → ℕ → RouteError

abbrev pub Outcome : Type 0
Outcome = Result (Unit {0}) RouteError

pub record RouteAdder (K : Type 0) : Type 0 where
  pub add_via_route : K → IpAddr → ℕ → Str → K × Outcome
  pub add_dev_route : K → IpAddr → ℕ → Str → K × Outcome
  pub remove_route : K → IpAddr → ℕ → K × Outcome

pub record RouteManager (K : Type 0) : Type 0 where
  pub kernel : K
  pub zone_routes : HashMap Str (HashMap IpAddr (Unit {0}))
  pub aggregator : RouteAggregator

unfoldable pub new : {K : Type 0} → K → Option ℕ → RouteManager K
new kernel aggregation_prefix = record {
  kernel = kernel;
  zone_routes = [];
  aggregator = Aggregator.new aggregation_prefix;
}

unfoldable pub read_device_file : (Str → FileRead) → Str → Result Str RouteError
read_device_file files path = elim (files path) [
  | content text ↦
      (let device = trim text in if is_empty device then err (device_empty path) else ok device)
  | not_found ↦ err (device_not_found path)
  | failed e ↦ err (io e)
]

-- `routes.entry(zone).or_default().insert(ip)`
unfoldable pub track :
    Str → IpAddr → HashMap Str (HashMap IpAddr (Unit {0})) → HashMap Str (HashMap IpAddr (Unit {0}))
track zone ip routes =
    let ips : HashMap IpAddr (Unit {0}) = elim (HashMap.get zone routes) [
      | none ↦ []
      | some set ↦ set
    ] in
    HashMap.insert zone (HashMap.insert ip tt ips) routes

unfoldable pub longest : IpAddr → ℕ
longest (v4 ip) = 32
longest (v6 ip) = 128

unfoldable pub parse_cidr : (Str → Option ℕ) → Str → Result (IpAddr × ℕ) RouteError
parse_cidr parse_v6 cidr = elim (split_once b'/' cidr) [
  | some (ip_str, prefix_str) ↦ elim (parse_ip parse_v6 ip_str) [
    | none ↦ err (unparsable_ip ip_str)
    | some ip ↦ elim (parse_u8 prefix_str) [
      | none ↦ err (unparsable_prefix prefix_str)
      | some prefix_len ↦
          let max = longest ip in
          if ltb max prefix_len then err (prefix_exceeds prefix_len max) else ok (ip, prefix_len)
    ]
  ]
  | none ↦ elim (parse_ip parse_v6 cidr) [
    | none ↦ err (unparsable_ip cidr)
    | some ip ↦ ok (ip, longest ip)
  ]
]

module _ {K : Type 0} (adder : RouteAdder K) (iter : HashMap ℕ Str → List (ℕ × Str)) where
  -- the match on the route type, which three methods have
  unfoldable pub add_typed : (Str → FileRead) → K → RouteType → Str → IpAddr → ℕ → K × Outcome
  add_typed files k via target ip prefix_len = adder.add_via_route k ip prefix_len target
  add_typed files k dev target ip prefix_len = elim (read_device_file files target) [
    | err e ↦ (k, err e)
    | ok device ↦ adder.add_dev_route k ip prefix_len device
  ]

  unfoldable pub execute_action : (Str → FileRead) → K → RouteAction → K × Outcome
  execute_action files k (add network prefix_len route_type route_target) =
      add_typed files k route_type route_target (v4 network) prefix_len
  execute_action files k (remove network prefix_len) = adder.remove_route k (v4 network) prefix_len

  -- `for action in &actions { self.execute_action(action).await?; }`
  unfoldable pub execute_actions : (Str → FileRead) → K → List RouteAction → K × Outcome
  execute_actions files k [] = (k, ok tt)
  execute_actions files k (action ∷ actions) =
      let (k', outcome) = execute_action files k action in
      elim outcome [ err e ↦ (k', err e) | ok done ↦ execute_actions files k' actions ]

  unfoldable pub add_route_v4 :
      (Str → FileRead) → RouteManager K → ℕ → ZoneConfig → RouteManager K × Outcome
  add_route_v4 files self ip zone =
      let (agg, actions) =
        process_ip iter self.aggregator ip zone.name zone.route_type zone.route_target in
      let (k, outcome) = execute_actions files self.kernel actions in
      let self' = record self { aggregator = agg; kernel = k } in
      if is_empty actions then (record self { aggregator = agg }, ok tt) else elim outcome [
        | err e ↦ (self', err e)
        | ok done ↦ (record self' { zone_routes = track zone.name (v4 ip) self.zone_routes }, ok tt)
      ]

  -- the end of `add_route_simple` and of `add_static_route`
  unfoldable pub add_tracked :
      (Str → FileRead) → RouteManager K → IpAddr → ℕ → ZoneConfig → RouteManager K × Outcome
  add_tracked files self ip prefix_len zone =
      let (k, outcome) =
        add_typed files self.kernel zone.route_type zone.route_target ip prefix_len in
      let self' = record self { kernel = k } in
      elim outcome [
        | err e ↦ (self', err e)
        | ok done ↦ (record self' { zone_routes = track zone.name ip self.zone_routes }, ok tt)
      ]

  unfoldable pub add_route :
      (Str → FileRead) → RouteManager K → IpAddr → ZoneConfig → RouteManager K × Outcome
  add_route files self (v4 ip) zone = add_route_v4 files self ip zone
  add_route files self (v6 ip) zone = add_tracked files self (v6 ip) 128 zone

  -- Only the address of the range is registered with the aggregator.
  unfoldable pub add_static_route :
      (Str → Option ℕ)
      → (Str → FileRead)
      → RouteManager K
      → Str
      → ZoneConfig
      → RouteManager K × Outcome
  add_static_route parse_v6 files self cidr zone = elim (parse_cidr parse_v6 cidr) [
    | err e ↦ (self, err e)
    | ok (ip, prefix_len) ↦ add_tracked files (registered ip) ip prefix_len zone
  ]
    where
      registered : IpAddr → RouteManager K
      registered (v4 ip) = record self {
        aggregator = Aggregator.register_static_ip self.aggregator ip zone.name;
      }
      registered (v6 ip) = self

unfoldable pub cleanup_zone : {K : Type 0} → RouteManager K → Str → RouteManager K
cleanup_zone self zone_name = record self {
  zone_routes = HashMap.remove zone_name self.zone_routes;
  aggregator = Aggregator.cleanup_zone self.aggregator zone_name;
}

unfoldable pub get_zone_route_count : {K : Type 0} → RouteManager K → Str → ℕ
get_zone_route_count self zone_name = elim (HashMap.get zone_name self.zone_routes) [
  | none ↦ 0
  | some set ↦ length set
]
