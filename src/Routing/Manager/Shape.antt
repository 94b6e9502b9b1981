-- ===== src/Routing/Manager/Shape.antt =====
-- The manager's operations keep the aggregator's table in shape.
use leshy.Prelude.{ℕ, ◌<◌, Option, List, inl, inr, Bool-cases, is_empty}
use leshy.Prelude.HashMap.{HashMap}
use leshy.Prelude.Results.{Result-cases}
use leshy.Prelude.Text.{Str}
use leshy.Prelude.Word.{u32_mod}
use leshy.Config.{IpAddr, v4, v6, ZoneConfig}
use leshy.Routing.Aggregator.{process_ip}
use leshy.Routing.Aggregator.Routes.{Iterates}
use leshy.Routing.Aggregator.WellFormed.{IsWellFormed}
use leshy.Routing.Aggregator.WellFormed.Calls.{
  process_ip-IsWellFormed, register_static_ip-IsWellFormed, cleanup_zone-IsWellFormed,
}
use leshy.Routing.Manager.{
  RouteManager, RouteAdder, FileRead, add_route, add_route_v4, add_tracked, add_typed,
  add_static_route, cleanup_zone, execute_actions, parse_cidr,
}
use leshy.Routing.Manager.Cidr.{parse_cidr-IsCidr}

-- An IPv4 address is a 32-bit number.
abbrev pub IsAddress : IpAddr → Type 0
IsAddress (v4 n) = n < u32_mod
IsAddress (v6 n) = Unit

module _ {K : Type 0} where
  abbrev pub IsShaped : RouteManager K → Type 0
  IsShaped m = IsWellFormed m.aggregator

  pub cleanup_zone-IsShaped :
      (m : RouteManager K) (zone : Str) → IsShaped m → IsShaped (cleanup_zone m zone)
  unfolding cleanup_zone
  cleanup_zone-IsShaped m zone w = cleanup_zone-IsWellFormed m.aggregator zone w

  module _ (adder : RouteAdder K) (iter : HashMap ℕ Str → List (ℕ × Str))
      (iterates : Iterates iter) where
    add_tracked-IsShaped :
        (files : Str → FileRead) (m : RouteManager K) (ip : IpAddr) (prefix_len : ℕ)
        (zone : ZoneConfig)
        → IsShaped m
        → IsShaped (add_tracked adder iter files m ip prefix_len zone).0
    unfolding add_tracked
    add_tracked-IsShaped files m ip prefix_len zone w =
        elim (Result-cases
          (add_typed adder iter files m.kernel zone.route_type zone.route_target ip prefix_len).1) [
            | inl (u, e) ↦ rw (e, add_tracked) w
            | inr (x, e) ↦ rw (e, add_tracked) w
          ]

    add_route_v4-IsShaped :
        (files : Str → FileRead) (m : RouteManager K) (ip : ℕ) (zone : ZoneConfig)
        → ip < u32_mod
        → IsShaped m
        → IsShaped (add_route_v4 adder iter files m ip zone).0
    unfolding add_route_v4
    add_route_v4-IsShaped files m ip zone hip w =
        let p = process_ip iter m.aggregator ip zone.name zone.route_type zone.route_target in
        let shaped =
          (process_ip-IsWellFormed iter iterates m.aggregator w ip hip zone.name zone.route_type
            zone.route_target).0 in
        elim (Bool-cases (is_empty p.1)) [
          | inl e ↦ rw e shaped
          | inr e ↦ elim (Result-cases (execute_actions adder iter files m.kernel p.1).1) [
            | inl (u, ran) ↦ rw e (rw ran shaped)
            | inr (x, ran) ↦ rw e (rw ran shaped)
          ]
        ]

    pub add_route-IsShaped :
        (files : Str → FileRead) (m : RouteManager K) (ip : IpAddr) (zone : ZoneConfig)
        → IsAddress ip
        → IsShaped m
        → IsShaped (add_route adder iter files m ip zone).0
    unfolding add_route
    add_route-IsShaped files m (v4 ip) zone h w = add_route_v4-IsShaped files m ip zone h w
    add_route-IsShaped files m (v6 ip) zone h w = add_tracked-IsShaped files m (v6 ip) 128 zone w

    pub add_static_route-IsShaped :
        (parse_v6 : Str → Option ℕ) (files : Str → FileRead) (m : RouteManager K) (cidr : Str)
        (zone : ZoneConfig)
        → IsShaped m
        → IsShaped (add_static_route adder iter parse_v6 files m cidr zone).0
    unfolding add_static_route
    add_static_route-IsShaped parse_v6 files m cidr zone w =
        elim (Result-cases (parse_cidr parse_v6 cidr)) [
          | inr (x, e) ↦ rw (e, add_static_route) w
          | inl ((v4 ip, n), e) ↦
              let fits = parse_cidr-IsCidr parse_v6 cidr (v4 ip) n e in
              rw (e, add_static_route)
                (add_tracked-IsShaped files _ (v4 ip) n zone
                  (register_static_ip-IsWellFormed m.aggregator ip zone.name fits.0 w))
          | inl ((v6 ip, n), e) ↦
              rw (e, add_static_route) (add_tracked-IsShaped files m (v6 ip) n zone w)
        ]
