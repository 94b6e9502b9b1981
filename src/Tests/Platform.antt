-- ===== src/Tests/Platform.antt =====
-- The platforms' adders at concrete inputs: 10.0.0.0 is 167772160.
use leshy.Prelude.{
  nat_eq, list_eq, pair_eq, ℕ, ◌≡◌, refl, none, some, List, [], ◌∷◌, arith, Option, if◌then◌else◌,
  ◌==◌,
}
use leshy.Prelude.Results.{Result, ok, err}
use leshy.Prelude.Text.{Str, codes, split_once, decimal}
use leshy.Config.{ip_eq, v4, v6, ZoneConfig, inclusive}
use leshy.Net
use leshy.Net.{parse_ip}
use leshy.Routing.Manager.{parse_cidr, longest, RouteError}
use leshy.Routing.Macos.{destination, route_args, is_host, family_args}
use leshy.Routing.Macos.RoundTrip.{parse_cidr-destination}
use leshy.Routing.Linux
use leshy.Routing.Linux.{
  RouteMessage, RouteAttribute, Netlink, NetlinkFailure, Answer, netlink_error, other,
  add_via_route, add_message, gateway, gateway_attribute, reported, linux,
}
use leshy.Routing.Manager.Mirror.{Hops, with_hop}
use leshy.Prelude.HashMap
use leshy.Routing.Manager.{RouteManager, Outcome, add_route_v4}
use leshy.Tests.Fixtures.{no_v6, zone, work, entries, files}

-- A printer and a parser that know one address.
abbrev colons : ℕ → Str
colons ip = codes "::"

abbrev parse_colons : Str → Option ℕ
parse_colons s = if s == codes "::" then some 0 else none

parse_cidr-destination_example :
    parse_cidr parse_colons (destination colons (v6 0) 64) ≡ ok (v6 0, 64)
unfolding Net.parse_v4 split_once
parse_cidr-destination_example =
    parse_cidr-destination colons parse_colons (v6 0) 64 (omega arith)
      (record { parses = refl; lacks_slash = refl; is_no_v4 = refl })

-- route -n add -net 10.0.0.0/8 utun0, and the deletion of a host route
args_example :
    (route_args colons (codes "add") (v4 167772160) 8 (codes "-interface" ∷ codes "utun0" ∷ [])
      ≡ codes "-n"
        ∷ codes "add"
        ∷ codes "-net"
        ∷ codes "10.0.0.0/8"
        ∷ codes "-interface"
        ∷ codes "utun0"
        ∷ [])
    × (route_args colons (codes "delete") (v6 0) 128 []
        ≡ codes "-n" ∷ codes "delete" ∷ codes "-inet6" ∷ codes "-host" ∷ codes "::" ∷ [])
unfolding route_args destination is_host family_args longest Net.show_ip Net.show_v4 Net.show_u8
args_example = (refl, refl)

-- A kernel that is its table and keeps the route that a network has, in which `utun0` is link 7.
abbrev Table : Type 0
Table = Hops (List RouteAttribute)

abbrev set_in : Table → ℕ × ℕ → List RouteAttribute → Table × Answer
set_in k key next = elim (k key) [
  | none ↦ (with_hop key (some next) k, ok tt)
  | some old ↦ (k, err (netlink_error (some 17) []))
]

abbrev taken_from : Table → ℕ × ℕ → Table × Answer
taken_from k key = elim (k key) [
  | none ↦ (k, err (netlink_error (some 3) []))
  | some old ↦ (with_hop key none k, ok tt)
]

-- What is not set for an IPv4 network is answered with an error of no number.
abbrev answer : Table → RouteMessage → Table × Answer
answer k m = elim m.attributes [
  | Linux.destination (v4 ip) ∷ next ↦ set_in k (ip, m.destination_prefix_length) next
  | _ ↦ (k, err (other []))
]

abbrev removal : Table → RouteMessage → Table × Answer
removal k m = elim m.attributes [
  | Linux.destination (v4 ip) ∷ next ↦ taken_from k (ip, m.destination_prefix_length)
  | _ ↦ (k, err (other []))
]

abbrev kernel : Netlink Table
kernel = record {
  route_add = answer;
  route_del = removal;
  link_by_name = λ k device. if device == codes "utun0" then ok (some 7) else ok none;
}

-- Every link is 7, as there is one.
abbrev index : Str → ℕ
index device = 7

-- A new manager over that kernel adds 10.0.0.1 for a zone whose target is 10.0.0.9.
abbrev bare : RouteManager Table
bare = record {
  kernel = λ key. none;
  zone_routes = [];
  aggregator = record { installed = []; known_ips = []; prefix_len = 24 };
}

abbrev by_gateway : ZoneConfig
by_gateway = record (zone work inclusive [] []) { route_target = codes "10.0.0.9" }

abbrev mirrored : RouteManager Table × Outcome
mirrored = add_route_v4 (linux no_v6 kernel) entries files bare 167772161 by_gateway

-- 10.0.0.0/24 by the gateway 10.0.0.9
abbrev by_9 : Table × Result (Unit {0}) RouteError
by_9 = add_via_route no_v6 kernel (λ key. none) (v4 167772160) 24 (codes "10.0.0.9")

-- The same network by the gateway 10.0.0.8: a success, and the old gateway stays.
gateway_stays :
    ((add_via_route no_v6 kernel by_9.0 (v4 167772160) 24 (codes "10.0.0.8")).1 ≡ ok tt)
    × ((add_via_route no_v6 kernel by_9.0 (v4 167772160) 24 (codes "10.0.0.8")).0 (167772160, 24)
        ≡ some (gateway (v4 167772169) ∷ []))
unfolding Net.parse_ip Net.parse_v4 Net.parse_octet Net.octets Net.at_most split_once decimal
    add_via_route reported add_message gateway_attribute
gateway_stays = (refl, refl)
