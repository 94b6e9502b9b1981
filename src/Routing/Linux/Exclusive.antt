-- ===== src/Routing/Linux/Exclusive.antt =====
-- The Linux adder on a kernel that keeps the route that a network has, as its manager relies on it.
use leshy.Prelude.{ℕ, ◌≡◌, Option, some, none, List, [], ◌∷◌, nat_eq}
use leshy.Prelude.Results.{ok, err}
use leshy.Prelude.Text.{Str}
use leshy.Config.{RouteType, via, dev, v4, v6}
use leshy.Net.{parse_ip}
use leshy.Routing.Manager.Mirror.{Hops, with_hop}
use leshy.Routing.Linux.{
  RouteAttribute, RouteMessage, destination, gateway, oif, Netlink, netlink_error,
}

-- The kernel's IPv4 routes, each as what follows the destination in the message that set it. A
-- message that adds is answered with success only if it set the route of a network, with the error
-- 17, EEXIST, only if the network has a route. A message that deletes names a route by its network,
-- whatever its family, scope and protocol: it is answered with success only if it took the
-- network's route away, with 3, ESRCH, only if there was none. A device keeps its index.
pub record KeepsRoutes {K : Type 0} (netlink : Netlink K) (table : K → Hops (List RouteAttribute))
    (index : Str → ℕ) : Type 0 where
  pub adds :
      (k : K) (m : RouteMessage) (ip : ℕ) (next : List RouteAttribute)
      → m.attributes ≡ destination (v4 ip) ∷ next
      → (netlink.route_add k m).1 ≡ ok tt
      → table (netlink.route_add k m).0
        ≡ with_hop (ip, m.destination_prefix_length) (some next) (table k)
  pub refuses :
      (k : K) (m : RouteMessage) (ip : ℕ) (next : List RouteAttribute) (text : Str)
      → m.attributes ≡ destination (v4 ip) ∷ next
      → (netlink.route_add k m).1 ≡ err (netlink_error (some 17) text)
      → (old : List RouteAttribute) × (table k (ip, m.destination_prefix_length) ≡ some old)
  pub deletes :
      (k : K) (m : RouteMessage) (ip : ℕ)
      → m.attributes ≡ destination (v4 ip) ∷ []
      → (netlink.route_del k m).1 ≡ ok tt
      → table (netlink.route_del k m).0 ≡ with_hop (ip, m.destination_prefix_length) none (table k)
  pub lacks :
      (k : K) (m : RouteMessage) (ip : ℕ) (text : Str)
      → m.attributes ≡ destination (v4 ip) ∷ []
      → (netlink.route_del k m).1 ≡ err (netlink_error (some 3) text)
      → (table k (ip, m.destination_prefix_length) ≡ none)
        × (table (netlink.route_del k m).0 ≡ table k)
  pub links :
      (k : K) (device : Str) (i : ℕ)
      → netlink.link_by_name k device ≡ ok (some i)
      → i ≡ index device

-- The next hop of an IPv4 route: a gateway, if the target is an IPv4 address, and a device's link.
abbrev pub next_hop : (Str → Option ℕ) → (Str → ℕ) → RouteType → Str → List RouteAttribute
next_hop parse_v6 index dev device = oif (index device) ∷ []
next_hop parse_v6 index via target = elim (parse_ip parse_v6 target) [
  | none ↦ []
  | some (v4 gw) ↦ gateway (v4 gw) ∷ []
  | some (v6 gw) ↦ []
]
