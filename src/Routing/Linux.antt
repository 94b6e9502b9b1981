-- ===== src/Routing/Linux.antt =====
-- src/routing/linux.rs: `LinuxRouteAdder`, which sends every call to the kernel as a netlink message.
-- The crate `rtnetlink` and the kernel behind it are a record of functions on the kernel's state. A
-- message has what the program sets; a field that it leaves alone is absent.
pub mod Exclusive
use leshy.Prelude.{ℕ, Bool, Option, some, none, List, [], ◌∷◌, ◌++◌, if◌then◌else◌, eqb}
use leshy.Prelude.Results.{Result, ok, err}
use leshy.Prelude.Text.{Str}
use leshy.Config.{IpAddr, v4, v6}
use leshy.Net.{parse_ip}
use leshy.Routing.Manager.{RouteAdder, Outcome, RouteError, adder_failed, unparsable_ip, no_device}

pub data AddressFamily : Type 0 where
  inet : AddressFamily
  inet6 : AddressFamily

pub data RouteScope : Type 0 where
  universe : RouteScope
  link : RouteScope

pub data RouteProtocol : Type 0 where
  boot : RouteProtocol

pub data RouteAttribute : Type 0 where
  destination : IpAddr → RouteAttribute
  gateway : IpAddr → RouteAttribute
  oif : ℕ → RouteAttribute

pub record RouteMessage : Type 0 where
  pub address_family : Option AddressFamily
  pub destination_prefix_length : ℕ
  pub attributes : List RouteAttribute
  pub scope : Option RouteScope
  pub protocol : Option RouteProtocol

-- `rtnetlink::Error`: an answer of the kernel has the number of an error, here without its minus
-- sign, or none; with the text of the error
pub data NetlinkFailure : Type 0 where
  netlink_error : Option ℕ → Str → NetlinkFailure
  other : Str → NetlinkFailure

abbrev pub Answer : Type 0
Answer = Result (Unit {0}) NetlinkFailure

-- `route().add()`, `route().del()` and the first link that has a name
pub record Netlink (K : Type 0) : Type 0 where
  pub route_add : K → RouteMessage → K × Answer
  pub route_del : K → RouteMessage → K × Answer
  pub link_by_name : K → Str → Result (Option ℕ) NetlinkFailure

unfoldable pub family : IpAddr → AddressFamily
family (v4 ip) = inet
family (v6 ip) = inet6

-- The gateway, if it is of the family of the destination.
unfoldable pub gateway_attribute : IpAddr → IpAddr → List RouteAttribute
gateway_attribute (v4 ip) (v4 gw) = gateway (v4 gw) ∷ []
gateway_attribute (v6 ip) (v6 gw) = gateway (v6 gw) ∷ []
gateway_attribute _ _ = []

unfoldable pub add_message : IpAddr → ℕ → List RouteAttribute → RouteScope → RouteMessage
add_message ip prefix_len next scope = record {
  address_family = some (family ip);
  destination_prefix_length = prefix_len;
  attributes = destination ip ∷ next;
  scope = some scope;
  protocol = none;
}

-- Only for IPv6 is the family set.
unfoldable pub del_message : IpAddr → ℕ → RouteMessage
del_message ip prefix_len = record {
  address_family = elim ip [ v4 a ↦ none | v6 a ↦ some inet6 ];
  destination_prefix_length = prefix_len;
  attributes = destination ip ∷ [];
  scope = none;
  protocol = some boot;
}

-- The kernel's answer as an outcome, where one number of an error is none.
unfoldable pub reported : ℕ → Answer → Outcome
reported harmless (ok done) = ok tt
reported harmless (err (netlink_error (some code) text)) =
    if eqb code harmless then ok tt else err (adder_failed text)
reported harmless (err (netlink_error none text)) = err (adder_failed text)
reported harmless (err (other text)) = err (adder_failed text)

-- EEXIST and ESRCH
abbrev pub already_exists : ℕ
already_exists = 17

abbrev pub no_such_route : ℕ
no_such_route = 3

unfoldable pub failure_text : NetlinkFailure → Str
failure_text (netlink_error code text) = text
failure_text (other text) = text

module _ {K : Type 0} (parse_v6 : Str → Option ℕ) (netlink : Netlink K) where
  unfoldable pub add_via_route : K → IpAddr → ℕ → Str → K × Outcome
  add_via_route k ip prefix_len gw = elim (parse_ip parse_v6 gw) [
    | none ↦ (k, err (unparsable_ip gw))
    | some gateway_ip ↦
        let (k', answer) =
          netlink.route_add k
            (add_message ip prefix_len (gateway_attribute ip gateway_ip) universe) in
        (k', reported already_exists answer)
  ]

  unfoldable pub add_dev_route : K → IpAddr → ℕ → Str → K × Outcome
  add_dev_route k ip prefix_len device = elim (netlink.link_by_name k device) [
    | err e ↦ (k, err (adder_failed (failure_text e)))
    | ok none ↦ (k, err (no_device device))
    | ok (some index) ↦
        let (k', answer) = netlink.route_add k (add_message ip prefix_len (oif index ∷ []) link) in
        (k', reported already_exists answer)
  ]

  unfoldable pub remove_route : K → IpAddr → ℕ → K × Outcome
  remove_route k ip prefix_len =
      let (k', answer) = netlink.route_del k (del_message ip prefix_len) in
      (k', reported no_such_route answer)

  abbrev pub linux : RouteAdder K
  linux = record {
    add_via_route = add_via_route;
    add_dev_route = add_dev_route;
    remove_route = remove_route;
  }
