-- ===== src/Tests/Retrying.antt =====
-- Rounds of the retry loop at concrete inputs.
use mathlib.Core.Path.{subst}
use leshy.Prelude.{
  ℕ, ◌≡◌, refl, sym, Option-cases, some, none, if◌then◌else◌, ◌==◌, pair_eq, inl, inr, List, [],
  ◌∷◌, Bool, true, false, nat_eq, list_eq, In,
}
use leshy.Prelude.Results.{ok, err}
use leshy.Prelude.Text
use leshy.Prelude.Text.{Str, codes}
use leshy.Config.{ZoneConfig, RouteType, inclusive, via, dev, v4, IpAddr}
use leshy.Net
use leshy.Routing.Aggregator.Replay.{Kernel, apply_action}
use leshy.Routing.Aggregator.{add}
use leshy.Routing.Manager
use leshy.Routing.Manager.{
  RouteAdder, Outcome, adder_failed, get_zone_route_count, FileRead, not_found, RouteError,
  prefix_exceeds, parse_cidr,
}
use leshy.Routing.Manager.Tracked.{IsTracked, IsAppliable}
use leshy.Dns.Handler
use leshy.Dns.Handler.{run_task, DnsHandler, Request, handle_request, check_cache, forward}
use leshy.Main.{apply_own_static_routes, Round, retry_static_routes}
use leshy.Main.Retry.{
  KeepsZones, IsReady, retry_static_routes-ends, retry_static_routes_complete,
  retry_static_routes-stuck,
}
use leshy.Tests.Fixtures.{
  zone, config, work, lower, plain, kept, table_adder, entries, no_v6, files,
}
use leshy.Tests.Answers.{hickory, handler}

-- A device's route, whose file is missing in the first round.
abbrev tunnel : ZoneConfig
tunnel = record (zone work inclusive [] (codes "10.0.0.0/8" ∷ [])) { route_type = dev }

abbrev tunnelled : List Str → DnsHandler lower plain hickory Kernel
tunnelled static_routes = record handler {
  config = config (record tunnel { static_routes = static_routes } ∷ []);
}

abbrev Rounds : Type 0
Rounds = List (Round lower plain hickory table_adder entries no_v6)

abbrev down : Round lower plain hickory table_adder entries no_v6
down = record { meanwhile = λ h. h; files = λ p. not_found }

abbrev up : Round lower plain hickory table_adder entries no_v6
up = record { meanwhile = λ h. h; files = files }

-- A kernel that takes a device's route only while it has a default route.
abbrev HasDefault : Kernel → Type 0
HasDefault k = k (0, 0) ≡ some (via, b'1' ∷ [])

unfoldable add_if_up : Kernel → IpAddr → ℕ → Str → Kernel × Outcome
add_if_up k ip len device = elim (k (0, 0)) [
  | none ↦ (k, err (adder_failed []))
  | some hop ↦ table_adder.add_dev_route k ip len device
]

abbrev link_adder : RouteAdder Kernel
link_adder = record table_adder { add_dev_route = add_if_up }

abbrev bring_up : DnsHandler lower plain hickory Kernel → DnsHandler lower plain hickory Kernel
bring_up h = record h {
  route_manager = record h.route_manager {
    kernel = λ key. if key == (0, 0) then some (via, b'1' ∷ []) else h.route_manager.kernel key;
  };
}

abbrev refused : Round lower plain hickory link_adder entries no_v6
refused = record { meanwhile = λ h. h; files = files }

abbrev linked : Round lower plain hickory link_adder entries no_v6
linked = record { meanwhile = bring_up; files = files }

keeps_zones :
    (b : Round lower plain hickory link_adder entries no_v6)
    → In b (refused ∷ [])
    → KeepsZones lower plain hickory link_adder entries no_v6 (tunnel ∷ []) b
keeps_zones b (inl e) =
    subst (KeepsZones lower plain hickory link_adder entries no_v6 (tunnel ∷ [])) (sym e)
      (λ self same. same)
keeps_zones b (inr never) = elim never [ ]

default_stays :
    (k : Kernel) (hop : RouteType × Str)
    → HasDefault k
    → HasDefault (kept (add 167772160 8 hop.0 hop.1) (167772160, 8) k)
unfolding kept apply_action
default_stays k hop e = elim (Option-cases (k (167772160, 8))) [
  | inl free ↦ rw (free, kept) e
  | inr (old, had) ↦ rw (had, kept) e
]

link-takes :
    (k : Kernel) (device : Str)
    → HasDefault k
    → ((add_if_up k (v4 167772160) 8 device).1 ≡ ok tt)
      × HasDefault (add_if_up k (v4 167772160) 8 device).0
unfolding add_if_up
link-takes k device e = rw (e, add_if_up) (refl, default_stays k (dev, device) e)

tunnel-IsAppliable :
    IsAppliable link_adder entries no_v6 files tunnel HasDefault (codes "10.0.0.0/8")
unfolding parse_cidr Net.parse_ip Net.parse_v4 Net.parse_octet Net.octets Net.at_most Net.parse_u8
    Net.strip_plus Manager.longest Text.split_once Text.decimal Manager.add_typed
    Manager.read_device_file Text.trim Text.trim_start Text.trim_end Text.is_whitespace
tunnel-IsAppliable = ((v4 167772160, 8), refl, λ k up. link-takes k (codes "tun") up)

linked-IsReady :
    IsReady lower plain hickory link_adder entries no_v6 HasDefault (tunnel ∷ []) linked
linked-IsReady zone cidr (inr never, open_, c) = elim never [ ]
linked-IsReady zone cidr (inl same, open_, c) =
    elim (subst (λ (z : ZoneConfig). In cidr z.static_routes) same c) [
      | inr never ↦ elim never [ ]
      | inl e ↦
          subst (λ (z : ZoneConfig). IsAppliable link_adder entries no_v6 files z HasDefault cidr)
            (sym same)
            (subst (IsAppliable link_adder entries no_v6 files tunnel HasDefault) (sym e)
              tunnel-IsAppliable)
    ]

-- The kernel refuses in the first round.
retry_static_routes-ends_example :
    (retry_static_routes lower plain hickory link_adder entries no_v6
      (refused ∷ linked ∷ [])
      (tunnelled (codes "10.0.0.0/8" ∷ []))).1
    ≡ true
retry_static_routes-ends_example =
    retry_static_routes-ends lower plain hickory link_adder entries no_v6 HasDefault (tunnel ∷ [])
      (refused ∷ []) linked [] (tunnelled (codes "10.0.0.0/8" ∷ [])) refl keeps_zones
      (λ self same. same) (λ self same. refl) linked-IsReady

abbrev retried : DnsHandler lower plain hickory Kernel × Bool
retried =
    retry_static_routes lower plain hickory table_adder entries no_v6 (down ∷ up ∷ [])
      (tunnelled (codes "10.0.0.0/8" ∷ []))

retry_static_routes_complete_example :
    (p : IpAddr × ℕ) × (parse_cidr no_v6 (codes "10.0.0.0/8") ≡ ok p)
    × IsTracked retried.0.route_manager work p.0
unfolding retry_static_routes apply_own_static_routes Handler.apply_static_routes Handler.apply_zone
    Manager.add_static_route Manager.add_tracked parse_cidr Net.parse_ip Net.parse_v4
    Net.parse_octet Net.octets Net.at_most Net.parse_u8 Net.strip_plus Manager.longest
    Text.split_once Text.decimal Manager.add_typed Manager.read_device_file Text.trim
    Text.trim_start Text.trim_end Text.is_whitespace
retry_static_routes_complete_example =
    retry_static_routes_complete lower plain hickory table_adder entries no_v6 (down ∷ up ∷ [])
      (tunnelled (codes "10.0.0.0/8" ∷ [])) tunnel (codes "10.0.0.0/8") refl
      (inl refl, refl, inl refl)

-- 33 is no prefix length of IPv4.
abbrev wrong : ZoneConfig
wrong = record tunnel { static_routes = codes "10.0.0.0/33" ∷ [] }

wrong_keeps :
    (b : Round lower plain hickory table_adder entries no_v6)
    → In b (up ∷ [])
    → KeepsZones lower plain hickory table_adder entries no_v6 (wrong ∷ []) b
wrong_keeps b (inl e) =
    subst (KeepsZones lower plain hickory table_adder entries no_v6 (wrong ∷ [])) (sym e)
      (λ self same. same)
wrong_keeps b (inr never) = elim never [ ]

retry_static_routes-stuck_example :
    (retry_static_routes lower plain hickory table_adder entries no_v6
      (up ∷ [])
      (tunnelled (codes "10.0.0.0/33" ∷ []))).1
    ≡ false
unfolding parse_cidr Net.parse_ip Net.parse_v4 Net.parse_octet Net.octets Net.at_most Net.parse_u8
    Net.strip_plus Manager.longest Text.split_once Text.decimal
retry_static_routes-stuck_example =
    retry_static_routes-stuck lower plain hickory table_adder entries no_v6 (wrong ∷ []) wrong
      (codes "10.0.0.0/33") (prefix_exceeds 33 32) (up ∷ []) (tunnelled (codes "10.0.0.0/33" ∷ []))
      (inl refl, refl, inl refl) refl refl wrong_keeps
