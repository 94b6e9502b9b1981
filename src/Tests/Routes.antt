-- ===== src/Tests/Routes.antt =====
-- Routing at concrete inputs: 10.0.0.1 is 167772161.
use leshy.Prelude.{
  Option, ℕ, ◌≡◌, ◌≢◌, ◌↔◌, refl, none, some, List, [], ◌∷◌, arith, nat_eq, pair_eq, list_eq, ◌==◌,
  if◌then◌else◌,
}
use leshy.Prelude.HashMap
use leshy.Prelude.HashMap.{HashMap}
use leshy.Prelude.Results.{ok, err}
use leshy.Prelude.Text.{Str, codes, split_once, decimal}
use leshy.Config.{RouteType, via, dev, v4, inclusive}
use leshy.Net
use leshy.Routing.Prefix.{network_address, split_network, ip_in_network}
use leshy.Routing.Aggregator.{
  RouteAggregator, uninstall, split, split_loop, split_around, carve, carve_all, register_static_ip,
  RouteOwner, RouteAction, add, process_ip, process_aggregated, process_uncovered,
  find_covering_route, find_covering_from, new, install, is_conflict,
}
use leshy.Routing.Aggregator.Replay.{Kernel, view, replay, apply_action, process_ip-replay}
use leshy.Routing.Aggregator.Fresh.{AllFree, run-AllFree}
use leshy.Routing.Aggregator.Routes.{process_ip-routes}
use leshy.Routing.Aggregator.Owners.{owner_of}
use leshy.Routing.Aggregator.Run.{
  Resolution, run, claims, last_zone, run-claims, run-last_zone, new-KeepsOwners,
}
use leshy.Routing.Aggregator.Disabled.{first_owner, run-first_owner}
use leshy.Routing.Manager.{
  RouteManager, Outcome, adder_failed, add_route_v4, execute_actions, execute_action, add_typed,
  cleanup_zone, parse_cidr, longest,
}
use leshy.Routing.Manager.Repeat.{add_route_v4-repeat}
use leshy.Routing.Manager.Mirror.{Installs, routed, add_route_v4-mirrors}
use leshy.Routing.Manager.Cidr.{IsCidr, parse_cidr-IsCidr}
use leshy.Routing.Manager.Cleanup.{cleanup_zone-forgets}
use leshy.Tests.Fixtures.{
  entries, entries-Iterates, work, home, work_owner, home_owner, zone, kept, table_adder,
  refusing_adder, files, no_v6, manager,
}

-- 10.0.0.1 for one zone, then 10.0.0.2 for another
abbrev two : List Resolution
two =
    record { ip = 167772161; owner = work_owner }
    ∷ record { ip = 167772162; owner = home_owner }
    ∷ []

run-claims_example :
    owner_of (find_covering_route 167772161 (run entries two (new (some 24))).installed)
    ≡ claims 24 two (λ _. none) 167772161
run-claims_example =
    run-claims entries entries-Iterates 24 two 167772161 (omega arith)
      (omega arith, (omega arith, tt)) (omega arith)

run-last_zone_example :
    (o : RouteOwner) × (owner_of
        (find_covering_route 167772162 (run entries two (new (some 24))).installed)
      ≡ some o)
    × (o.zone_name ≡ home)
unfolding last_zone
run-last_zone_example =
    run-last_zone entries entries-Iterates 24 two 167772162 home (omega arith)
      (omega arith, (omega arith, tt)) (omega arith) refl

-- The same address for one zone, then for another.
abbrev both_zones : List Resolution
both_zones =
    record { ip = 167772161; owner = work_owner }
    ∷ record { ip = 167772161; owner = home_owner }
    ∷ []

run-first_owner_example :
    owner_of (find_covering_route 167772161 (run entries both_zones (new none)).installed)
    ≡ first_owner 167772161 both_zones none
run-first_owner_example = run-first_owner entries both_zones 167772161 (omega arith)

-- After two calls, a third for another address of the block, which is the first zone's again.
run-AllFree_example :
    AllFree
      (process_ip entries (run entries two (new (some 24))) 167772163 work via (b'1' ∷ [])).1
      (view (run entries two (new (some 24))).installed)
run-AllFree_example =
    run-AllFree entries entries-Iterates 24 two (record { ip = 167772163; owner = work_owner })
      (omega arith) (omega arith, (omega arith, tt)) (omega arith)

process_ip-replay_example :
    view (process_ip entries (new (some 24)) 167772161 work via []).0.installed
    ≡ replay
        (process_ip entries (new (some 24)) 167772161 work via []).1
        (view (new (some 24)).installed)
process_ip-replay_example = process_ip-replay entries (new (some 24)) 167772161 work via []

process_ip-routes_example :
    (r : (ℕ × ℕ) × RouteOwner) × (find_covering_route 167772161
        (process_ip entries manager.aggregator 167772161 work via []).0.installed
      ≡ some r)
    × (r.1.zone_name ≡ work)
unfolding HashMap.get
process_ip-routes_example =
    process_ip-routes entries entries-Iterates manager.aggregator 167772161 work via []
      (omega arith) (omega arith) (λ k v e. absurd (ground arith))

-- The same call twice against a kernel that refuses the first.
abbrev refused : RouteManager Kernel
refused =
    (add_route_v4 refusing_adder entries files manager 167772161 (zone work inclusive [] [])).0

add_route_v4-repeat_example :
    add_route_v4 refusing_adder entries files refused 167772161 (zone work inclusive [] [])
    ≡ (refused, ok tt)
unfolding HashMap.get
add_route_v4-repeat_example =
    add_route_v4-repeat refusing_adder entries entries-Iterates files files manager 167772161
      (zone work inclusive [] []) (omega arith) (omega arith) (λ k v e. absurd (ground arith))

-- The first call of the two does fail, with the kernel's table as it was.
refused_fails :
    ((add_route_v4 refusing_adder entries files manager 167772161 (zone work inclusive [] [])).1
      ≡ err (adder_failed []))
    × (view refused.aggregator.installed (167772160, 24) ≡ some (via, b'1' ∷ []))
    × (refused.kernel (167772160, 24) ≡ none)
unfolding add_route_v4 execute_actions execute_action add_typed process_ip process_aggregated
    process_uncovered find_covering_route find_covering_from network_address HashMap.get
    HashMap.insert install view is_conflict
refused_fails = (refl, refl, refl)

-- The next hop of a call, as the fixtures' kernel keeps it.
abbrev pub pair : RouteType → Str → RouteType × Str
pair t target = (t, target)

kept-free :
    (a : RouteAction) (key : ℕ × ℕ) (k : Kernel) → k key ≡ none → kept a key k ≡ apply_action a k
unfolding kept
kept-free a key k free = rw (free, kept) refl

pub table_adder-Installs : Installs table_adder pair (λ k. k)
unfolding apply_action
table_adder-Installs = record {
  via_installs = λ k ip len gateway free done. kept-free (add ip len via gateway) (ip, len) k free;
  dev_installs = λ k ip len device free done. kept-free (add ip len dev device) (ip, len) k free;
  uninstalls = λ k ip len done. refl;
}

abbrev added : RouteManager Kernel × Outcome
added = add_route_v4 table_adder entries files manager 167772161 (zone work inclusive [] [])

table_mirrors : added.0.kernel ≡ routed pair files (view added.0.aggregator.installed)
unfolding add_route_v4 execute_actions execute_action add_typed process_ip process_aggregated
    process_uncovered find_covering_route find_covering_from network_address HashMap.get
    HashMap.insert install view is_conflict new kept
table_mirrors =
    add_route_v4-mirrors table_adder entries pair (λ k. k) table_adder-Installs files
      entries-Iterates manager (λ _. none) 167772161 (zone work inclusive [] []) (omega arith)
      (omega arith) (new-KeepsOwners entries entries-Iterates 24) refl refl

-- "10.0.0.1/8"
ten_slash_eight : IsCidr (v4 167772161, 8)
unfolding parse_cidr split_once decimal Net.parse_ip Net.parse_v4 Net.parse_octet Net.octets
    Net.at_most Net.parse_u8 Net.strip_plus longest
ten_slash_eight = parse_cidr-IsCidr no_v6 (codes "10.0.0.1/8") (v4 167772161) 8 refl

-- Two networks, the first of which is the zone's.
abbrev tracked : RouteManager Kernel
tracked = record manager {
  zone_routes = (work, (v4 167772161, tt) ∷ []) ∷ (home, (v4 167772161, tt) ∷ []) ∷ [];
  aggregator = record manager.aggregator {
    installed = ((167772160, 24), work_owner) ∷ ((167772161, 32), home_owner) ∷ [];
    known_ips = (167772161, work) ∷ (167772165, home) ∷ [];
  };
}

cleanup_zone-forgets_example :
    (HashMap.get home (cleanup_zone tracked work).zone_routes
      ≡ (if work == home then none else HashMap.get home tracked.zone_routes))
    × ((HashMap.get (167772161, 32) (cleanup_zone tracked work).aggregator.installed
          ≡ some home_owner)
        ↔ ((HashMap.get (167772161, 32) tracked.aggregator.installed ≡ some home_owner)
            × (home_owner.zone_name ≢ work)))
    × ((HashMap.get 167772165 (cleanup_zone tracked work).aggregator.known_ips ≡ some home)
        ↔ ((HashMap.get 167772165 tracked.aggregator.known_ips ≡ some home) × (home ≢ work)))
    × ¬ (
        (find_covering_route 167772165 (cleanup_zone tracked work).aggregator.installed
          ≡ some ((167772160, 24), work_owner))
        × (work_owner.zone_name ≡ work))
unfolding HashMap.get
cleanup_zone-forgets_example =
    cleanup_zone-forgets tracked work home (167772161, 32) home_owner 167772165 home
      ((167772160, 24), work_owner) (refl, (refl, HashMap.always)) (refl, (refl, HashMap.always))

-- 10.0.0.5 is a static address of one zone; the other resolves 10.0.0.1, then the first 10.0.0.5,
-- then a third zone 10.0.0.5.
abbrev resolve : ℕ → Str → RouteAggregator → RouteAggregator
resolve ip z agg = (process_ip entries agg ip z via []).0

abbrev nested : RouteAggregator
nested =
    resolve 167772165 work
      (resolve 167772161 home (register_static_ip manager.aggregator 167772165 work))

abbrev zone_at : ℕ → RouteAggregator → Option Str
zone_at ip agg = elim (find_covering_route ip agg.installed) [
  | none ↦ none
  | some r ↦ some r.1.zone_name
]

overwritten :
    (zone_at 167772161 nested ≡ some home)
    × (zone_at 167772161 (resolve 167772165 (b'g' ∷ []) nested) ≡ some work)
unfolding process_ip process_aggregated process_uncovered find_covering_route find_covering_from
    network_address HashMap.get HashMap.insert HashMap.remove install uninstall is_conflict split
    split_loop split_around split_network ip_in_network carve carve_all register_static_ip
overwritten = (refl, refl)
