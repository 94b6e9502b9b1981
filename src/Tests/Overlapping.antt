-- ===== src/Tests/Overlapping.antt =====
-- Calls of `add_route_v4` that overlap, and a history of the aggregator.
use leshy.Prelude.{ℕ, ◌≡◌, refl, some, none, List, [], ◌∷◌, arith}
use leshy.Prelude.HashMap
use leshy.Config.{ZoneConfig, via, inclusive}
use leshy.Routing.Prefix.{network_address, split_network, ip_in_network}
use leshy.Routing.Aggregator.{
  RouteAction, add, process_ip, process_aggregated, process_uncovered, find_covering_route,
  find_covering_from, install, uninstall, is_conflict, split, split_loop, split_around, new,
}
use leshy.Routing.Aggregator.Replay.{Kernel, view, replay, apply_action}
use leshy.Routing.Aggregator.WellFormed.{IsWellFormed}
use leshy.Routing.Aggregator.WellFormed.Calls.{
  Call, resolves, registers, cleans, run, step, history-IsWellFormed,
}
use leshy.Routing.Manager.{execute_action, add_typed}
use leshy.Routing.Manager.Interleaved.{
  task, Machine, first, later, first_done, later_done, lock, carry_out, finish, locks, succeeds,
  returns, Steps, none_yet, and_then,
}
use leshy.Tests.Fixtures.{
  entries, entries-Iterates, work, home, zone, kept, table_adder, files, manager,
}

abbrev history : List Call
history =
    registers 167772165 work
    ∷ resolves 167772161 home via []
    ∷ cleans work
    ∷ resolves 167772162 work via []
    ∷ []

history-IsWellFormed_applied : IsWellFormed (run entries (new (some 24)) history)
history-IsWellFormed_applied =
    history-IsWellFormed entries entries-Iterates (some 24) history (omega arith)
      (omega arith, (omega arith, (tt, (omega arith, tt))))

abbrev work_zone : ZoneConfig
work_zone = zone work inclusive [] []

abbrev home_zone : ZoneConfig
home_zone = zone home inclusive [] []

-- 10.0.0.1 and 10.0.1.1, which are not of one /24
abbrev idle : Machine Kernel
idle = record { manager = manager; tasks = [] }

abbrev one : Machine Kernel
one = lock table_adder entries files idle 167772161 work_zone

abbrev both : Machine Kernel
both = lock table_adder entries files one 167772417 home_zone

abbrev add_of : ℕ → RouteAction
add_of net = add net 24 via (b'1' ∷ [])

-- The second is done before the first.
abbrev second_added : Machine Kernel
second_added =
    carry_out table_adder entries files both (add_of 167772416)
      (task 167772161 work_zone (add_of 167772160 ∷ []) ∷ task 167772417 home_zone [] ∷ [])

abbrev second_done : Machine Kernel
second_done =
    finish table_adder entries files second_added 167772417 home_zone
      (task 167772161 work_zone (add_of 167772160 ∷ []) ∷ [])

abbrev first_added : Machine Kernel
first_added =
    carry_out table_adder entries files second_done (add_of 167772160)
      (task 167772161 work_zone [] ∷ [])

abbrev settled : Machine Kernel
settled = finish table_adder entries files first_added 167772161 work_zone []

unfoldable schedule : Steps table_adder entries files idle settled
unfolding lock carry_out finish execute_action add_typed process_ip process_aggregated
    process_uncovered find_covering_route find_covering_from network_address HashMap.get
    HashMap.insert install is_conflict ip_in_network kept
schedule =
    and_then
      (and_then
        (and_then
          (and_then
            (and_then (and_then none_yet (locks idle 167772161 work_zone))
              (locks one 167772417 home_zone))
            (succeeds both (add_of 167772416) _
              (task 167772161 work_zone (add_of 167772160 ∷ []) ∷ []) (later first) refl))
          (returns second_added 167772417 home_zone _ (later_done first_done)))
        (succeeds second_done (add_of 167772160) _ [] first refl))
      (returns first_added 167772161 work_zone [] first_done)

-- 10.0.0.1 and 10.0.0.2, of one /24, where the second call carries all its actions out first: the
-- kernel keeps the aggregate that the second call took out of the table.
abbrev late : Kernel
late =
    let work_call = process_ip entries manager.aggregator 167772161 work via (b'1' ∷ []) in
    let home_call = process_ip entries work_call.0 167772162 home via (b'1' ∷ []) in
    replay work_call.1 (replay home_call.1 (view manager.aggregator.installed))

abbrev wanted : Kernel
wanted =
    view
      (run entries manager.aggregator (
        resolves 167772161 work via (b'1' ∷ [])
        ∷ resolves 167772162 home via (b'1' ∷ [])
        ∷ [])).installed

stale_aggregate : (late (167772160, 24) ≡ some (via, b'1' ∷ [])) × (wanted (167772160, 24) ≡ none)
unfolding process_ip process_aggregated process_uncovered find_covering_route find_covering_from
    network_address HashMap.get HashMap.insert HashMap.remove install uninstall is_conflict split
    split_loop split_around split_network ip_in_network view replay apply_action run step
stale_aggregate = (refl, refl)
