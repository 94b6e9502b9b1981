-- ===== src/Routing/Manager/Interleaved/Chosen.antt =====
-- How the kernel routes each address when overlapping calls have returned: the longest prefix around
-- it, against the claims of the calls in the order in which they took the aggregator's lock.
use leshy.Prelude.{ℕ, zero, suc, Option, none, some, List, [], ◌∷◌, ◌++◌, nat_eq, pair_eq}
use leshy.Prelude.HashMap
use leshy.Prelude.HashMap.{HashMap}
use leshy.Prelude.Text.{Str}
use leshy.Config.{ZoneConfig}
use leshy.Routing.Prefix.{network_address}
use leshy.Routing.Aggregator.Run.{Resolution}
use leshy.Routing.Manager.{RouteAdder, FileRead}
use leshy.Routing.Manager.Mirror.{Hops}
use leshy.Routing.Manager.Interleaved.{
  Machine, locks, succeeds, fails, returns, Steps, none_yet, and_then,
}

abbrev pub or_else : {W : Type 0} → Option W → Option W → Option W
or_else none w = w
or_else (some v) w = some v

-- The next hop with the longest prefix of at most the given length around an address.
unfoldable pub chosen_from : {W : Type 0} → ℕ → ℕ → Hops W → Option W
chosen_from zero ip k = k (network_address ip 0, 0)
chosen_from (suc p) ip k = or_else (k (network_address ip (suc p), suc p)) (chosen_from p ip k)

abbrev pub chosen : {W : Type 0} → ℕ → Hops W → Option W
chosen ip k = chosen_from 32 ip k

abbrev resolution : ℕ → ZoneConfig → Resolution
resolution ip zone = record {
  ip = ip;
  owner = record {
    zone_name = zone.name;
    route_type = zone.route_type;
    route_target = zone.route_target;
  };
}

module _ {K : Type 0} (adder : RouteAdder K) (iter : HashMap ℕ Str → List (ℕ × Str))
    (files : Str → FileRead) where
  -- The calls, in the order in which they took the lock.
  pub resolutions : {m n : Machine K} → Steps adder iter files m n → List Resolution
  resolutions none_yet = []
  resolutions (and_then steps (locks m ip zone)) = resolutions steps ++ resolution ip zone ∷ []
  resolutions (and_then steps (succeeds m a us vs next done)) = resolutions steps
  resolutions (and_then steps (fails m a us vs e next failed)) = resolutions steps
  resolutions (and_then steps (returns m ip zone us last)) = resolutions steps
