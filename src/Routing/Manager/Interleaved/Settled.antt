-- ===== src/Routing/Manager/Interleaved/Settled.antt =====
-- Where overlapping calls are for addresses in different blocks, their order does not matter.
use leshy.Prelude.{ℕ, ◌≡◌, ◌<◌, nat_eq, pair_eq, List, list_eq}
use leshy.Prelude.HashMap.{HashMap}
use leshy.Prelude.Text.{Str}
use leshy.Prelude.Word.{u32_mod}
use leshy.Config.{RouteType}
use leshy.Routing.Aggregator.Replay.{Kernel, replay, view}
use leshy.Routing.Aggregator.WellFormed.{IsWellFormed}
use leshy.Routing.Manager.{RouteAdder, FileRead}
use leshy.Routing.Manager.Mirror.{Hops, routed}
use leshy.Routing.Aggregator.Owners.{Owners}
use leshy.Routing.Aggregator.Claims.{Keeps}
use leshy.Routing.Manager.Interleaved.Free.{Freed}
use leshy.Routing.Manager.Interleaved.Tasks.{pending, Clear, Separate}
use leshy.Routing.Manager.Interleaved.{
  Machine, Step, locks, succeeds, fails, returns, Steps, none_yet, and_then,
}

module _ {K : Type 0} (adder : RouteAdder K) (iter : HashMap ℕ Str → List (ℕ × Str))
    (files : Str → FileRead) where
  -- A call that takes the lock is for a block that no unfinished call is for, and no action fails.
  abbrev pub IsRegular : {m n : Machine K} → Step adder iter files m n → Type 0
  IsRegular (locks m ip zone) = (ip < u32_mod) × Clear m.manager.aggregator.prefix_len ip m.tasks
  IsRegular (succeeds m a us vs next done) = Unit
  IsRegular (fails m a us vs e next failed) = ⊥
  IsRegular (returns m ip zone us last) = Unit

  abbrev pub AllRegular : {m n : Machine K} → Steps adder iter files m n → Type 0
  AllRegular none_yet = Unit
  AllRegular (and_then steps step) = AllRegular steps × IsRegular step

  module _ {W : Type 0} (hop : RouteType → Str → W) (table : K → Hops W) where
    -- The kernel is where the actions ahead, which are free, lead to what the installed networks
    -- ask for.
    record Leads (m : Machine K) : Type 0 where
      shape : IsWellFormed m.manager.aggregator
      short : m.manager.aggregator.prefix_len < 32
      owners : Owners
      keeps :
          Keeps m.manager.aggregator.prefix_len m.manager.aggregator.known_ips
            m.manager.aggregator.installed owners
      separate : Separate m.manager.aggregator.prefix_len m.tasks
      so_far : Kernel
      freed : Freed m.tasks so_far
      reached : table m.manager.kernel ≡ routed hop files so_far
      ahead : replay (pending m.tasks) so_far ≡ view m.manager.aggregator.installed
