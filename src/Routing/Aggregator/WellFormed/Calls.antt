-- ===== src/Routing/Aggregator/WellFormed/Calls.antt =====
-- The shape under every method, and under all of them in any order.
use leshy.Prelude.{
  ℕ, ◌≡◌, ◌≤◌, ◌<◌, Option, some, none, arith, nat_eq, pair_eq, list_eq, List, [], ◌∷◌, inl, inr,
  Bool-cases, ◌==◌, not, Eq, Bool, leb,
}
use leshy.Prelude.HashMap
use leshy.Prelude.HashMap.{HashMap}
use leshy.Prelude.Text.{Str}
use leshy.Prelude.Word.{u32_mod}
use leshy.Config.{RouteType}
use leshy.Routing.Aggregator.{
  RouteOwner, RouteAggregator, process_ip, new, register_static_ip, cleanup_zone,
}
use leshy.Routing.Aggregator.Routes.{Iterates, AreAddresses}
use leshy.Routing.Aggregator.WellFormed.Process.{process_host-Good, process_aggregated-Good}
use leshy.Routing.Aggregator.WellFormed.{IsWellFormed, AllInside}

insert-AreAddresses :
    (ip : ℕ) (zone : Str) (known : HashMap ℕ Str)
    → ip < u32_mod
    → AreAddresses known
    → AreAddresses (HashMap.insert ip zone known)
insert-AreAddresses ip zone known hip h a z e =
    ground (arith, HashMap.get-insert ip a zone known, h a z)

module _ (iter : HashMap ℕ Str → List (ℕ × Str)) (iterates : Iterates iter) (agg : RouteAggregator)
    (w : IsWellFormed agg) (ip : ℕ) (hip : ip < u32_mod) (zone : Str) (t : RouteType)
    (target : Str) where
  noted-IsWellFormed :
      IsWellFormed (record agg { known_ips = HashMap.insert ip zone agg.known_ips })
  noted-IsWellFormed = record {
    short = w.short;
    table = w.table;
    distinct = HashMap.insert-IsDistinct ip zone agg.known_ips w.distinct;
    known = insert-AreAddresses ip zone agg.known_ips hip w.known;
  }

  -- `process_ip` keeps the shape, and its actions are on networks inside the block of the address.
  pub process_ip-IsWellFormed :
      IsWellFormed (process_ip iter agg ip zone t target).0
      × AllInside agg.prefix_len ip (process_ip iter agg ip zone t target).1
  unfolding process_ip
  process_ip-IsWellFormed =
      let owner : RouteOwner = record { zone_name = zone; route_type = t; route_target = target } in
      let noted = noted-IsWellFormed in
      elim (Bool-cases (leb 32 agg.prefix_len)) [
        | inl e ↦ rw e (
            let g =
              process_host-Good iter iterates _ noted ip hip owner (ground (arith, w.short)) in
            (
              record {
                short = w.short;
                table = g.table;
                distinct = noted.distinct;
                known = noted.known;
              },
              g.inside,
            ))
        | inr e ↦ rw e (
            let g = process_aggregated-Good iter iterates _ noted ip hip owner in
            (
              record {
                short = w.short;
                table = g.table;
                distinct = noted.distinct;
                known = noted.known;
              },
              g.inside,
            ))
      ]

-- What a retained table holds, it held before.
retain-was :
    {K : Type 0} {V : Type 0} ⦃key : Eq K⦄ (p : V → Bool) (k : K) (v : V) (m : HashMap K V)
    → HashMap.IsDistinct m
    → HashMap.get k (HashMap.retain p m) ≡ some v
    → HashMap.get k m ≡ some v
retain-was p k v m d h = ground (arith, HashMap.get-retain_distinct p k m d)

pub register_static_ip-IsWellFormed :
    (agg : RouteAggregator) (ip : ℕ) (zone : Str)
    → ip < u32_mod
    → IsWellFormed agg
    → IsWellFormed (register_static_ip agg ip zone)
unfolding register_static_ip
register_static_ip-IsWellFormed agg ip zone hip w = record {
  short = w.short;
  table = w.table;
  distinct = HashMap.insert-IsDistinct ip zone agg.known_ips w.distinct;
  known = insert-AreAddresses ip zone agg.known_ips hip w.known;
}

pub cleanup_zone-IsWellFormed :
    (agg : RouteAggregator) (zone : Str) → IsWellFormed agg → IsWellFormed (cleanup_zone agg zone)
unfolding cleanup_zone
cleanup_zone-IsWellFormed agg zone w =
    let others = λ (o : RouteOwner). not (o.zone_name == zone) in
    let other_zones = λ (z : Str). not (z == zone) in
    record {
      short = w.short;
      table = record {
        distinct = HashMap.retain-IsDistinct others agg.installed w.table.distinct;
        networks = λ net q o found.
            w.table.networks net q o
              (retain-was others (net, q) o agg.installed w.table.distinct found);
      };
      distinct = HashMap.retain-IsDistinct other_zones agg.known_ips w.distinct;
      known = λ k v found. w.known k v (retain-was other_zones k v agg.known_ips w.distinct found);
    }

-- A call of a method that changes the aggregator.
pub data Call : Type 0 where
  resolves : ℕ → Str → RouteType → Str → Call
  registers : ℕ → Str → Call
  cleans : Str → Call

-- The address of a call is one.
abbrev pub IsCall : Call → Type 0
IsCall (resolves ip zone t target) = ip < u32_mod
IsCall (registers ip zone) = ip < u32_mod
IsCall (cleans zone) = Unit

abbrev pub AreCalls : List Call → Type 0
AreCalls [] = Unit
AreCalls (c ∷ calls) = IsCall c × AreCalls calls

-- An aggregation prefix that a configuration may set.
abbrev pub IsPrefix : Option ℕ → Type 0
IsPrefix none = Unit
IsPrefix (some n) = n ≤ 32

get-empty : {K : Type 0} {V : Type 0} ⦃key : Eq K⦄ (k : K) (v : V) → HashMap.get k [] ≡ some v → ⊥
unfolding HashMap.get
get-empty k v e = ground arith

pub empty-IsWellFormed :
    (n : ℕ) → n ≤ 32 → IsWellFormed (record { installed = []; known_ips = []; prefix_len = n })
empty-IsWellFormed n h = record {
  short = h;
  table = record {
    distinct = HashMap.always;
    networks = λ net q o e. absurd (get-empty (net, q) o e);
  };
  distinct = HashMap.always;
  known = λ k v e. absurd (get-empty k v e);
}

pub new-IsWellFormed : (p : Option ℕ) → IsPrefix p → IsWellFormed (new p)
unfolding new
new-IsWellFormed none h = empty-IsWellFormed 32 (omega arith)
new-IsWellFormed (some n) h = empty-IsWellFormed n h

module _ (iter : HashMap ℕ Str → List (ℕ × Str)) where
  unfoldable pub step : RouteAggregator → Call → RouteAggregator
  step agg (resolves ip zone t target) = (process_ip iter agg ip zone t target).0
  step agg (registers ip zone) = register_static_ip agg ip zone
  step agg (cleans zone) = cleanup_zone agg zone

  unfoldable pub run : RouteAggregator → List Call → RouteAggregator
  run agg [] = agg
  run agg (c ∷ calls) = run (step agg c) calls

module _ (iter : HashMap ℕ Str → List (ℕ × Str)) (iterates : Iterates iter) where
  step-IsWellFormed :
      (agg : RouteAggregator) (c : Call)
      → IsCall c
      → IsWellFormed agg
      → IsWellFormed (step iter agg c)
  unfolding step
  step-IsWellFormed agg (resolves ip zone t target) h w =
      (process_ip-IsWellFormed iter iterates agg w ip h zone t target).0
  step-IsWellFormed agg (registers ip zone) h w = register_static_ip-IsWellFormed agg ip zone h w
  step-IsWellFormed agg (cleans zone) h w = cleanup_zone-IsWellFormed agg zone w

  run-IsWellFormed :
      (agg : RouteAggregator) (calls : List Call)
      → IsWellFormed agg
      → AreCalls calls
      → IsWellFormed (run iter agg calls)
  unfolding run
  run-IsWellFormed agg [] w h = w
  run-IsWellFormed agg (c ∷ calls) w h =
      run-IsWellFormed (step iter agg c) calls (step-IsWellFormed agg c h.0 w) h.1

  -- After any history of resolved addresses, registered static addresses and cleaned zones, with
  -- any aggregation prefix up to 32: each installed network has its host bits clear, is no wider
  -- than an aggregate, is at most 32 bits long and is in the table once, and each known address is
  -- a 32-bit number.
  pub history-IsWellFormed :
      (prefix_len : Option ℕ) (calls : List Call)
      → IsPrefix prefix_len
      → AreCalls calls
      → IsWellFormed (run iter (new prefix_len) calls)
  history-IsWellFormed prefix_len calls fits h =
      run-IsWellFormed (new prefix_len) calls (new-IsWellFormed prefix_len fits) h
