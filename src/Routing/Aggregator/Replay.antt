-- ===== src/Routing/Aggregator/Replay.antt =====
-- The kernel's table, as far as the actions tell: what `process_ip` returns, replayed in order,
-- takes the kernel from the old installed table to the new one.
use mathlib.Core.Path.{fun_ext}
use leshy.Prelude.{
  ℕ, zero, suc, ◌≡◌, refl, Option, none, some, List, [], ◌∷◌, ◌++◌, arith, if◌then◌else◌, ◌==◌,
  nat_eq, pair_eq, list_eq, ◌+◌, inl, inr, if_either, Option-cases, ltb,
}
use leshy.Prelude.HashMap
use leshy.Prelude.HashMap.{HashMap}
use leshy.Prelude.Text.{Str}
use leshy.Config.{RouteType}
use leshy.Routing.Prefix.{network_address}
use leshy.Routing.Aggregator.{
  RouteAction, add, remove, RouteOwner, RouteAggregator, Progress, install, uninstall, split_around,
  split_loop, split, find_covering_route, carve, carve_all, process_host, process_uncovered,
  process_aggregated, process_ip,
}

-- A routing table: how each network is routed.
abbrev pub Kernel : Type 0
Kernel = ℕ × ℕ → Option (RouteType × Str)

-- A later route for the same network replaces the earlier one.
unfoldable pub apply_action : RouteAction → Kernel → Kernel
apply_action (add net prefix route_type target) k key =
    if (net, prefix) == key then some (route_type, target) else k key
apply_action (remove net prefix) k key = if (net, prefix) == key then none else k key

unfoldable pub replay : List RouteAction → Kernel → Kernel
replay [] k = k
replay (action ∷ actions) k = replay actions (apply_action action k)

abbrev pub way : Option RouteOwner → Option (RouteType × Str)
way none = none
way (some o) = some (o.route_type, o.route_target)

unfoldable pub view : HashMap (ℕ × ℕ) RouteOwner → Kernel
view table key = way (HashMap.get key table)

pub replay-append :
    (xs ys : List RouteAction) (k : Kernel) → replay (xs ++ ys) k ≡ replay ys (replay xs k)
unfolding replay
replay-append [] ys k = refl
replay-append (a ∷ xs) ys k = replay-append xs ys (apply_action a k)

view-insert :
    (net prefix : ℕ) (o : RouteOwner) (t : HashMap (ℕ × ℕ) RouteOwner)
    → view (HashMap.insert (net, prefix) o t)
      ≡ apply_action (add net prefix o.route_type o.route_target) (view t)
unfolding view apply_action
view-insert net prefix o t = fun_ext λ key. ground (arith, HashMap.get-insert (net, prefix) key o t)

view-remove :
    (net prefix : ℕ) (t : HashMap (ℕ × ℕ) RouteOwner)
    → view (HashMap.remove (net, prefix) t) ≡ apply_action (remove net prefix) (view t)
unfolding view apply_action
view-remove net prefix t = fun_ext λ key. ground (arith, HashMap.get-remove (net, prefix) key t)

module _ (k : Kernel) where
  -- The actions so far have taken the kernel to the table so far.
  abbrev Mirrors : Progress → Type 0
  Mirrors s = view s.table ≡ replay s.actions k

  pub install-Mirrors :
      (net prefix : ℕ) (o : RouteOwner) (s : Progress)
      → Mirrors s
      → Mirrors (install net prefix o s)
  unfolding install replay
  install-Mirrors net prefix o s h = rw (view-insert, replay-append, h)

  pub uninstall-Mirrors :
      (net prefix : ℕ) (s : Progress) → Mirrors s → Mirrors (uninstall net prefix s)
  unfolding uninstall replay
  uninstall-Mirrors net prefix s h = rw (view-remove, replay-append, h)

  split_loop-Mirrors :
      (fuel ip : ℕ) (o : RouteOwner) (net prefix : ℕ) (s : Progress)
      → Mirrors s
      → Mirrors (split_loop fuel ip o net prefix s)
  unfolding split_loop
  split_loop-Mirrors zero ip o net prefix s h = h
  split_loop-Mirrors (suc fuel) ip o net prefix s h =
      let (inner, sibling) = split_around ip net prefix in
      if_either Mirrors (ltb prefix 32) _ s
        (split_loop-Mirrors fuel ip o inner (prefix + 1) _
          (install-Mirrors sibling (prefix + 1) o s h))
        h

  split-Mirrors :
      (ip net prefix : ℕ) (o : RouteOwner) (s : Progress)
      → Mirrors s
      → Mirrors (split ip net prefix o s)
  unfolding split
  split-Mirrors ip net prefix o s h =
      split_loop-Mirrors 32 ip o net prefix _ (uninstall-Mirrors net prefix s h)

  carve-Mirrors : (zone : Str) (ip : ℕ) (s : Progress) → Mirrors s → Mirrors (carve zone ip s)
  unfolding carve
  carve-Mirrors zone ip s h = elim (Option-cases (find_covering_route ip s.table)) [
    | inl e ↦ rw (e, carve) h
    | inr (((net, prefix), o), e) ↦
        rw (e, carve)
          (if_either Mirrors (o.zone_name == zone) _ s (split-Mirrors ip net prefix o s h) h)
  ]

  carve_all-Mirrors :
      (zone : Str) (conflicts : List (ℕ × Str)) (s : Progress)
      → Mirrors s
      → Mirrors (carve_all zone conflicts s)
  unfolding carve_all
  carve_all-Mirrors zone [] s h = h
  carve_all-Mirrors zone ((ip, z) ∷ conflicts) s h =
      carve_all-Mirrors zone conflicts _ (carve-Mirrors zone ip s h)

  module _ (iter : HashMap ℕ Str → List (ℕ × Str)) (agg : RouteAggregator) (ip : ℕ)
      (o : RouteOwner) where
    process_uncovered-Mirrors : view agg.installed ≡ k → Mirrors (process_uncovered iter agg ip o)
    unfolding process_uncovered replay
    process_uncovered-Mirrors h =
        let added = install-Mirrors (network_address ip agg.prefix_len) agg.prefix_len o _ h in
        if_either Mirrors _ _ _ added (carve_all-Mirrors o.zone_name _ _ added)

    process_host-Mirrors : view agg.installed ≡ k → Mirrors (process_host agg ip o)
    unfolding process_host replay
    process_host-Mirrors h = if_either Mirrors _ _ _ h (install-Mirrors ip 32 o _ h)

    process_aggregated-Mirrors : view agg.installed ≡ k → Mirrors (process_aggregated iter agg ip o)
    unfolding process_aggregated replay
    process_aggregated-Mirrors h = elim (Option-cases (find_covering_route ip agg.installed)) [
      | inl e ↦ rw (e, process_aggregated) (process_uncovered-Mirrors h)
      | inr (((net, prefix), old), e) ↦
          rw (e, process_aggregated)
            (if_either Mirrors (old.zone_name == o.zone_name) _ _ h
              (install-Mirrors ip 32 o _ (split-Mirrors ip net prefix old _ h)))
    ]

-- What `process_ip` returns, replayed in order on the routes that the installed table asked for,
-- gives the routes that the new installed table asks for: on every branch, no installed network
-- is without its route, and no route is left behind.
pub process_ip-replay :
    (iter : HashMap ℕ Str → List (ℕ × Str)) (self : RouteAggregator) (ip : ℕ) (zone_name : Str)
    (route_type : RouteType) (target : Str)
    → let r = process_ip iter self ip zone_name route_type target in
      view r.0.installed ≡ replay r.1 (view self.installed)
unfolding process_ip
process_ip-replay iter self ip zone_name route_type target =
    let k = view self.installed in
    if_either (Mirrors k) _ _ _ (process_host-Mirrors k iter _ ip _ refl)
      (process_aggregated-Mirrors k iter _ ip _ refl)
