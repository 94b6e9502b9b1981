-- ===== src/Routing/Aggregator/WellFormed.antt =====
-- The shape of the aggregator's table, and where the networks of a call's actions lie.
pub mod Process
pub mod Calls
use native.Mathlib.Decide.{dec_lt}
use mathlib.Core.Path.{subst}
use leshy.Prelude.{
  ℕ, zero, suc, ◌+◌, ◌≡◌, ◌≤◌, ◌<◌, refl, sym, ◌∙◌, ap, some, none, arith, nat_eq, pair_eq, list_eq,
  List, [], ◌∷◌, ◌++◌, inl, inr, Option-cases, Bool-cases, ◌==◌, In, filter, In-filter,
  if◌then◌else◌, if_either, is_empty, leb,
}
use leshy.Prelude.HashMap
use leshy.Prelude.HashMap.{HashMap}
use leshy.Prelude.Text.{Str}
use leshy.Prelude.Word.{u32_mod}
use leshy.Config.{RouteType}
use leshy.Routing.Prefix.{network_address}
use leshy.Routing.Prefix.Blocks.{network_address-host, network_address_mono}
use leshy.Routing.Prefix.Networks.{
  IsNetwork, network_address-IsNetwork, network_address-wider, lower-IsNetwork, upper-IsNetwork,
}
use leshy.Routing.Aggregator.{
  RouteAction, add, remove, RouteOwner, RouteAggregator, Progress, begin, install, uninstall, split,
  split_loop, find_covering_route, is_conflict, carve, carve_all, process_host, process_uncovered,
  process_aggregated, process_ip,
}
use leshy.Routing.Aggregator.Covering.{Table, find_covering-some}
use leshy.Routing.Aggregator.Split.{sibling, sibling-halves, sibling_inside, loop_step, loop_stop}
use leshy.Routing.Aggregator.Routes.{Iterates, AreAddresses}
use leshy.Routing.Aggregator.Claims.{is_conflict-true}

-- Every installed network is one, is no wider than an aggregate, and is installed once.
pub record IsTable (p : ℕ) (t : Table) : Type 0 where
  pub distinct : HashMap.IsDistinct t
  pub networks :
      (net q : ℕ) (o : RouteOwner) → HashMap.get (net, q) t ≡ some o → IsNetwork net q × (p ≤ q)

-- The actions are on networks inside the block of `p` bits around an address.
abbrev pub AllInside : ℕ → ℕ → List RouteAction → Type 0
AllInside p ip [] = Unit
AllInside p ip (add net q t target ∷ actions) =
    (network_address net p ≡ network_address ip p) × AllInside p ip actions
AllInside p ip (remove net q ∷ actions) =
    (network_address net p ≡ network_address ip p) × AllInside p ip actions

AllInside-append :
    (p ip : ℕ) (xs ys : List RouteAction)
    → AllInside p ip xs
    → AllInside p ip ys
    → AllInside p ip (xs ++ ys)
AllInside-append p ip [] ys hx hy = hy
AllInside-append p ip (add net q t target ∷ xs) ys hx hy =
    (hx.0, AllInside-append p ip xs ys hx.1 hy)
AllInside-append p ip (remove net q ∷ xs) ys hx hy = (hx.0, AllInside-append p ip xs ys hx.1 hy)

insert-IsTable :
    (p net q : ℕ) (o : RouteOwner) (t : Table)
    → IsNetwork net q
    → p ≤ q
    → IsTable p t
    → IsTable p (HashMap.insert (net, q) o t)
insert-IsTable p net q o t network le h = record {
  distinct = HashMap.insert-IsDistinct (net, q) o t h.distinct;
  networks = λ n r o' found. elim (HashMap.get-insert_cases (net, q) (n, r) o o' t found) [
    | inl (same, _) ↦
        let n_eq = ap (λ (k : ℕ × ℕ). k.0) same in
        let r_eq = ap (λ (k : ℕ × ℕ). k.1) same in
        (subst (λ (k : ℕ × ℕ). IsNetwork k.0 k.1) same network, omega (arith, le, r_eq))
    | inr (_, old) ↦ h.networks n r o' old
  ];
}

remove-IsTable : (p net q : ℕ) (t : Table) → IsTable p t → IsTable p (HashMap.remove (net, q) t)
remove-IsTable p net q t h = record {
  distinct = HashMap.remove-IsDistinct (net, q) t h.distinct;
  networks = λ n r o found. h.networks n r o (ground (arith, HashMap.get-remove (net, q) (n, r) t));
}

module _ (p ip : ℕ) where
  -- What a call has done so far.
  pub record Good (s : Progress) : Type 0 where
    pub table : IsTable p s.table
    pub inside : AllInside p ip s.actions

  pub install-Good :
      (net q : ℕ) (o : RouteOwner) (s : Progress)
      → IsNetwork net q
      → p ≤ q
      → network_address net p ≡ network_address ip p
      → Good s
      → Good (install net q o s)
  unfolding install
  install-Good net q o s network le here h = record {
    table = insert-IsTable p net q o s.table network le h.table;
    inside = AllInside-append p ip s.actions _ h.inside (here, tt);
  }

  uninstall-Good :
      (net q : ℕ) (s : Progress)
      → network_address net p ≡ network_address ip p
      → Good s
      → Good (uninstall net q s)
  unfolding uninstall
  uninstall-Good net q s here h = record {
    table = remove-IsTable p net q s.table h.table;
    inside = AllInside-append p ip s.actions _ h.inside (here, tt);
  }

  -- Splitting a network around an address of the block.
  module _ (x : ℕ) (hx : x < u32_mod) (within : network_address x p ≡ network_address ip p)
      (o : RouteOwner) where
    sibling-IsNetwork : (q : ℕ) (q32 : q < 32) → IsNetwork (sibling q q32 x hx) (q + 1)
    sibling-IsNetwork q q32 = elim (sibling-halves q q32 x hx) [
      | inl (e, _) ↦ rw e (lower-IsNetwork q q32 x hx)
      | inr (e, _) ↦ rw e (upper-IsNetwork q q32 x hx)
    ]

    sibling-here :
        (q : ℕ) (q32 : q < 32)
        → p ≤ q
        → network_address (sibling q q32 x hx) p ≡ network_address ip p
    sibling-here q q32 le =
        let n = sibling-IsNetwork q q32 in
        let s = sibling q q32 x hx in
        network_address_mono p q s x le (omega arith) n.address hx
          (sibling_inside q q32 x hx s n.address n.aligned)
        ∙ within

    split_loop-Good :
        (fuel q : ℕ) (s : Progress)
        → p ≤ q
        → Good s
        → Good (split_loop fuel x o (network_address x q) q s)
    unfolding split_loop
    split_loop-Good zero q s le h = h
    split_loop-Good (suc fuel) q s le h = elim (dec_lt q 32) [
      | no stop ↦ rw (loop_stop x hx o (suc fuel) q s (omega arith)) h
      | yes q32 ↦ rw (loop_step x hx o fuel q q32 s) (
          split_loop-Good fuel (q + 1) _ (omega arith) (
            install-Good (sibling q q32 x hx) (q + 1) o s (sibling-IsNetwork q q32) (omega arith)
              (sibling-here q q32 le) h))
    ]

    split-Good :
        (q : ℕ) (s : Progress)
        → p ≤ q
        → q ≤ 32
        → Good s
        → Good (split x (network_address x q) q o s)
    unfolding split
    split-Good q s le q32 h = split_loop-Good 32 q _ le (
        uninstall-Good (network_address x q) q s (network_address-wider p q x le q32 hx ∙ within) h)

  carve-Good :
      (zone : Str) (x : ℕ) (s : Progress)
      → x < u32_mod
      → network_address x p ≡ network_address ip p
      → Good s
      → Good (carve zone x s)
  unfolding carve find_covering_route
  carve-Good zone x s hx within h = elim (Option-cases (find_covering_route x s.table)) [
    | inl e ↦ rw (e, carve) h
    | inr (((net, q), o), e) ↦
        let (q32, at_net, here) = find_covering-some x s.table net q o 32 e in
        let le = (h.table.networks (network_address x q) q o here).1 in
        rw (e, carve)
          (if_either Good (o.zone_name == zone) _ s
            (rw at_net (split-Good x hx within o q s le q32 h)) h)
  ]

  -- The addresses to carve out are addresses of the block.
  abbrev pub AllHere : List (ℕ × Str) → Type 0
  AllHere conflicts =
      (e : ℕ × Str)
      → In e conflicts
      → (e.0 < u32_mod) × (network_address e.0 p ≡ network_address ip p)

  pub carve_all-Good :
      (zone : Str) (conflicts : List (ℕ × Str)) (s : Progress)
      → AllHere conflicts
      → Good s
      → Good (carve_all zone conflicts s)
  unfolding carve_all
  carve_all-Good zone [] s here h = h
  carve_all-Good zone ((x, z) ∷ conflicts) s here h =
      let (hx, within) = here (x, z) (inl refl) in
      carve_all-Good zone conflicts _ (λ e at. here e (inr at)) (carve-Good zone x s hx within h)

-- The state of an aggregator: the prefix length is one, its table is in shape, and it knows
-- addresses only, each once.
pub record IsWellFormed (agg : RouteAggregator) : Type 0 where
  pub short : agg.prefix_len ≤ 32
  pub table : IsTable agg.prefix_len agg.installed
  pub distinct : HashMap.IsDistinct agg.known_ips
  pub known : AreAddresses agg.known_ips
