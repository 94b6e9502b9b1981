-- ===== src/Routing/Aggregator/Routes.antt =====
-- With aggregation, an address that `process_ip` has handled is routed by the zone's own network.
use leshy.Prelude.{
  leb, beq_refl, filter, In-filter, if_either, ℕ, ◌≡◌, ◌≢◌, ◌<◌, refl, sym, ◌∙◌, ap, none, some,
  arith, nat_eq, pair_eq, list_eq, list_beq_iff, inl, inr, Bool-cases, Option-cases, ◌==◌, List, In,
  false,
}
use leshy.Prelude.HashMap
use leshy.Prelude.HashMap.{HashMap}
use leshy.Prelude.Text.{Str}
use leshy.Prelude.Word.{u32_mod}
use leshy.Config.{RouteType}
use leshy.Routing.Prefix.{network_address}
use leshy.Routing.Prefix.Blocks.{network_address-host}
use leshy.Routing.Aggregator.{
  begin, RouteOwner, RouteAggregator, Progress, install, split, find_covering_route, is_conflict,
  process_uncovered, process_aggregated, process_ip,
}
use leshy.Routing.Aggregator.Held.{Held, find-Held, carve_all-Held}
use leshy.Routing.Aggregator.Covering.{entry, find_covering-none}
use leshy.Routing.Aggregator.Split.{entry-install_self, entry-install_cases}
use leshy.Routing.Aggregator.Effects.{some-injective}

-- `known_ips.iter()` yields entries of the map.
abbrev pub Iterates : (HashMap ℕ Str → List (ℕ × Str)) → Type 0
Iterates iter =
    (m : HashMap ℕ Str) (k : ℕ) (v : Str) → In (k, v) (iter m) → HashMap.get k m ≡ some v

-- The keys of `known_ips` are `u32`s.
abbrev pub AreAddresses : HashMap ℕ Str → Type 0
AreAddresses known = (k : ℕ) (v : Str) → HashMap.get k known ≡ some v → k < u32_mod

module _ (iter : HashMap ℕ Str → List (ℕ × Str)) (iterates : Iterates iter) where
  -- No conflict is the address itself, which is known as the zone's.
  conflict-other :
      (known : HashMap ℕ Str) (ip net prefix : ℕ) (zone : Str)
      → HashMap.get ip known ≡ some zone
      → AreAddresses known
      → (e : ℕ × Str) → In e (filter (is_conflict zone net prefix) (iter known))
      → (e.0 < u32_mod) × (ip ≢ e.0)
  unfolding is_conflict
  conflict-other known ip net prefix zone here addresses (c, z) m =
      let (listed, test) = In-filter (is_conflict zone net prefix) (c, z) (iter known) m in
      let there = iterates known c z listed in
      (addresses c z there, λ same. ground (arith, list_beq_iff ⦃e = nat_eq⦄ z zone))

  module _ (agg : RouteAggregator) (ip : ℕ) (hip : ip < u32_mod) (o : RouteOwner) where
    module _ (short : agg.prefix_len < 32) (known : HashMap.get ip agg.known_ips ≡ some o.zone_name)
        (addresses : AreAddresses agg.known_ips) where
      process_uncovered-Held :
          find_covering_route ip agg.installed ≡ none
          → Held o.zone_name ip (process_uncovered iter agg ip o).table
      unfolding process_uncovered find_covering_route
      process_uncovered-Held e =
          let p = agg.prefix_len in
          let net = network_address ip p in
          let added : Held o.zone_name ip (install net p o (begin agg)).table = record {
            level = p;
            bounded = omega arith;
            owner = o;
            found = entry-install_self ip p net p o (begin agg) refl refl;
            clean = λ q o' lo hi found. elim (entry-install_cases ip q net p o (begin agg)) [
              | inl new ↦ ap (λ (x : RouteOwner). x.zone_name) (some-injective (sym found ∙ new))
              | inr old ↦ absurd (cc (old, found, find_covering-none 32 ip agg.installed q e hi))
            ];
          } in
          if_either (λ (s : Progress). Held o.zone_name ip s.table) _ _ _ added
            (carve_all-Held o.zone_name ip hip _ _
              (conflict-other agg.known_ips ip net p o.zone_name known addresses) added)

      -- The address is routed by the zone after either path.
      process_aggregated-routes :
          (r : (ℕ × ℕ) × RouteOwner) × (find_covering_route ip
              (process_aggregated iter agg ip o).table
            ≡ some r)
          × (r.1.zone_name ≡ o.zone_name)
      unfolding process_aggregated
      process_aggregated-routes = elim (Option-cases (find_covering_route ip agg.installed)) [
        | inl e ↦ rw (e, process_aggregated) (find-Held o.zone_name ip _ (process_uncovered-Held e))
        | inr (((net, p), old), e) ↦
            rw (e, process_aggregated)
              (elim (Bool-cases (old.zone_name == o.zone_name)) [
                | inl same ↦
                    rw same (((net, p), old), e, (list_beq_iff old.zone_name o.zone_name).0 same)
                | inr other ↦
                    rw other
                      (find-Held o.zone_name ip _ (host-Held (split ip net p old (begin agg))))
              ])
      ]
        where
          host-Held : (s : Progress) → Held o.zone_name ip (install ip 32 o s).table
          host-Held s =
              let found = entry-install_self ip 32 ip 32 o s (network_address-host ip hip) refl in
              record {
                level = 32;
                bounded = omega arith;
                owner = o;
                found = found;
                clean = λ q o' lo hi e.
                    let q_eq : q ≡ 32 = omega arith in
                    ap (λ (x : RouteOwner). x.zone_name)
                      (some-injective (
                        sym e ∙ ap (λ (n : ℕ). entry ip n (install ip 32 o s).table) q_eq ∙ found));
              }

  -- With aggregation enabled, an address that `process_ip` has just handled for a zone is covered,
  -- and the installed network with the longest prefix around it belongs to that zone: whether it
  -- was covered before by this zone, by another one or by none, and whatever addresses of other
  -- zones had to be carved out of the new network.
  pub process_ip-routes :
      (self : RouteAggregator) (ip : ℕ) (zone_name : Str) (route_type : RouteType) (target : Str)
      → self.prefix_len < 32
      → ip < u32_mod
      → AreAddresses self.known_ips
      → (r : (ℕ × ℕ) × RouteOwner) × (find_covering_route ip
            (process_ip iter self ip zone_name route_type target).0.installed
          ≡ some r)
        × (r.1.zone_name ≡ zone_name)
  unfolding process_ip
  process_ip-routes self ip zone_name route_type target short hip addresses =
      let off : leb 32 self.prefix_len ≡ false = ground arith in
      rw off (
        process_aggregated-routes _ ip hip _ short (rw (HashMap.get-insert, beq_refl ip)) (λ k v e.
          ground (arith, HashMap.get-insert ip k zone_name self.known_ips, addresses k v)))
