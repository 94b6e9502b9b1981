-- ===== src/Routing/Aggregator/WellFormed/Process.antt =====
-- The branches of `process_ip` keep the shape.
use leshy.Prelude.{
  ℕ, ◌≡◌, ◌<◌, refl, arith, nat_eq, pair_eq, list_eq, List, inl, inr, Option-cases, ◌==◌, filter,
  In-filter, if_either,
}
use leshy.Prelude.HashMap.{HashMap}
use leshy.Prelude.Text.{Str}
use leshy.Prelude.Word.{u32_mod}
use leshy.Routing.Prefix.{network_address}
use leshy.Routing.Prefix.Blocks.{network_address-host}
use leshy.Routing.Prefix.Networks.{network_address-IsNetwork, network_address-wider}
use leshy.Routing.Aggregator.{
  RouteOwner, RouteAggregator, begin, find_covering_route, is_conflict, process_host,
  process_uncovered, process_aggregated,
}
use leshy.Routing.Aggregator.Covering.{find_covering-some}
use leshy.Routing.Aggregator.Routes.{Iterates}
use leshy.Routing.Aggregator.Claims.{is_conflict-true}
use leshy.Routing.Aggregator.WellFormed.{
  Good, AllHere, IsWellFormed, install-Good, carve_all-Good, split-Good,
}

module _ (iter : HashMap ℕ Str → List (ℕ × Str)) (iterates : Iterates iter) (agg : RouteAggregator)
    (w : IsWellFormed agg) (ip : ℕ) (hip : ip < u32_mod) (o : RouteOwner) where
  abbrev p : ℕ
  p = agg.prefix_len

  begin-Good : Good p ip (begin agg)
  begin-Good = record { table = w.table; inside = tt }

  pub process_host-Good : p ≡ 32 → Good p ip (process_host agg ip o)
  unfolding process_host
  process_host-Good e = if_either (Good p ip) _ _ _ begin-Good (
      install-Good p ip ip 32 o (begin agg)
        (record { address = hip; bounded = omega arith; aligned = network_address-host ip hip })
        w.short refl begin-Good)

  conflicts-here :
      AllHere p ip (filter (is_conflict o.zone_name (network_address ip p) p) (iter agg.known_ips))
  conflicts-here (x, z) at =
      let (listed, test) =
        In-filter (is_conflict o.zone_name (network_address ip p) p) (x, z) (iter agg.known_ips)
          at in
      (
        w.known x z (iterates agg.known_ips x z listed),
        (is_conflict-true o.zone_name (network_address ip p) p x z test).1,
      )

  process_uncovered-Good : Good p ip (process_uncovered iter agg ip o)
  unfolding process_uncovered
  process_uncovered-Good =
      let added =
        install-Good p ip (network_address ip p) p o (begin agg)
          (network_address-IsNetwork ip p hip w.short) (omega arith)
          (network_address-wider p p ip (omega arith) w.short hip) begin-Good in
      if_either (Good p ip) _ _ _ added (carve_all-Good p ip o.zone_name _ _ conflicts-here added)

  pub process_aggregated-Good : Good p ip (process_aggregated iter agg ip o)
  unfolding process_aggregated find_covering_route
  process_aggregated-Good = elim (Option-cases (find_covering_route ip agg.installed)) [
    | inl e ↦ rw (e, process_aggregated) process_uncovered-Good
    | inr (((net, q), old), e) ↦
        let (q32, at_net, here) = find_covering-some ip agg.installed net q old 32 e in
        let le = (w.table.networks (network_address ip q) q old here).1 in
        rw (e, process_aggregated)
          (if_either (Good p ip) (old.zone_name == o.zone_name) _ _ begin-Good (
            install-Good p ip ip 32 o _
              (record {
                address = hip;
                bounded = omega arith;
                aligned = network_address-host ip hip;
              })
              w.short refl
              (rw at_net (split-Good p ip ip hip refl old q (begin agg) le q32 begin-Good))))
  ]
