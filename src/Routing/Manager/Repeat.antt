-- ===== src/Routing/Manager/Repeat.antt =====
-- `add_route_v4` called again for the same address and zone.
use leshy.Prelude.{
  Eq, leb, beq_refl, ℕ, ◌≡◌, ◌<◌, refl, ap, some, arith, nat_eq, pair_eq, list_eq, inl, inr,
  list_beq_iff, Bool-cases, List, [], ◌∷◌, false, is_empty,
}
use leshy.Prelude.HashMap
use leshy.Prelude.HashMap.{HashMap}
use leshy.Prelude.Results.{ok, Result-cases}
use leshy.Prelude.Text.{Str}
use leshy.Prelude.Word.{u32_mod}
use leshy.Config.{RouteType, ZoneConfig}
use leshy.Routing.Aggregator.{
  RouteAggregator, RouteOwner, process_ip, process_aggregated, find_covering_route, begin,
}
use leshy.Routing.Aggregator.Routes.{Iterates, AreAddresses, process_ip-routes}
use leshy.Routing.Manager.{RouteAdder, RouteManager, FileRead, add_route_v4, execute_actions}

insert-again {ℓ κ} :
    {K : Type ℓ} {V : Type κ} ⦃key : Eq K⦄ (k : K) (v : V) (m : HashMap K V)
    → HashMap.insert k v (HashMap.insert k v m) ≡ HashMap.insert k v m
unfolding HashMap.insert
insert-again k v [] = ground (arith, beq_refl k)
insert-again k v ((j, w) ∷ m) = ground (arith, beq_refl k, insert-again k v m)

module _ (iter : HashMap ℕ Str → List (ℕ × Str)) where
  known-process_ip :
      (self : RouteAggregator) (ip : ℕ) (z : Str) (t : RouteType) (target : Str)
      → ((process_ip iter self ip z t target).0.known_ips ≡ HashMap.insert ip z self.known_ips)
        × ((process_ip iter self ip z t target).0.prefix_len ≡ self.prefix_len)
  unfolding process_ip
  known-process_ip self ip z t target = (refl, refl)

  process_aggregated-routed :
      (agg : RouteAggregator) (ip : ℕ) (o : RouteOwner) (r : (ℕ × ℕ) × RouteOwner)
      → find_covering_route ip agg.installed ≡ some r
      → r.1.zone_name ≡ o.zone_name
      → process_aggregated iter agg ip o ≡ begin agg
  unfolding process_aggregated
  process_aggregated-routed agg ip o ((net, prefix), old) covered his =
      let same = (list_beq_iff old.zone_name o.zone_name).1 his in
      rw (covered, process_aggregated) (rw same refl)

  -- An aggregator that knows the address as the zone's and routes it through the zone is left as it
  -- is, and asks for no action.
  process_ip-routed :
      (self : RouteAggregator) (ip : ℕ) (z : Str) (t : RouteType) (target : Str)
      (r : (ℕ × ℕ) × RouteOwner)
      → self.prefix_len < 32
      → HashMap.insert ip z self.known_ips ≡ self.known_ips
      → find_covering_route ip self.installed ≡ some r
      → r.1.zone_name ≡ z
      → process_ip iter self ip z t target ≡ (self, [])
  unfolding process_ip
  process_ip-routed self ip z t target r short known covered his =
      let off : leb 32 self.prefix_len ≡ false = ground arith in
      rw off (
        rw
          (process_aggregated-routed
            (record self { known_ips = HashMap.insert ip z self.known_ips }) ip
            (record { zone_name = z; route_type = t; route_target = target }) r covered his)
          (ap (λ (k : HashMap ℕ Str). (record self { known_ips = k }, [])) known))

module _ {K : Type 0} (adder : RouteAdder K) (iter : HashMap ℕ Str → List (ℕ × Str)) where
  add_route_v4-aggregator :
      (files : Str → FileRead) (self : RouteManager K) (ip : ℕ) (zone : ZoneConfig)
      → (add_route_v4 adder iter files self ip zone).0.aggregator
        ≡ (process_ip iter self.aggregator ip zone.name zone.route_type zone.route_target).0
  unfolding add_route_v4
  add_route_v4-aggregator files self ip zone =
      let actions =
        (process_ip iter self.aggregator ip zone.name zone.route_type zone.route_target).1 in
      elim (Bool-cases (is_empty actions)) [
        | inl e ↦ rw e refl
        | inr e ↦
            rw e (elim (Result-cases (execute_actions adder iter files self.kernel actions).1) [
              | inl (u, done) ↦ rw done refl
              | inr (x, stopped) ↦ rw stopped refl
            ])
      ]

  add_route_v4-idle :
      (files : Str → FileRead) (self : RouteManager K) (ip : ℕ) (zone : ZoneConfig)
      → process_ip iter self.aggregator ip zone.name zone.route_type zone.route_target
        ≡ (self.aggregator, [])
      → add_route_v4 adder iter files self ip zone ≡ (self, ok tt)
  unfolding add_route_v4
  add_route_v4-idle files self ip zone e = rw e refl

  -- With aggregation and addresses of 32 bits, once `add_route_v4` has run for an address and a
  -- zone, whatever its outcome was, running it again changes nothing and reports success, whatever
  -- the files and the kernel would now answer: a route whose installation failed is not tried
  -- again.
  pub add_route_v4-repeat :
      (iterates : Iterates iter) (files files' : Str → FileRead) (self : RouteManager K) (ip : ℕ)
      (zone : ZoneConfig)
      → self.aggregator.prefix_len < 32
      → ip < u32_mod
      → AreAddresses self.aggregator.known_ips
      → let self' = (add_route_v4 adder iter files self ip zone).0 in
        add_route_v4 adder iter files' self' ip zone ≡ (self', ok tt)
  add_route_v4-repeat iterates files files' self ip zone short hip addresses =
      let agg = self.aggregator in
      let self' = (add_route_v4 adder iter files self ip zone).0 in
      let e = add_route_v4-aggregator files self ip zone in
      let (r, covered, his) =
        process_ip-routes iter iterates agg ip zone.name zone.route_type zone.route_target short hip
          addresses in
      let (known, len) = known-process_ip iter agg ip zone.name zone.route_type zone.route_target in
      add_route_v4-idle files' self' ip zone (
        rw e (
          process_ip-routed iter _ ip zone.name zone.route_type zone.route_target r (rw len short)
            (rw known (insert-again ip zone.name agg.known_ips)) covered his))
