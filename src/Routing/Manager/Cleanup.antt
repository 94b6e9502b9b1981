-- ===== src/Routing/Manager/Cleanup.antt =====
-- `cleanup_zone`, which forgets one zone in the tracked addresses and in the aggregator.
use leshy.Prelude.{
  ℕ, ◌≡◌, ◌≢◌, ◌↔◌, none, some, arith, nat_eq, pair_eq, list_eq, list_beq_iff, beq_ne, ◌==◌, not,
  true, if◌then◌else◌,
}
use leshy.Prelude.HashMap
use leshy.Prelude.HashMap.{HashMap}
use leshy.Prelude.Text.{Str}
use leshy.Routing.Aggregator
use leshy.Routing.Aggregator.{RouteOwner, find_covering_route}
use leshy.Routing.Aggregator.Covering.{find_covering-some}
use leshy.Routing.Prefix.{network_address}
use leshy.Routing.Manager.{RouteManager, cleanup_zone, get_zone_route_count}

module _ {K : Type 0} (self : RouteManager K) (zone : Str) where
  pub count-cleanup_zone :
      (other : Str)
      → get_zone_route_count (cleanup_zone self zone) other
        ≡ (if zone == other then 0 else get_zone_route_count self other)
  unfolding get_zone_route_count cleanup_zone
  count-cleanup_zone other = ground (arith, HashMap.get-remove zone other self.zone_routes)

  routes-cleanup_zone :
      (other : Str)
      → HashMap.get other (cleanup_zone self zone).zone_routes
        ≡ (if zone == other then none else HashMap.get other self.zone_routes)
  unfolding cleanup_zone
  routes-cleanup_zone other = HashMap.get-remove zone other self.zone_routes

  known-cleanup_zone :
      (ip : ℕ) (z : Str)
      → HashMap.IsDistinct self.aggregator.known_ips
      → (HashMap.get ip (cleanup_zone self zone).aggregator.known_ips ≡ some z)
        ↔ ((HashMap.get ip self.aggregator.known_ips ≡ some z) × (z ≢ zone))
  unfolding cleanup_zone Aggregator.cleanup_zone
  known-cleanup_zone ip z d =
      let p = λ (z : Str). not (z == zone) in
      let m = self.aggregator.known_ips in
      (
        λ found. (
          ground (arith, HashMap.get-retain_distinct p ip m d),
          λ same.
              (let kept : not (z == zone) ≡ true = HashMap.get-retain p ip z m found in
                let t = (list_beq_iff z zone).1 same in ground arith),
        ),
        λ h. HashMap.get-retain_keeps p ip z m h.0 (let f = beq_ne z zone h.1 in ground arith),
      )

  installed-cleanup_zone :
      (key : ℕ × ℕ) (o : RouteOwner)
      → HashMap.get key (cleanup_zone self zone).aggregator.installed ≡ some o
      → o.zone_name ≢ zone
  unfolding cleanup_zone Aggregator.cleanup_zone
  installed-cleanup_zone key o found same =
      let kept : not (o.zone_name == zone) ≡ true =
        HashMap.get-retain (λ (o : RouteOwner). not (o.zone_name == zone)) key o _ found in
      let t = (list_beq_iff o.zone_name zone).1 same in ground arith

  installed-was :
      (key : ℕ × ℕ) (o : RouteOwner)
      → HashMap.IsDistinct self.aggregator.installed
      → HashMap.get key (cleanup_zone self zone).aggregator.installed ≡ some o
      → HashMap.get key self.aggregator.installed ≡ some o
  unfolding cleanup_zone Aggregator.cleanup_zone
  installed-was key o d found = ground (
    arith,
    HashMap.get-retain_distinct (λ (o : RouteOwner). not (o.zone_name == zone)) key
        self.aggregator.installed d,
  )

  others-cleanup_zone :
      (key : ℕ × ℕ) (o : RouteOwner)
      → HashMap.get key self.aggregator.installed ≡ some o
      → o.zone_name ≢ zone
      → HashMap.get key (cleanup_zone self zone).aggregator.installed ≡ some o
  unfolding cleanup_zone Aggregator.cleanup_zone
  others-cleanup_zone key o found differ =
      HashMap.get-retain_keeps (λ (o : RouteOwner). not (o.zone_name == zone)) key o _ found
        (let f = beq_ne o.zone_name zone differ in ground arith)

  covering-cleanup_zone :
      (ip : ℕ) (r : (ℕ × ℕ) × RouteOwner)
      → find_covering_route ip (cleanup_zone self zone).aggregator.installed ≡ some r
      → r.1.zone_name ≢ zone
  unfolding find_covering_route
  covering-cleanup_zone ip ((net, prefix), o) found =
      let (short, at, there) =
        find_covering-some ip (cleanup_zone self zone).aggregator.installed net prefix o 32 found in
      installed-cleanup_zone (network_address ip prefix, prefix) o there

  -- If no network is installed twice and no address known twice, `cleanup_zone` takes away the set
  -- of the zone's tracked addresses, its installed networks and its known addresses, and leaves
  -- every other zone's set, networks and known addresses as they were; and no address is covered by
  -- a network of the zone any more.
  pub cleanup_zone-forgets :
      (other : Str) (key : ℕ × ℕ) (o : RouteOwner) (ip : ℕ) (z : Str) (r : (ℕ × ℕ) × RouteOwner)
      → HashMap.IsDistinct self.aggregator.installed
      → HashMap.IsDistinct self.aggregator.known_ips
      → (HashMap.get other (cleanup_zone self zone).zone_routes
          ≡ (if zone == other then none else HashMap.get other self.zone_routes))
        × ((HashMap.get key (cleanup_zone self zone).aggregator.installed ≡ some o)
            ↔ ((HashMap.get key self.aggregator.installed ≡ some o) × (o.zone_name ≢ zone)))
        × ((HashMap.get ip (cleanup_zone self zone).aggregator.known_ips ≡ some z)
            ↔ ((HashMap.get ip self.aggregator.known_ips ≡ some z) × (z ≢ zone)))
        × ¬ (
            (find_covering_route ip (cleanup_zone self zone).aggregator.installed ≡ some r)
            × (r.1.zone_name ≡ zone))
  cleanup_zone-forgets other key o ip z r d known = (
    routes-cleanup_zone other,
    (
      λ found. (installed-was key o d found, installed-cleanup_zone key o found),
      λ h. others-cleanup_zone key o h.0 h.1,
    ),
    known-cleanup_zone ip z known,
    λ h. covering-cleanup_zone ip r h.0 h.1,
  )
