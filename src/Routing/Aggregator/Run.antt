-- ===== src/Routing/Aggregator/Run.antt =====
-- Whole runs of `process_ip`, from `RouteAggregator::new`.
use leshy.Prelude.{
  ℕ, ◌≡◌, ◌<◌, refl, ◌∙◌, ap, Option, none, some, arith, nat_eq, pair_eq, list_eq, false,
  if◌then◌else◌, ◌==◌, leb, List, [], ◌∷◌,
}
use leshy.Prelude.HashMap
use leshy.Prelude.HashMap.{HashMap}
use leshy.Prelude.Text.{Str}
use leshy.Prelude.Word.{u32_mod}
use leshy.Routing.Aggregator.{RouteOwner, RouteAggregator, find_covering_route, process_ip, new}
use leshy.Routing.Aggregator.Owners.{Owners, Around-find, owner_of}
use leshy.Routing.Aggregator.Routes.{Iterates}
use leshy.Routing.Aggregator.Claims.{claim, Keeps, process_aggregated-Keeps}

-- The arguments of one call of `process_ip`.
pub record Resolution : Type 0 where
  pub ip : ℕ
  pub owner : RouteOwner

abbrev pub AllU32 : List Resolution → Type 0
AllU32 [] = Unit
AllU32 (r ∷ rs) = (r.ip < u32_mod) × AllU32 rs

unfoldable pub run :
    (HashMap ℕ Str → List (ℕ × Str)) → List Resolution → RouteAggregator → RouteAggregator
run iter [] agg = agg
run iter (r ∷ rs) agg =
    run iter rs
      (process_ip iter agg r.ip r.owner.zone_name r.owner.route_type r.owner.route_target).0

-- The specification of a run.
unfoldable pub claims : ℕ → List Resolution → Owners → Owners
claims p [] f = f
claims p (r ∷ rs) f = claims p rs (claim p r.ip r.owner f)

-- The zone that resolved an address last.
unfoldable pub last_zone : ℕ → List Resolution → Option Str → Option Str
last_zone a [] z = z
last_zone a (r ∷ rs) z = last_zone a rs (if r.ip == a then some r.owner.zone_name else z)

module _ (iter : HashMap ℕ Str → List (ℕ × Str)) (iterates : Iterates iter) where
  abbrev pub KeepsOwners : RouteAggregator → Owners → Type 0
  KeepsOwners agg f = Keeps agg.prefix_len agg.known_ips agg.installed f

  pub process_ip-KeepsOwners :
      (r : Resolution) (agg : RouteAggregator) (f : Owners)
      → agg.prefix_len < 32
      → r.ip < u32_mod
      → KeepsOwners agg f
      → KeepsOwners
          (process_ip iter agg r.ip r.owner.zone_name r.owner.route_type r.owner.route_target).0
          (claim agg.prefix_len r.ip r.owner f)
  unfolding process_ip
  process_ip-KeepsOwners r agg f short hip k =
      let off : leb 32 agg.prefix_len ≡ false = ground arith in
      rw off (
        process_aggregated-Keeps agg.prefix_len short r.ip hip r.owner agg.known_ips agg.installed f
          k iter iterates)

  pub run-KeepsOwners :
      (rs : List Resolution) (agg : RouteAggregator) (f : Owners)
      → agg.prefix_len < 32
      → AllU32 rs
      → KeepsOwners agg f
      → KeepsOwners (run iter rs agg) (claims agg.prefix_len rs f)
  unfolding run claims process_ip
  run-KeepsOwners [] agg f short all h = h
  run-KeepsOwners (r ∷ rs) agg f short all h =
      run-KeepsOwners rs _ (claim agg.prefix_len r.ip r.owner f) short all.1
        (process_ip-KeepsOwners r agg f short all.0 h)

  known-last_zone :
      (rs : List Resolution) (agg : RouteAggregator) (a : ℕ)
      → HashMap.get a (run iter rs agg).known_ips ≡ last_zone a rs (HashMap.get a agg.known_ips)
  unfolding run last_zone process_ip
  known-last_zone [] agg a = refl
  known-last_zone (r ∷ rs) agg a =
      known-last_zone rs _ a
      ∙ ap (last_zone a rs) (HashMap.get-insert r.ip a r.owner.zone_name agg.known_ips)

  pub new-KeepsOwners : (p : ℕ) → KeepsOwners (new (some p)) (λ a. none)
  unfolding new HashMap.get
  new-KeepsOwners p = record {
    represents = λ a ha q le. refl;
    whole = λ a b e h. refl;
    owned = λ a z e. absurd (cc e);
    addresses = λ a z e. absurd (cc e);
  }

  -- After any sequence of calls of `process_ip`, with 32-bit addresses, on a new aggregator with a
  -- prefix length below 32, the owner that `find_covering_route` finds for an address, if any, is
  -- the one that the specification gives it: the calls, run as claims on a map from addresses to
  -- owners.
  pub run-claims :
      (p : ℕ) (rs : List Resolution) (a : ℕ)
      → p < 32
      → AllU32 rs
      → a < u32_mod
      → owner_of (find_covering_route a (run iter rs (new (some p))).installed)
        ≡ claims p rs (λ _. none) a
  unfolding new
  run-claims p rs a p32 all ha =
      let k = run-KeepsOwners rs (new (some p)) (λ _. none) p32 all (new-KeepsOwners p) in
      Around-find a _ _ (k.represents a ha)

  -- After any sequence of calls of `process_ip`, with 32-bit addresses, on a new aggregator with a
  -- prefix length below 32, an address that was resolved is covered, and the installed network with
  -- the longest prefix around it belongs to the zone that resolved it last.
  pub run-last_zone :
      (p : ℕ) (rs : List Resolution) (a : ℕ) (z : Str)
      → p < 32
      → AllU32 rs
      → a < u32_mod
      → last_zone a rs none ≡ some z
      → (o : RouteOwner) × (owner_of (find_covering_route a (run iter rs (new (some p))).installed)
          ≡ some o)
        × (o.zone_name ≡ z)
  unfolding new HashMap.get
  run-last_zone p rs a z p32 all ha last =
      let k = run-KeepsOwners rs (new (some p)) (λ _. none) p32 all (new-KeepsOwners p) in
      let (o, owned, his) = k.owned a z (known-last_zone rs (new (some p)) a ∙ last) in
      (o, run-claims p rs a p32 all ha ∙ owned, his)
