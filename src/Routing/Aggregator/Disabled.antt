-- ===== src/Routing/Aggregator/Disabled.antt =====
-- With aggregation disabled, lines 63-82: one host route for each address, for the zone that came
-- first.
use leshy.Prelude.{
  ℕ, zero, suc, ◌≡◌, ◌<◌, refl, sym, ◌∙◌, ap, Option, some, none, List, [], ◌∷◌, arith, nat_eq,
  pair_eq, if◌then◌else◌, ◌==◌, inl, inr, Option-cases, leb, Bool, true, false,
}
use leshy.Prelude.HashMap
use leshy.Prelude.HashMap.{HashMap}
use leshy.Prelude.Text.{Str}
use leshy.Prelude.Word.{u32_mod}
use leshy.Routing.Prefix.{network_address}
use leshy.Routing.Prefix.Blocks.{network_address-host}
use leshy.Routing.Aggregator.{
  RouteOwner, RouteAggregator, begin, install, process_host, process_ip, find_covering_from,
  find_covering_route, new,
}
use leshy.Routing.Aggregator.Covering.{Table}
use leshy.Routing.Aggregator.Owners.{owner_of}
use leshy.Routing.Aggregator.Run.{Resolution, run}

-- A resolution of an address, where some zone may have resolved it before.
unfoldable pub first_claim : Resolution → ℕ → Option RouteOwner → Option RouteOwner
first_claim r a (some o) = some o
first_claim r a none = if r.ip == a then some r.owner else none

-- The owner of the first resolution of an address.
unfoldable pub first_owner : ℕ → List Resolution → Option RouteOwner → Option RouteOwner
first_owner a [] o = o
first_owner a (r ∷ rs) o = first_owner a rs (first_claim r a o)

-- A table of host routes.
abbrev Hosts : Table → (ℕ → Option RouteOwner) → Type 0
Hosts t f = (a q : ℕ) → HashMap.get (a, q) t ≡ (if q == 32 then f a else none)

module _ (agg : RouteAggregator) (r : Resolution) (f : ℕ → Option RouteOwner)
    (h : Hosts agg.installed f) where
  abbrev after : Table
  after = (process_host agg r.ip r.owner).table

  contains_key-Hosts : HashMap.contains_key (r.ip, 32) agg.installed ≡ HashMap.is_some (f r.ip)
  unfolding HashMap.contains_key
  contains_key-Hosts = ap HashMap.is_some (h r.ip 32)

  abbrev branch : Bool → Table
  branch known = (if known then begin agg else install r.ip 32 r.owner (begin agg)).table

  taken : (o : RouteOwner) → f r.ip ≡ some o → after ≡ agg.installed
  unfolding process_host
  taken o e = ap branch (contains_key-Hosts ∙ ap HashMap.is_some e)

  free : f r.ip ≡ none → after ≡ HashMap.insert (r.ip, 32) r.owner agg.installed
  unfolding process_host install
  free e = ap branch (contains_key-Hosts ∙ ap HashMap.is_some e)

  process_host-Hosts : Hosts after (λ a. first_claim r a (f a))
  unfolding first_claim
  process_host-Hosts a q = elim (Option-cases (f r.ip)) [
    | inr (o, e) ↦ ap (HashMap.get (a, q)) (taken o e) ∙ h a q ∙ ground arith
    | inl e ↦
        ap (HashMap.get (a, q)) (free e)
        ∙ HashMap.get-insert (r.ip, 32) (a, q) r.owner agg.installed
        ∙ ground (arith, h a q)
  ]

none_below :
    (p a : ℕ) (t : Table) (f : ℕ → Option RouteOwner)
    → p < 32
    → Hosts t f
    → find_covering_from p a t ≡ none
unfolding find_covering_from
none_below zero a t f lt h =
    let here : HashMap.get (network_address a 0, 0) t ≡ none = h (network_address a 0) 0 in
    rw (here, find_covering_from) refl
none_below (suc p) a t f lt h =
    let short : (suc p == 32) ≡ false = ground arith in
    let here : HashMap.get (network_address a (suc p), suc p) t ≡ none =
      h (network_address a (suc p)) (suc p) ∙ rw short refl in
    rw (here, find_covering_from) (none_below p a t f (omega arith) h)

from_host :
    (p a : ℕ) (t : Table) (f : ℕ → Option RouteOwner)
    → p ≡ 31
    → a < u32_mod
    → Hosts t f
    → owner_of (find_covering_from (suc p) a t) ≡ f a
unfolding find_covering_from
from_host p a t f top ha h =
    let net_eq : network_address a (suc p) ≡ a =
      ap (λ (n : ℕ). network_address a (suc n)) top ∙ network_address-host a ha in
    let last : (suc p == 32) ≡ true = ground arith in
    let here : HashMap.get (network_address a (suc p), suc p) t ≡ f a =
      h (network_address a (suc p)) (suc p) ∙ rw (last, net_eq) refl in
    elim (Option-cases (f a)) [
      | inl e ↦
          rw (here ∙ e, find_covering_from)
            (ap owner_of (none_below p a t f (omega arith) h) ∙ sym e)
      | inr (o, e) ↦ rw (here ∙ e, find_covering_from) (sym e)
    ]

module _ (iter : HashMap ℕ Str → List (ℕ × Str)) where
  process_ip-Hosts :
      (r : Resolution) (agg : RouteAggregator) (f : ℕ → Option RouteOwner)
      → agg.prefix_len ≡ 32
      → Hosts agg.installed f
      → Hosts
          (process_ip iter agg r.ip r.owner.zone_name r.owner.route_type
            r.owner.route_target).0.installed
          (λ a. first_claim r a (f a))
  unfolding process_ip
  process_ip-Hosts r agg f off h =
      let on : leb 32 agg.prefix_len ≡ true = ground arith in
      rw on (
        process_host-Hosts
          (record agg { known_ips = HashMap.insert r.ip r.owner.zone_name agg.known_ips }) r f h)

  run-Hosts :
      (rs : List Resolution) (agg : RouteAggregator) (f : ℕ → Option RouteOwner)
      → agg.prefix_len ≡ 32
      → Hosts agg.installed f
      → Hosts (run iter rs agg).installed (λ a. first_owner a rs (f a))
  unfolding run first_owner process_ip
  run-Hosts [] agg f off h = h
  run-Hosts (r ∷ rs) agg f off h =
      run-Hosts rs _ (λ a. first_claim r a (f a)) off (process_ip-Hosts r agg f off h)

  new-Hosts : Hosts (new none).installed (λ a. none)
  unfolding new HashMap.get
  new-Hosts a q = ground arith

  -- With aggregation disabled, whatever addresses are resolved, `find_covering_route` finds for an
  -- address the owner of its first resolution, and nothing for an address that no zone has
  -- resolved: a zone that resolves it later gets no route.
  pub run-first_owner :
      (rs : List Resolution) (a : ℕ)
      → a < u32_mod
      → owner_of (find_covering_route a (run iter rs (new none)).installed) ≡ first_owner a rs none
  unfolding find_covering_route new
  run-first_owner rs a ha =
      from_host 31 a (run iter rs (new none)).installed (λ x. first_owner x rs none) refl ha
        (run-Hosts rs (new none) (λ x. none) refl new-Hosts)
