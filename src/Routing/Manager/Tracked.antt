-- ===== src/Routing/Manager/Tracked.antt =====
-- The addresses that the manager keeps for the zones, under `add_static_route`.
use mathlib.Core.Path.{subst}
use leshy.Prelude.{
  ℕ, ◌≡◌, refl, sym, ◌∙◌, ap, Option, some, none, arith, nat_eq, list_eq, ◌==◌, inl, inr, List, [],
  Eq, ◌⊎◌, Bool-cases, list_beq_iff, beq_refl,
}
use leshy.Prelude.HashMap
use leshy.Prelude.HashMap.{HashMap}
use leshy.Prelude.Results.{ok, err, Result-cases}
use leshy.Prelude.Text.{Str}
use leshy.Config.{IpAddr, v4, v6, ip_eq, ZoneConfig}
use leshy.Routing.Manager.{
  RouteManager, RouteAdder, RouteError, FileRead, track, add_tracked, add_static_route, add_typed,
  parse_cidr,
}

abbrev pub Tracks : HashMap Str (HashMap IpAddr (Unit {0})) → Str → IpAddr → Type 0
Tracks routes name ip =
    (set : HashMap IpAddr (Unit {0})) × (HashMap.get name routes ≡ some set)
    × (HashMap.get ip set ≡ some tt)

-- The zone has a tracked route for the address.
abbrev pub IsTracked : {K : Type 0} → RouteManager K → Str → IpAddr → Type 0
IsTracked self name ip = Tracks self.zone_routes name ip

abbrev tracked_set : Str → HashMap Str (HashMap IpAddr (Unit {0})) → HashMap IpAddr (Unit {0})
tracked_set zone routes = elim (HashMap.get zone routes) [ none ↦ [] | some set ↦ set ]

get-insert_same {ℓ} :
    {A V : Type ℓ} ⦃key : Eq A⦄ (k : A) (v : V) (m : HashMap A V)
    → HashMap.get k (HashMap.insert k v m) ≡ some v
get-insert_same k v m = let t = beq_refl k in HashMap.get-insert k k v m ∙ rw t refl

track-Tracks :
    (zone : Str) (ip : IpAddr) (routes : HashMap Str (HashMap IpAddr (Unit {0})))
    → Tracks (track zone ip routes) zone ip
unfolding track
track-Tracks zone ip routes =
    let set = tracked_set zone routes in
    (
      HashMap.insert ip tt set,
      get-insert_same zone (HashMap.insert ip tt set) routes,
      get-insert_same ip tt set,
    )

still-in :
    (added ip : IpAddr) (set : HashMap IpAddr (Unit {0}))
    → HashMap.get ip set ≡ some tt
    → HashMap.get ip (HashMap.insert added tt set) ≡ some tt
still-in added ip set there = ground (arith, HashMap.get-insert added ip tt set)

track-keeps :
    (zone name : Str) (added ip : IpAddr) (routes : HashMap Str (HashMap IpAddr (Unit {0})))
    → Tracks routes name ip
    → Tracks (track zone added routes) name ip
unfolding track
track-keeps zone name added ip routes (set, at, there) =
    let new_set = HashMap.insert added tt (tracked_set zone routes) in
    elim (Bool-cases (zone == name)) [
      | inl t ↦
          let same = (list_beq_iff zone name).0 t in
          let here : tracked_set zone routes ≡ set =
            rw (tracked_set, ap (λ (n : Str). HashMap.get n routes) same ∙ at) refl in
          (
            new_set,
            HashMap.get-insert zone name new_set routes ∙ rw t refl,
            ap (λ (s : HashMap IpAddr (Unit {0})). HashMap.get ip (HashMap.insert added tt s)) here
                ∙ still-in added ip set there,
          )
      | inr f ↦ (set, HashMap.get-insert zone name new_set routes ∙ rw f at, there)
    ]

module _ {K : Type 0} (adder : RouteAdder K) (iter : HashMap ℕ Str → List (ℕ × Str))
    (parse_v6 : Str → Option ℕ) (files : Str → FileRead) (zone : ZoneConfig) where
  -- The outcome of `add_tracked` is the adder's, and a success tracks the address.
  add_tracked-cases :
      (self : RouteManager K) (ip : IpAddr) (prefix_len : ℕ)
      → let r = add_tracked adder iter files self ip prefix_len zone in
        let done =
          (add_typed adder iter files self.kernel zone.route_type zone.route_target ip
            prefix_len).1 in
        (r.1 ≡ done)
        × ((done ≡ ok tt) × (r.0.zone_routes ≡ track zone.name ip self.zone_routes)
            ⊎ ((e : RouteError) × (done ≡ err e) × (r.0.zone_routes ≡ self.zone_routes)))
  unfolding add_tracked
  add_tracked-cases self ip prefix_len =
      elim (Result-cases
        (add_typed adder iter files self.kernel zone.route_type zone.route_target ip
          prefix_len).1) [
            | inl (u, e) ↦ rw (e, add_tracked) (refl, inl (refl, refl))
            | inr (x, e) ↦ rw (e, add_tracked) (refl, inr (x, refl, refl))
          ]

  add_tracked-keeps :
      (self : RouteManager K) (ip : IpAddr) (prefix_len : ℕ) (name : Str) (other : IpAddr)
      → IsTracked self name other
      → IsTracked (add_tracked adder iter files self ip prefix_len zone).0 name other
  add_tracked-keeps self ip prefix_len name other t =
      let carry = λ (routes : HashMap Str (HashMap IpAddr (Unit {0}))). Tracks routes name other in
      elim (add_tracked-cases self ip prefix_len).1 [
        | inl (done, routes) ↦
            subst carry (sym routes) (track-keeps zone.name name ip other self.zone_routes t)
        | inr (e, failed, routes) ↦ subst carry (sym routes) t
      ]

  add_tracked-tracks :
      (self : RouteManager K) (ip : IpAddr) (prefix_len : ℕ)
      → (add_tracked adder iter files self ip prefix_len zone).1 ≡ ok tt
      → IsTracked (add_tracked adder iter files self ip prefix_len zone).0 zone.name ip
  add_tracked-tracks self ip prefix_len ran =
      let (outcome, which) = add_tracked-cases self ip prefix_len in
      elim which [
        | inl (done, routes) ↦
            subst (λ (routes : HashMap Str (HashMap IpAddr (Unit {0}))). Tracks routes zone.name ip)
              (sym routes) (track-Tracks zone.name ip self.zone_routes)
        | inr (e, failed, routes) ↦ absurd (ground arith)
      ]

  -- A failed or successful call of `add_static_route` forgets no address.
  pub add_static_route-keeps :
      (self : RouteManager K) (cidr name : Str) (other : IpAddr)
      → IsTracked self name other
      → IsTracked (add_static_route adder iter parse_v6 files self cidr zone).0 name other
  unfolding add_static_route
  add_static_route-keeps self cidr name other t = elim (Result-cases (parse_cidr parse_v6 cidr)) [
    | inl ((v4 ip, prefix_len), e) ↦
        rw (e, add_static_route) (add_tracked-keeps _ (v4 ip) prefix_len name other t)
    | inl ((v6 ip, prefix_len), e) ↦
        rw (e, add_static_route) (add_tracked-keeps self (v6 ip) prefix_len name other t)
    | inr (x, e) ↦ rw (e, add_static_route) t
  ]

  -- A success means that the range could be read, and that its address is tracked.
  pub add_static_route-tracks :
      (self : RouteManager K) (cidr : Str)
      → (add_static_route adder iter parse_v6 files self cidr zone).1 ≡ ok tt
      → (r : IpAddr × ℕ) × (parse_cidr parse_v6 cidr ≡ ok r)
        × IsTracked (add_static_route adder iter parse_v6 files self cidr zone).0 zone.name r.0
  unfolding add_static_route
  add_static_route-tracks self cidr = elim (Result-cases (parse_cidr parse_v6 cidr)) [
    | inl ((v4 ip, prefix_len), e) ↦
        rw (e, add_static_route)
          (λ ran. ((v4 ip, prefix_len), refl, add_tracked-tracks _ (v4 ip) prefix_len ran))
    | inl ((v6 ip, prefix_len), e) ↦
        rw (e, add_static_route)
          (λ ran. ((v6 ip, prefix_len), refl, add_tracked-tracks self (v6 ip) prefix_len ran))
    | inr (x, e) ↦ rw (e, add_static_route) (λ ran. absurd (ground arith))
  ]

  -- The range can be read, and the adder takes its route in every state of the kernel of the given
  -- ones, and leaves the kernel in one of these.
  abbrev pub IsAppliable : (K → Type 0) → Str → Type 0
  IsAppliable Up cidr =
      (r : IpAddr × ℕ) × (parse_cidr parse_v6 cidr ≡ ok r)
      × ((k : K)
          → Up k
          → ((add_typed adder iter files k zone.route_type zone.route_target r.0 r.1).1 ≡ ok tt)
            × Up (add_typed adder iter files k zone.route_type zone.route_target r.0 r.1).0)

  add_tracked-kernel :
      (self : RouteManager K) (ip : IpAddr) (prefix_len : ℕ)
      → (add_tracked adder iter files self ip prefix_len zone).0.kernel
        ≡ (add_typed adder iter files self.kernel zone.route_type zone.route_target ip prefix_len).0
  unfolding add_tracked
  add_tracked-kernel self ip prefix_len =
      elim (Result-cases
        (add_typed adder iter files self.kernel zone.route_type zone.route_target ip
          prefix_len).1) [
            | inl (u, e) ↦ rw (e, add_tracked) refl
            | inr (x, e) ↦ rw (e, add_tracked) refl
          ]

  taken :
      (Up : K → Type 0) (self : RouteManager K) (ip : IpAddr) (prefix_len : ℕ)
      → let k =
          add_typed adder iter files self.kernel zone.route_type zone.route_target ip prefix_len in
        (k.1 ≡ ok tt) × Up k.0
        → ((add_tracked adder iter files self ip prefix_len zone).1 ≡ ok tt)
          × Up (add_tracked adder iter files self ip prefix_len zone).0.kernel
  taken Up self ip prefix_len (done, up) = (
    (add_tracked-cases self ip prefix_len).0 ∙ done,
    subst Up (sym (add_tracked-kernel self ip prefix_len)) up,
  )

  pub add_static_route-succeeds :
      (Up : K → Type 0) (self : RouteManager K) (cidr : Str)
      → IsAppliable Up cidr
      → Up self.kernel
      → ((add_static_route adder iter parse_v6 files self cidr zone).1 ≡ ok tt)
        × Up (add_static_route adder iter parse_v6 files self cidr zone).0.kernel
  unfolding add_static_route
  add_static_route-succeeds Up self cidr ((v4 ip, prefix_len), e, takes) up =
      rw (e, add_static_route) (taken Up _ (v4 ip) prefix_len (takes self.kernel up))
  add_static_route-succeeds Up self cidr ((v6 ip, prefix_len), e, takes) up =
      rw (e, add_static_route) (taken Up self (v6 ip) prefix_len (takes self.kernel up))
