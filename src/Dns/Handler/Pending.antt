-- ===== src/Dns/Handler/Pending.antt =====
-- What the number of failures of `apply_static_routes` says.
use leshy.Prelude.{
  ℕ, ◌+◌, ◌≤◌, ◌≡◌, ◌⊎◌, refl, sym, ◌∙◌, ap, Option, arith, inl, inr, List, [], ◌∷◌, In, Bool-cases,
  false, if◌then◌else◌,
}
use mathlib.Core.Path.{subst}
use leshy.Prelude.HashMap.{HashMap}
use leshy.Prelude.Results.{ok, Result-cases}
use leshy.Prelude.Text.{Str}
use leshy.Config.{IpAddr, ZoneConfig, is_exclusive}
use leshy.Routing.Manager.{
  RouteManager, RouteAdder, FileRead, Outcome, add_static_route, parse_cidr,
}
use leshy.Routing.Manager.Tracked.{
  IsTracked, IsAppliable, add_static_route-keeps, add_static_route-tracks,
  add_static_route-succeeds,
}
use leshy.Dns.Handler.{apply_zone, apply_static_routes}

module _ {K : Type 0} (adder : RouteAdder K) (iter : HashMap ℕ Str → List (ℕ × Str))
    (parse_v6 : Str → Option ℕ) (files : Str → FileRead) where
  abbrev State : Type 0
  State = RouteManager K × ℕ

  abbrev added : ZoneConfig → Str → RouteManager K → RouteManager K × Outcome
  added zone cidr m = add_static_route adder iter parse_v6 files m cidr zone

  abbrev zone_after : ZoneConfig → List Str → State → State
  zone_after zone cidrs s = apply_zone adder iter parse_v6 files zone cidrs s

  abbrev all_after : List ZoneConfig → State → State
  all_after zones s = apply_static_routes adder iter parse_v6 files zones s

  -- One range more, by its outcome.
  apply_zone-step :
      (zone : ZoneConfig) (cidr : Str) (cidrs : List Str) (m : RouteManager K) (n : ℕ)
      → let m' = (added zone cidr m).0 in
        (((added zone cidr m).1 ≡ ok tt)
          × (zone_after zone (cidr ∷ cidrs) (m, n) ≡ zone_after zone cidrs (m', n)))
        ⊎ (zone_after zone (cidr ∷ cidrs) (m, n) ≡ zone_after zone cidrs (m', n + 1))
  unfolding apply_zone
  apply_zone-step zone cidr cidrs m n = elim (Result-cases (added zone cidr m).1) [
    | inl (u, e) ↦ inl (e, rw (e, apply_zone) refl)
    | inr (x, e) ↦ inr (rw (e, apply_zone) refl)
  ]

  apply_zone-le :
      (zone : ZoneConfig) (cidrs : List Str) (m : RouteManager K) (n : ℕ)
      → n ≤ (zone_after zone cidrs (m, n)).1
  unfolding apply_zone
  apply_zone-le zone [] m n = omega arith
  apply_zone-le zone (cidr ∷ cidrs) m n =
      let m' = (added zone cidr m).0 in
      elim (apply_zone-step zone cidr cidrs m n) [
        | inl (done, e) ↦ rw e (apply_zone-le zone cidrs m' n)
        | inr e ↦ rw e (omega (arith, apply_zone-le zone cidrs m' (n + 1)))
      ]

  apply_zone-keeps :
      (zone : ZoneConfig) (cidrs : List Str) (m : RouteManager K) (n : ℕ) (name : Str) (ip : IpAddr)
      → IsTracked m name ip
      → IsTracked (zone_after zone cidrs (m, n)).0 name ip
  unfolding apply_zone
  apply_zone-keeps zone [] m n name ip t = t
  apply_zone-keeps zone (cidr ∷ cidrs) m n name ip t =
      let m' = (added zone cidr m).0 in
      let t' = add_static_route-keeps adder iter parse_v6 files zone m cidr name ip t in
      elim (apply_zone-step zone cidr cidrs m n) [
        | inl (done, e) ↦ rw e (apply_zone-keeps zone cidrs m' n name ip t')
        | inr e ↦ rw e (apply_zone-keeps zone cidrs m' (n + 1) name ip t')
      ]

  -- The range could be read, and its address is tracked for the zone.
  abbrev pub IsApplied : RouteManager K → ZoneConfig → Str → Type 0
  IsApplied m zone cidr =
      (r : IpAddr × ℕ) × (parse_cidr parse_v6 cidr ≡ ok r) × IsTracked m zone.name r.0

  apply_zone-IsApplied :
      (zone : ZoneConfig) (cidrs : List Str) (m : RouteManager K) (n : ℕ) (cidr : Str)
      → (zone_after zone cidrs (m, n)).1 ≡ n
      → In cidr cidrs
      → IsApplied (zone_after zone cidrs (m, n)).0 zone cidr
  unfolding apply_zone
  apply_zone-IsApplied zone [] m n cidr none_failed at = elim at [ ]
  apply_zone-IsApplied zone (first ∷ cidrs) m n cidr none_failed at =
      let m' = (added zone first m).0 in
      elim (apply_zone-step zone first cidrs m n) [
        | inr e ↦
            let le = apply_zone-le zone cidrs m' (n + 1) in
            let same = sym (ap (λ (s : State). s.1) e) ∙ none_failed in absurd (omega arith)
        | inl (done, e) ↦ rw e (elim at [
          | inr later ↦
              apply_zone-IsApplied zone cidrs m' n cidr
                (sym (ap (λ (s : State). s.1) e) ∙ none_failed) later
          | inl same ↦
              let (r, parsed, t) =
                add_static_route-tracks adder iter parse_v6 files zone m first done in
              (
                r,
                ap (parse_cidr parse_v6) same ∙ parsed,
                apply_zone-keeps zone cidrs m' n zone.name r.0 t,
              )
        ])
      ]

  apply_zone-succeeds :
      (Up : K → Type 0) (zone : ZoneConfig) (cidrs : List Str) (m : RouteManager K) (n : ℕ)
      → Up m.kernel
      → ((cidr : Str) → In cidr cidrs → IsAppliable adder iter parse_v6 files zone Up cidr)
      → ((zone_after zone cidrs (m, n)).1 ≡ n) × Up (zone_after zone cidrs (m, n)).0.kernel
  unfolding apply_zone
  apply_zone-succeeds Up zone [] m n up takes = (refl, up)
  apply_zone-succeeds Up zone (cidr ∷ cidrs) m n up takes =
      let (done, still) =
        add_static_route-succeeds adder iter parse_v6 files zone Up m cidr (takes cidr (inl refl))
          up in
      rw (done, apply_zone)
        (apply_zone-succeeds Up zone cidrs (added zone cidr m).0 n still (λ c at. takes c (inr at)))

  abbrev one : ZoneConfig → State → State
  one zone s = if is_exclusive zone.mode then s else zone_after zone zone.static_routes s

  one-le : (zone : ZoneConfig) (s : State) → s.1 ≤ (one zone s).1
  one-le zone s = elim (Bool-cases (is_exclusive zone.mode)) [
    | inl x ↦ rw (x, one) (omega arith)
    | inr x ↦ rw (x, one) (apply_zone-le zone zone.static_routes s.0 s.1)
  ]

  one-keeps :
      (zone : ZoneConfig) (s : State) (name : Str) (ip : IpAddr)
      → IsTracked s.0 name ip
      → IsTracked (one zone s).0 name ip
  one-keeps zone s name ip t = elim (Bool-cases (is_exclusive zone.mode)) [
    | inl x ↦
        let is : one zone s ≡ s = rw (x, one) refl in
        subst (λ (r : State). IsTracked r.0 name ip) (sym is) t
    | inr x ↦
        let is : one zone s ≡ zone_after zone zone.static_routes s = rw (x, one) refl in
        subst (λ (r : State). IsTracked r.0 name ip) (sym is)
          (apply_zone-keeps zone zone.static_routes s.0 s.1 name ip t)
  ]

  all-le : (zones : List ZoneConfig) (s : State) → s.1 ≤ (all_after zones s).1
  unfolding apply_static_routes
  all-le [] s = omega arith
  all-le (zone ∷ zones) s = omega (arith, one-le zone s, all-le zones (one zone s))

  all-keeps :
      (zones : List ZoneConfig) (s : State) (name : Str) (ip : IpAddr)
      → IsTracked s.0 name ip
      → IsTracked (all_after zones s).0 name ip
  unfolding apply_static_routes
  all-keeps [] s name ip t = t
  all-keeps (zone ∷ zones) s name ip t =
      all-keeps zones (one zone s) name ip (one-keeps zone s name ip t)

  one-IsApplied :
      (zone : ZoneConfig) (s : State) (cidr : Str)
      → (one zone s).1 ≡ s.1
      → is_exclusive zone.mode ≡ false
      → In cidr zone.static_routes
      → IsApplied (one zone s).0 zone cidr
  one-IsApplied zone s cidr none_failed x c =
      let is : one zone s ≡ zone_after zone zone.static_routes s = rw (x, one) refl in
      subst (λ (r : State). IsApplied r.0 zone cidr) (sym is)
        (apply_zone-IsApplied zone zone.static_routes s.0 s.1 cidr
          (sym (ap (λ (r : State). r.1) is) ∙ none_failed) c)

  -- If no failure was counted, every static route of a zone that is not exclusive could be read,
  -- and its address is tracked for the zone.
  pub apply_static_routes-IsApplied :
      (zones : List ZoneConfig) (s : RouteManager K × ℕ) (zone : ZoneConfig) (cidr : Str)
      → (apply_static_routes adder iter parse_v6 files zones s).1 ≡ s.1
      → In zone zones
      → is_exclusive zone.mode ≡ false
      → In cidr zone.static_routes
      → IsApplied (apply_static_routes adder iter parse_v6 files zones s).0 zone cidr
  unfolding apply_static_routes
  apply_static_routes-IsApplied [] s zone cidr none_failed at inclusive c = elim at [ ]
  apply_static_routes-IsApplied (first ∷ zones) s zone cidr none_failed at inclusive c =
      let le = one-le first s in
      let rest_le = all-le zones (one first s) in
      let here : (one first s).1 ≡ s.1 = omega arith in
      elim at [
        | inr later ↦
            apply_static_routes-IsApplied zones (one first s) zone cidr (none_failed ∙ sym here)
              later inclusive c
        | inl same ↦
            let first_inclusive =
              sym (ap (λ (z : ZoneConfig). is_exclusive z.mode) same) ∙ inclusive in
            let (r, parsed, t) =
              one-IsApplied first s cidr here first_inclusive
                (subst (λ (z : ZoneConfig). In cidr z.static_routes) same c) in
            (
              r,
              parsed,
              subst (λ (z : ZoneConfig). IsTracked (all_after zones (one first s)).0 z.name r.0)
                  (sym same) (all-keeps zones (one first s) first.name r.0 t),
            )
      ]

  -- If every static route of the zones that are not exclusive can be read, and the adder takes it
  -- in the given states of the kernel, of which the first is one, and stays in these, no failure is
  -- counted.
  pub apply_static_routes-succeeds :
      (Up : K → Type 0) (zones : List ZoneConfig) (s : RouteManager K × ℕ)
      → Up s.0.kernel
      → ((zone : ZoneConfig) (cidr : Str)
          → In zone zones
          → is_exclusive zone.mode ≡ false
          → In cidr zone.static_routes
          → IsAppliable adder iter parse_v6 files zone Up cidr)
      → (apply_static_routes adder iter parse_v6 files zones s).1 ≡ s.1
  unfolding apply_static_routes
  apply_static_routes-succeeds Up [] s up takes = refl
  apply_static_routes-succeeds Up (zone ∷ zones) s up takes =
      let (here, still) : ((one zone s).1 ≡ s.1) × Up (one zone s).0.kernel =
        elim (Bool-cases (is_exclusive zone.mode)) [
          | inl x ↦ rw (x, one) (refl, up)
          | inr x ↦
              rw (x, one)
                (apply_zone-succeeds Up zone zone.static_routes s.0 s.1 up
                  (λ c at. takes zone c (inl refl) x at))
        ] in
      apply_static_routes-succeeds Up zones (one zone s) still (λ z c at. takes z c (inr at)) ∙ here
