-- ===== src/Main/Retry.antt =====
-- The retry loop: when it ends, and what holds when it has.
use mathlib.Core.Path.{subst}
use leshy.Prelude.{
  ℕ, ◌≡◌, refl, sym, ◌∙◌, ap, ◌⊎◌, ◌≢◌, Bool, Option, arith, inl, inr, List, [], ◌∷◌, ◌++◌, In,
  Bool-cases, true, false, eqb, eqb_iff,
}
use leshy.Prelude.HashMap.{HashMap}
use leshy.Prelude.Results.{ok, err}
use leshy.Prelude.Text.{Str}
use leshy.Config.{IpAddr, Config, ZoneConfig, is_exclusive}
use leshy.Zones.{RegexEngine}
use leshy.Routing.Manager.{RouteAdder, RouteError, parse_cidr}
use leshy.Routing.Manager.Tracked.{IsTracked, IsAppliable}
use leshy.Dns.Message.{Hickory}
use leshy.Dns.Handler.{DnsHandler}
use leshy.Dns.Handler.Pending.{apply_static_routes-IsApplied, apply_static_routes-succeeds}
use leshy.Main.{Round, retry_static_routes, apply_own_static_routes}

-- A static route of a zone that is not exclusive.
abbrev pub IsStatic : List ZoneConfig → ZoneConfig → Str → Type 0
IsStatic zones zone cidr =
    In zone zones × (is_exclusive zone.mode ≡ false) × In cidr zone.static_routes

module _ (to_lowercase : Str → Str) (regex : RegexEngine) (hickory : Hickory) {K : Type 0}
    (adder : RouteAdder K) (iter : HashMap ℕ Str → List (ℕ × Str)) (parse_v6 : Str → Option ℕ) where
  abbrev Handler : Type 0
  Handler = DnsHandler to_lowercase regex hickory K

  abbrev ARound : Type 0
  ARound = Round to_lowercase regex hickory adder iter parse_v6

  abbrev applied : ARound → Handler → Handler × ℕ
  applied r self =
      apply_own_static_routes to_lowercase regex hickory adder iter parse_v6 r.files
        (r.meanwhile self)

  abbrev retry : List ARound → Handler → Handler × Bool
  retry = retry_static_routes to_lowercase regex hickory adder iter parse_v6

  -- While the loop sleeps, the zones stay the given ones.
  abbrev pub KeepsZones : List ZoneConfig → ARound → Type 0
  KeepsZones zones r =
      (self : Handler) → self.config.zones ≡ zones → (r.meanwhile self).config.zones ≡ zones

  -- While the loop sleeps before the round, the kernel comes into one of the given states.
  abbrev pub BringsUp : (K → Type 0) → List ZoneConfig → ARound → Type 0
  BringsUp Up zones r =
      (self : Handler) → self.config.zones ≡ zones → Up (r.meanwhile self).route_manager.kernel

  -- With the files of the round every static route can be read, and in the given states of the
  -- kernel the adder takes its route and stays in these.
  abbrev pub IsReady : (K → Type 0) → List ZoneConfig → ARound → Type 0
  IsReady Up zones r =
      (zone : ZoneConfig) (cidr : Str)
      → IsStatic zones zone cidr
      → IsAppliable adder iter parse_v6 r.files zone Up cidr

  applied-zones :
      (r : ARound) (self : Handler) → (applied r self).0.config ≡ (r.meanwhile self).config
  unfolding apply_own_static_routes
  applied-zones r self = refl

  retry-step :
      (r : ARound) (rounds : List ARound) (self : Handler)
      → (((applied r self).1 ≡ 0) × (retry (r ∷ rounds) self ≡ ((applied r self).0, true)))
        ⊎ (((applied r self).1 ≢ 0) × (retry (r ∷ rounds) self ≡ retry rounds (applied r self).0))
  unfolding retry_static_routes
  retry-step r rounds self = elim (Bool-cases (eqb (applied r self).1 0)) [
    | inl e ↦ inl ((eqb_iff (applied r self).1 0).0 e, rw (e, retry_static_routes) refl)
    | inr e ↦ inr (
      λ same. (let t = (eqb_iff (applied r self).1 0).1 same in absurd (ground arith)),
      rw (e, retry_static_routes) refl,
    )
  ]

  ready-round :
      (Up : K → Type 0) (zones : List ZoneConfig) (r : ARound) (self : Handler)
      → (r.meanwhile self).config.zones ≡ zones
      → Up (r.meanwhile self).route_manager.kernel
      → IsReady Up zones r
      → (applied r self).1 ≡ 0
  unfolding apply_own_static_routes
  ready-round Up zones r self same up ready =
      apply_static_routes-succeeds adder iter parse_v6 r.files Up (r.meanwhile self).config.zones
        ((r.meanwhile self).route_manager, 0) up
        (λ zone cidr at inclusive c.
          ready zone cidr (subst (λ (zs : List ZoneConfig). In zone zs) same at, inclusive, c))

  done-round :
      (r : ARound) (self : Handler) (zone : ZoneConfig) (cidr : Str)
      → (applied r self).1 ≡ 0
      → IsStatic (applied r self).0.config.zones zone cidr
      → (p : IpAddr × ℕ) × (parse_cidr parse_v6 cidr ≡ ok p)
        × IsTracked (applied r self).0.route_manager zone.name p.0
  unfolding apply_own_static_routes
  done-round r self zone cidr none_failed (at, inclusive, c) =
      apply_static_routes-IsApplied adder iter parse_v6 r.files (r.meanwhile self).config.zones
        ((r.meanwhile self).route_manager, 0) zone cidr none_failed at inclusive c

  -- Let the zones be unchanged while the loop sleeps, and in some states of the kernel the adder, with
  -- the files of one round, take every static route of the zones that are not exclusive, which can
  -- be read, and leave the kernel in one of these states. If the kernel is in one of them when that
  -- round begins, the loop ends with that round or before, whatever the earlier rounds met: other
  -- files, or a kernel that refuses.
  pub retry_static_routes-ends :
      (Up : K → Type 0) (zones : List ZoneConfig) (before : List ARound) (r : ARound)
      (later : List ARound) (self : DnsHandler to_lowercase regex hickory K)
      → self.config.zones ≡ zones
      → ((b : ARound) → In b before → KeepsZones zones b)
      → KeepsZones zones r
      → BringsUp Up zones r
      → IsReady Up zones r
      → (retry_static_routes to_lowercase regex hickory adder iter parse_v6
          (before ++ r ∷ later)
          self).1
        ≡ true
  retry_static_routes-ends Up zones [] r later self same keep keeps brings ready =
      let done = ready-round Up zones r self (keeps self same) (brings self same) ready in
      elim (retry-step r later self) [
        | inl (none_failed, e) ↦ rw e refl
        | inr (failed, e) ↦ absurd (failed done)
      ]
  retry_static_routes-ends Up zones (b ∷ before) r later self same keep keeps brings ready =
      elim (retry-step b (before ++ r ∷ later) self) [
        | inl (none_failed, e) ↦ rw e refl
        | inr (failed, e) ↦ rw e (
            retry_static_routes-ends Up zones before r later (applied b self).0
              (ap (λ (c : Config). c.zones) (applied-zones b self) ∙ keep b (inl refl) self same)
              (λ x at. keep x (inr at)) keeps brings ready)
      ]

  -- When the loop has ended, every static route of the handler's zones that are not exclusive
  -- could be read, and its address is tracked for the zone.
  pub retry_static_routes_complete :
      (rounds : List ARound) (self : DnsHandler to_lowercase regex hickory K) (zone : ZoneConfig)
      (cidr : Str)
      → let r = retry_static_routes to_lowercase regex hickory adder iter parse_v6 rounds self in
        r.1 ≡ true
        → IsStatic r.0.config.zones zone cidr
        → (p : IpAddr × ℕ) × (parse_cidr parse_v6 cidr ≡ ok p)
          × IsTracked r.0.route_manager zone.name p.0
  unfolding retry_static_routes
  retry_static_routes_complete [] self zone cidr = λ ended static. absurd (ground arith)
  retry_static_routes_complete (r ∷ rounds) self zone cidr = elim (retry-step r rounds self) [
    | inl (none_failed, e) ↦ rw e (λ ended static. done-round r self zone cidr none_failed static)
    | inr (failed, e) ↦ rw e (retry_static_routes_complete rounds (applied r self).0 zone cidr)
  ]

  -- A static route that cannot be read keeps the loop going for ever: while the zones stay, no
  -- number of rounds ends it, whatever the files and the kernel.
  pub retry_static_routes-stuck :
      (zones : List ZoneConfig) (zone : ZoneConfig) (cidr : Str) (e : RouteError)
      (rounds : List ARound) (self : DnsHandler to_lowercase regex hickory K)
      → IsStatic zones zone cidr
      → parse_cidr parse_v6 cidr ≡ err e
      → self.config.zones ≡ zones
      → ((b : ARound) → In b rounds → KeepsZones zones b)
      → (retry_static_routes to_lowercase regex hickory adder iter parse_v6 rounds self).1 ≡ false
  unfolding retry_static_routes
  retry_static_routes-stuck zones zone cidr e [] self static unreadable same keep = refl
  retry_static_routes-stuck zones zone cidr x (b ∷ rounds) self static unreadable same keep =
      elim (retry-step b rounds self) [
        | inl (none_failed, e) ↦
            let zones_now : (applied b self).0.config.zones ≡ zones =
              ap (λ (c : Config). c.zones) (applied-zones b self) ∙ keep b (inl refl) self same in
            let (p, parsed, t) =
              done-round b self zone cidr none_failed
                (subst (λ (zs : List ZoneConfig). IsStatic zs zone cidr) (sym zones_now) static) in
            absurd (ground arith)
        | inr (failed, e) ↦ rw e (
            retry_static_routes-stuck zones zone cidr x rounds (applied b self).0 static unreadable
              (ap (λ (c : Config). c.zones) (applied-zones b self) ∙ keep b (inl refl) self same)
              (λ y at. keep y (inr at)))
      ]
