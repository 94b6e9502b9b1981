-- ===== src/Reload.antt =====
-- src/reload.rs and src/main.rs: how a new configuration takes the place of the old one. A message
-- of the watcher is one call of `apply_config`, under the handler's write lock.
pub mod Watch
pub mod Applied
pub mod Fresh
use leshy.Prelude.{
  ℕ, ◌+◌, ◌≡◌, refl, sym, ◌∙◌, ap, ◌↔◌, Bool, true, false, not, ◌&&◌, Option, List, [], ◌∷◌, arith,
  if◌then◌else◌, inl, inr, filter, any, map, In, any-In, any_of_In, In-filter, ltb, ◌==◌, list_eq,
  nat_eq, Bool-cases, list_beq_iff, beq_refl,
}
use mathlib.Core.Path.{subst}
use leshy.Prelude.HashMap.{HashMap}
use leshy.Prelude.Results.{ok, err}
use leshy.Prelude.Text.{Str}
use leshy.Config.{Config, ZoneConfig}
use leshy.Zones
use leshy.Zones.{RegexEngine}
use leshy.Routing.Manager.{RouteAdder, FileRead, get_zone_route_count}
use leshy.Routing.Manager.Cleanup.{count-cleanup_zone}
use leshy.Dns.Message.{Hickory}
use leshy.Dns.Handler.{
  DnsHandler, cleanup_zone, update_config, apply_static_routes, has_static_routes,
}

abbrev pub contains : List Str → Str → Bool
contains names name = any (λ n. n == name) names

-- `collect::<HashSet<_>>()`
unfoldable pub collect : List Str → List Str
collect [] = []
collect (n ∷ names) = let rest = collect names in if contains rest n then rest else n ∷ rest

unfoldable pub get_zones_to_cleanup : List ZoneConfig → List ZoneConfig → List Str
get_zones_to_cleanup old_zones new_zones =
    let old_zone_names = collect (map (λ (z : ZoneConfig). z.name) old_zones) in
    let new_zone_names = collect (map (λ (z : ZoneConfig). z.name) new_zones) in
    filter (λ n. not (contains new_zone_names n)) old_zone_names

unfoldable pub get_new_zones : List ZoneConfig → List ZoneConfig → List ZoneConfig
get_new_zones old_zones new_zones =
    let old_zone_names = collect (map (λ (z : ZoneConfig). z.name) old_zones) in
    filter (λ z. not (contains old_zone_names z.name)) new_zones

module _ (to_lowercase : Str → Str) (regex : RegexEngine) (hickory : Hickory) {K : Type 0}
    (adder : RouteAdder K) (iter : HashMap ℕ Str → List (ℕ × Str)) (parse_v6 : Str → Option ℕ) where
  -- the loop over the removed zones
  unfoldable pub cleanup_zones :
      DnsHandler to_lowercase regex hickory K → List Str → DnsHandler to_lowercase regex hickory K
  cleanup_zones self [] = self
  cleanup_zones self (n ∷ names) =
      cleanup_zones (cleanup_zone to_lowercase regex hickory K self n) names

  -- The body of the loop over the reloads, with whether the static routes are to be retried.
  unfoldable pub apply_config :
      (Str → FileRead)
      → DnsHandler to_lowercase regex hickory K
      → Config
      → DnsHandler to_lowercase regex hickory K × Bool
  apply_config files self new_config =
      let cleaned = cleanup_zones self (get_zones_to_cleanup self.config.zones new_config.zones) in
      elim (Zones.new to_lowercase regex new_config.zones) [
        | err e ↦ (cleaned, false)
        | ok new_matcher ↦
            let updated =
              update_config to_lowercase regex hickory K cleaned new_config new_matcher in
            let (manager, failures) =
              apply_static_routes adder iter parse_v6 files new_config.zones
                (updated.route_manager, 0) in
            (
              record updated { route_manager = manager },
              ltb 0 failures && has_static_routes new_config.zones,
            )
      ]

  -- What the reload task receives: what the rest of the program did to the shared handler before
  -- the write lock was taken, the files at that time, and the configuration that was sent.
  pub record Reception : Type 0 where
    pub meanwhile :
        DnsHandler to_lowercase regex hickory K → DnsHandler to_lowercase regex hickory K
    pub files : Str → FileRead
    pub new_config : Config

  -- `while let Some(new_config) = reload_rx.recv().await`, with the number of retry loops spawned
  unfoldable pub reload_task :
      List Reception
      → DnsHandler to_lowercase regex hickory K
      → DnsHandler to_lowercase regex hickory K × ℕ
  reload_task [] self = (self, 0)
  reload_task (r ∷ receptions) self =
      let (applied, retries) = apply_config r.files (r.meanwhile self) r.new_config in
      let (done, spawned) = reload_task receptions applied in
      (done, if retries then spawned + 1 else spawned)

contains_iff : (names : List Str) (n : Str) → (contains names n ≡ true) ↔ In n names
contains_iff names n = (
  λ t.
      (let (m, at, e) = any-In (λ x. x == n) names t in
        subst (λ (x : Str). In x names) ((list_beq_iff m n).0 e) at),
  λ at. any_of_In (λ x. x == n) n names at (beq_refl n),
)

In-collect : (n : Str) (names : List Str) → In n (collect names) ↔ In n names
unfolding collect
In-collect n [] = (λ m. m, λ m. m)
In-collect n (x ∷ names) =
    let ih = In-collect n names in
    elim (Bool-cases (contains (collect names) x)) [
      | inl e ↦ rw e (
        λ m. inr (ih.0 m),
        λ m. elim m [
          | inl same ↦
              subst (λ (y : Str). In y (collect names)) (sym same)
                ((contains_iff (collect names) x).0 e)
          | inr at ↦ ih.1 at
        ],
      )
      | inr e ↦ rw e (
        λ m. elim m [ inl same ↦ inl same | inr at ↦ inr (ih.0 at) ],
        λ m. elim m [ inl same ↦ inl same | inr at ↦ inr (ih.1 at) ],
      )
    ]

keep-In {ℓ} :
    {A : Type ℓ} (p : A → Bool) (a : A) (xs : List A) → In a xs → p a ≡ true → In a (filter p xs)
keep-In p a [] m t = elim m [ ]
keep-In p a (x ∷ xs) (inl same) t = let e = sym (ap p same) ∙ t in rw e (inl same)
keep-In p a (x ∷ xs) (inr m) t = elim (Bool-cases (p x)) [
  | inl e ↦ rw e (inr (keep-In p a xs m t))
  | inr e ↦ rw e (keep-In p a xs m t)
]

absent_iff :
    (names : List Str) (n : Str) → (not (contains (collect names) n) ≡ true) ↔ (¬ In n names)
absent_iff names n = (
  λ t m.
      (let c = (contains_iff (collect names) n).1 ((In-collect n names).1 m) in
        absurd (ground arith)),
  λ h. elim (Bool-cases (contains (collect names) n)) [
    | inl e ↦ absurd (h ((In-collect n names).0 ((contains_iff (collect names) n).0 e)))
    | inr e ↦ rw e refl
  ],
)

-- The names to clean up are those of the old zones that no new zone has, and the new zones are
-- those whose name no old zone has.
pub zones-changed :
    (old_zones new_zones : List ZoneConfig) (n : Str) (z : ZoneConfig)
    → let old_names = map (λ (z : ZoneConfig). z.name) old_zones in
      let new_names = map (λ (z : ZoneConfig). z.name) new_zones in
      (In n (get_zones_to_cleanup old_zones new_zones) ↔ (In n old_names × (¬ In n new_names)))
      × (In z (get_new_zones old_zones new_zones) ↔ (In z new_zones × (¬ In z.name old_names)))
unfolding get_zones_to_cleanup get_new_zones
zones-changed old_zones new_zones n z =
    let old_names = map (λ (z : ZoneConfig). z.name) old_zones in
    let new_names = map (λ (z : ZoneConfig). z.name) new_zones in
    let gone = λ (n : Str). not (contains (collect new_names) n) in
    let added = λ (z : ZoneConfig). not (contains (collect old_names) z.name) in
    (
      (
        λ m.
            (let (at, t) = In-filter gone n (collect old_names) m in
              ((In-collect n old_names).0 at, (absent_iff new_names n).0 t)),
        λ (m, no_new).
            keep-In gone n (collect old_names) ((In-collect n old_names).1 m)
              ((absent_iff new_names n).1 no_new),
      ),
      (
        λ m.
            (let (at, t) = In-filter added z new_zones m in
              (at, (absent_iff old_names z.name).0 t)),
        λ (m, no_old). keep-In added z new_zones m ((absent_iff old_names z.name).1 no_old),
      ),
    )

module _ (to_lowercase : Str → Str) (regex : RegexEngine) (hickory : Hickory) {K : Type 0}
    (adder : RouteAdder K) (iter : HashMap ℕ Str → List (ℕ × Str)) (parse_v6 : Str → Option ℕ) where
  abbrev count : DnsHandler to_lowercase regex hickory K → Str → ℕ
  count self n = get_zone_route_count self.route_manager n

  abbrev cleaned :
      DnsHandler to_lowercase regex hickory K → List Str → DnsHandler to_lowercase regex hickory K
  cleaned = cleanup_zones to_lowercase regex hickory adder iter parse_v6

  count-cleaned :
      (self : DnsHandler to_lowercase regex hickory K) (names : List Str) (n : Str)
      → count self n ≡ 0
      → count (cleaned self names) n ≡ 0
  unfolding cleanup_zones cleanup_zone
  count-cleaned self [] n e = e
  count-cleaned self (m ∷ names) n e =
      count-cleaned (cleanup_zone to_lowercase regex hickory K self m) names n
        (count-cleanup_zone self.route_manager m n ∙ ground arith)

  count-cleaned-In :
      (self : DnsHandler to_lowercase regex hickory K) (names : List Str) (n : Str)
      → In n names
      → count (cleaned self names) n ≡ 0
  unfolding cleanup_zones cleanup_zone
  count-cleaned-In self [] n m = elim m [ ]
  count-cleaned-In self (x ∷ names) n (inl same) =
      let t = (list_beq_iff x n).1 (sym same) in
      count-cleaned (cleanup_zone to_lowercase regex hickory K self x) names n
        (count-cleanup_zone self.route_manager x n ∙ rw t refl)
  count-cleaned-In self (x ∷ names) n (inr m) =
      count-cleaned-In (cleanup_zone to_lowercase regex hickory K self x) names n m

  kept :
      (self : DnsHandler to_lowercase regex hickory K) (names : List Str)
      → ((cleaned self names).config ≡ self.config) × ((cleaned self names).matcher ≡ self.matcher)
  unfolding cleanup_zones cleanup_zone
  kept self [] = (refl, refl)
  kept self (n ∷ names) = kept (cleanup_zone to_lowercase regex hickory K self n) names

  -- If the matcher of the new configuration cannot be built, the old configuration and matcher stay
  -- in place, but the zones that the new one drops, which the old one still serves, have lost their
  -- tracked routes all the same.
  pub apply_config-rejected :
      (files : Str → FileRead) (self : DnsHandler to_lowercase regex hickory K)
      (new_config : Config) (n reason : Str)
      → Zones.new to_lowercase regex new_config.zones ≡ err reason
      → In n (get_zones_to_cleanup self.config.zones new_config.zones)
      → let self' =
          (apply_config to_lowercase regex hickory adder iter parse_v6 files self new_config).0 in
        (self'.config ≡ self.config)
        × (self'.matcher ≡ self.matcher)
        × (get_zone_route_count self'.route_manager n ≡ 0)
  unfolding apply_config
  apply_config-rejected files self new_config n reason e m =
      let names = get_zones_to_cleanup self.config.zones new_config.zones in
      let (config, matcher) = kept self names in
      rw (e, apply_config) (config, matcher, count-cleaned-In self names n m)
