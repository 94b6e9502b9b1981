-- ===== src/Zones/Selection.antt =====
-- Which zone `find_zone` selects, in terms of the configured zones.
use mathlib.Core.Path.{subst}
use leshy.Prelude.{
  ◌≡◌, refl, sym, ap, ◌∙◌, ◌⊎◌, inl, inr, ◌↔◌, true, Option, none, some, List, [], ◌∷◌, ◌++◌, map,
  arith, if◌then◌else◌, In, In-map, map_of_In, filter_map, Bool-cases,
}
use leshy.Prelude.Text.{Str, dot, trim_end_matches}
use leshy.Prelude.Results.{ok}
use leshy.Config.{ZoneConfig, is_exclusive}
use leshy.Zones.{
  RegexEngine, CidrRange, Zone, MatchedZone, parse_cidr_range, matches_entries, zone_of, new,
  match_zone, first_match, find_zone,
}
use leshy.Zones.Domains.{IsUnder, domain_match_iff}

module _ (to_lowercase : Str → Str) (regex : RegexEngine) where
  open regex use {RegexSet, new_set, is_match}

  -- The name is at or below a domain of the zone, in any case of the letters, or one of the zone's
  -- patterns matches it.
  abbrev pub Listed : ZoneConfig → Str → Type 0
  Listed zone qname =
      ((d : Str) × In d zone.domains × IsUnder (to_lowercase d) (to_lowercase qname))
      ⊎ ((s : RegexSet) × (new_set zone.patterns ≡ some s) × (is_match s qname ≡ true))

  -- An inclusive zone takes the names on its lists, an exclusive one all others.
  abbrev pub Takes : ZoneConfig → Str → Type 0
  Takes zone qname = if is_exclusive zone.mode then (¬ Listed zone qname) else Listed zone qname

  matches_entries_iff :
      (zone : ZoneConfig) (s : RegexSet) (qname : Str)
      → new_set zone.patterns ≡ some s
      → (matches_entries to_lowercase regex (map to_lowercase zone.domains) s qname ≡ true)
        ↔ Listed zone qname
  unfolding matches_entries
  matches_entries_iff zone s qname e = (to, from)
    where
      set : List Str
      set = map to_lowercase zone.domains

      to : matches_entries to_lowercase regex set s qname ≡ true → Listed zone qname
      to h = elim (Bool-cases (is_match s qname)) [
        | inl m ↦ inr (s, e, m)
        | inr m ↦
            let (d, at, under) = (domain_match_iff set (to_lowercase qname)).0 (ground arith) in
            let (d', at', same) = In-map to_lowercase d zone.domains at in
            inl (d', at', subst (λ (x : Str). IsUnder x (to_lowercase qname)) same under)
      ]

      from : Listed zone qname → matches_entries to_lowercase regex set s qname ≡ true
      from (inl (d, m, under)) =
          let t =
            (domain_match_iff set (to_lowercase qname)).1
              (to_lowercase d, map_of_In to_lowercase d zone.domains m, under) in
          rw t
      from (inr (s', e', m)) =
          let found : is_match s qname ≡ true =
            subst (λ (x : RegexSet). is_match x qname ≡ true) (cc) m in
          ground arith

  -- One round of the loop selects the zone exactly when it takes the name, and carries the zone's
  -- configuration and, of an exclusive zone, its ranges.
  abbrev ranges : ZoneConfig → List CidrRange
  ranges zone =
      if is_exclusive zone.mode then filter_map parse_cidr_range zone.static_routes else []

  abbrev selected : ZoneConfig → MatchedZone
  selected zone = record { config = zone; excluded_cidrs = ranges zone }

  match_zone-Takes :
      (zone : ZoneConfig) (s : RegexSet) (qname : Str)
      → new_set zone.patterns ≡ some s
      → ((match_zone to_lowercase regex qname (zone_of to_lowercase regex zone s)
            ≡ some (selected zone))
          × Takes zone qname)
        ⊎ ((match_zone to_lowercase regex qname (zone_of to_lowercase regex zone s) ≡ none)
            × (¬ Takes zone qname))
  unfolding match_zone zone_of
  match_zone-Takes zone s qname e =
      let m = matches_entries_iff zone s qname e in
      let found = matches_entries to_lowercase regex (map to_lowercase zone.domains) s qname in
      elim (Bool-cases (is_exclusive zone.mode)) [
        | inl ex ↦ elim (Bool-cases found) [
          | inl t ↦ inr (rw (ex, t) refl, rw ex (λ n. n (m.0 t)))
          | inr f ↦ inl (rw (ex, f) refl, rw ex (λ l. (let p = sym f ∙ m.1 l in (cc))))
        ]
        | inr in_ ↦ elim (Bool-cases found) [
          | inl t ↦ inl (rw (in_, t) refl, rw in_ (m.0 t))
          | inr f ↦ inr (rw (in_, f) refl, rw in_ (λ l. (let p = sym f ∙ m.1 l in (cc))))
        ]
      ]

  -- what a successful `new` has built from its first zone
  new-first :
      (zone : ZoneConfig) (zones : List ZoneConfig) (built : List (Zone RegexSet))
      → new to_lowercase regex (zone ∷ zones) ≡ ok built
      → (s : RegexSet) × (rest : List (Zone RegexSet)) × (new_set zone.patterns ≡ some s)
        × (new to_lowercase regex zones ≡ ok rest)
        × (built ≡ zone_of to_lowercase regex zone s ∷ rest)
  unfolding new
  new-first zone zones built e = ground arith

  new-none : (built : List (Zone RegexSet)) → new to_lowercase regex [] ≡ ok built → built ≡ []
  unfolding new
  new-none built e = ground arith

  -- The first of the zones that takes the name, if any does.
  abbrev pub Selects : List ZoneConfig → Str → Option MatchedZone → Type 0
  Selects zones qname found =
      ((before : List ZoneConfig) × (zone : ZoneConfig) × (after : List ZoneConfig) × (zones
          ≡ before ++ zone ∷ after)
        × (found ≡ some (selected zone))
        × Takes zone qname
        × ((z : ZoneConfig) → In z before → ¬ Takes z qname))
      ⊎ ((found ≡ none) × ((z : ZoneConfig) → In z zones → ¬ Takes z qname))

  Selects-later :
      (zone : ZoneConfig) (zones : List ZoneConfig) (qname : Str) (found : Option MatchedZone)
      → (¬ Takes zone qname)
      → Selects zones qname found
      → Selects (zone ∷ zones) qname found
  Selects-later zone zones qname found skip (inl (before, z, after, e, f, t, none_before)) =
      inl (zone ∷ before, z, after, ap (λ l. zone ∷ l) e, f, t, earlier)
    where
      earlier : (y : ZoneConfig) → In y (zone ∷ before) → ¬ Takes y qname
      earlier y (inl same) = subst (λ (x : ZoneConfig). ¬ Takes x qname) (sym same) skip
      earlier y (inr m) = none_before y m
  Selects-later zone zones qname found skip (inr (f, nowhere)) = inr (f, anywhere)
    where
      anywhere : (y : ZoneConfig) → In y (zone ∷ zones) → ¬ Takes y qname
      anywhere y (inl same) = subst (λ (x : ZoneConfig). ¬ Takes x qname) (sym same) skip
      anywhere y (inr m) = nowhere y m

  first_match-here :
      (qname : Str) (z : Zone RegexSet) (rest : List (Zone RegexSet)) (m : MatchedZone)
      → match_zone to_lowercase regex qname z ≡ some m
      → first_match to_lowercase regex qname (z ∷ rest) ≡ some m
  unfolding first_match
  first_match-here qname z rest m e = ground arith

  first_match-later :
      (qname : Str) (z : Zone RegexSet) (rest : List (Zone RegexSet))
      → match_zone to_lowercase regex qname z ≡ none
      → first_match to_lowercase regex qname (z ∷ rest) ≡ first_match to_lowercase regex qname rest
  unfolding first_match
  first_match-later qname z rest e = ground arith

  first_match-Selects :
      (zones : List ZoneConfig) (built : List (Zone RegexSet)) (qname : Str)
      → new to_lowercase regex zones ≡ ok built
      → Selects zones qname (first_match to_lowercase regex qname built)
  unfolding first_match
  first_match-Selects [] built qname e = rw (new-none built e) (inr (refl, λ z m. elim m [ ]))
  first_match-Selects (zone ∷ zones) built qname e =
      let (s, rest, set, later, split) = new-first zone zones built e in
      rw split (elim (match_zone-Takes zone s qname set) [
        | inl (m, t) ↦ inl (
          [],
          zone,
          zones,
          refl,
          first_match-here qname (zone_of to_lowercase regex zone s) rest (selected zone) m,
          t,
          λ z at. elim at [ ],
        )
        | inr (m, t) ↦ rw (first_match-later qname (zone_of to_lowercase regex zone s) rest m) (
            Selects-later zone zones qname (first_match to_lowercase regex qname rest) t
              (first_match-Selects zones rest qname later))
      ])

  -- A matcher built from the configured zones answers a name with the first of them, in the order
  -- of the configuration, that takes the name without its trailing dots: an inclusive zone takes
  -- the names it lists, an exclusive zone those it does not list. The answer is that zone's
  -- configuration, and the parsed ranges of an exclusive zone. Without such a zone, it is `none`.
  pub find_zone-Selects :
      (zones : List ZoneConfig) (built : List (Zone RegexSet)) (qname : Str)
      → new to_lowercase regex zones ≡ ok built
      → Selects zones (trim_end_matches dot qname) (find_zone to_lowercase regex built qname)
  unfolding find_zone
  find_zone-Selects zones built qname e =
      first_match-Selects zones built (trim_end_matches dot qname) e
