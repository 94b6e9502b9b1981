-- ===== src/Config/Validate.antt =====
-- src/config.rs, `Config::validate`, with the test `Regex::new(pattern).is_ok()` a parameter.
use mathlib.Core.Path.{subst}
use leshy.Prelude.{
  ℕ, ◌≤◌, ◌≡◌, ◌≢◌, refl, sym, ◌∙◌, ◌⊎◌, inl, inr, ◌↔◌, Bool, true, false, not, ◌&&◌, Option, none,
  some, List, [], ◌∷◌, arith, eqb, leb, if◌then◌else◌, is_empty, any, In, any-In, any_of_In, nat_eq,
  list_eq, ◌==◌, list_beq_iff, beq_refl, Bool-cases,
}
use leshy.Prelude.Text.{Str}
use leshy.Prelude.Results.{Result, ok, err, ◌>>◌, bail_if}
use leshy.Config.{Config, ZoneConfig, is_exclusive, ZoneMode, inclusive, exclusive}

pub data ConfigError : Type 0 where
  listen_port_zero : ConfigError
  no_default_upstream : ConfigError
  empty_zone : Str → ConfigError
  invalid_pattern : Str → Str → ConfigError
  invalid_aggregation_prefix : ℕ → ConfigError
  duplicate_zone : Str → ConfigError

-- the condition of the first `bail!` of the loop over the zones
unfoldable pub is_vacuous : ZoneConfig → Bool
is_vacuous zone =
    not (is_exclusive zone.mode)
    && is_empty zone.domains
    && is_empty zone.patterns
    && is_empty zone.static_routes

unfoldable pub validate_patterns : (Str → Bool) → Str → List Str → Result (Unit {0}) ConfigError
validate_patterns is_regex name [] = ok tt
validate_patterns is_regex name (pattern ∷ patterns) =
    let rest = validate_patterns is_regex name patterns in
    if is_regex pattern then rest else err (invalid_pattern name pattern)

unfoldable pub validate_zones : (Str → Bool) → List ZoneConfig → Result (Unit {0}) ConfigError
validate_zones is_regex [] = ok tt
validate_zones is_regex (zone ∷ zones) =
    bail_if (is_vacuous zone) (empty_zone zone.name)
    >> validate_patterns is_regex zone.name zone.patterns
    >> validate_zones is_regex zones

unfoldable pub validate_prefix : Option ℕ → Result (Unit {0}) ConfigError
validate_prefix none = ok tt
validate_prefix (some prefix) =
    bail_if (not (leb 8 prefix && leb prefix 32)) (invalid_aggregation_prefix prefix)

-- `seen` is the hash set of the names so far.
unfoldable pub check_duplicates : List Str → List ZoneConfig → Result (Unit {0}) ConfigError
check_duplicates seen [] = ok tt
check_duplicates seen (zone ∷ zones) =
    let rest = check_duplicates (zone.name ∷ seen) zones in
    if any (λ n. n == zone.name) seen then err (duplicate_zone zone.name) else rest

unfoldable pub validate : (Str → Bool) → Config → Result (Unit {0}) ConfigError
validate is_regex config =
    bail_if (eqb config.server.listen_address.port 0) listen_port_zero
    >> bail_if (is_empty config.server.default_upstream) no_default_upstream
    >> validate_zones is_regex config.zones
    >> validate_prefix config.server.route_aggregation_prefix
    >> check_duplicates [] config.zones

-- A zone that can match something, all of whose patterns compile.
abbrev pub IsUsable : (Str → Bool) → ZoneConfig → Type 0
IsUsable is_regex zone =
    ((zone.mode ≡ exclusive)
      ⊎ (zone.domains ≢ [])
      ⊎ (zone.patterns ≢ [])
      ⊎ (zone.static_routes ≢ []))
    × ((p : Str) → In p zone.patterns → is_regex p ≡ true)

-- No name twice, and none of `seen`.
abbrev pub IsFresh : List Str → List ZoneConfig → Type 0
IsFresh seen [] = Unit
IsFresh seen (zone ∷ zones) = (¬ In zone.name seen) × IsFresh (zone.name ∷ seen) zones

abbrev pub IsConfig : (Str → Bool) → Config → Type 0
IsConfig is_regex config =
    (config.server.listen_address.port ≢ 0)
    × (config.server.default_upstream ≢ [])
    × ((z : ZoneConfig) → In z config.zones → IsUsable is_regex z)
    × ((n : ℕ) → config.server.route_aggregation_prefix ≡ some n → (8 ≤ n) × (n ≤ 32))
    × IsFresh [] config.zones

>>-ok : (m k : Result (Unit {0}) ConfigError) → ((m >> k) ≡ ok tt) ↔ ((m ≡ ok tt) × (k ≡ ok tt))
>>-ok (ok tt) k = (λ h. (refl, h), λ h. h.1)
>>-ok (err e) k = (λ h. ground arith, λ h. h.0)

is_empty_iff {ℓ} : {A : Type ℓ} (xs : List A) → (is_empty xs ≡ false) ↔ (xs ≢ [])
is_empty_iff [] = ground arith
is_empty_iff (x ∷ xs) = ground arith

prefix_iff :
    (o : Option ℕ) → (validate_prefix o ≡ ok tt) ↔ ((n : ℕ) → o ≡ some n → (8 ≤ n) × (n ≤ 32))
unfolding validate_prefix
prefix_iff none = (λ h n e. ground arith, λ h. refl)
prefix_iff (some n) = (λ h k e. ground arith, λ h. (let b = h n refl in ground arith))

is_exclusive_iff : (m : ZoneMode) → (is_exclusive m ≡ true) ↔ (m ≡ exclusive)
is_exclusive_iff inclusive = ground arith
is_exclusive_iff exclusive = ground arith

port_iff : (n : ℕ) → (eqb n 0 ≡ false) ↔ (n ≢ 0)
port_iff n = (λ h. ground arith, λ h. ground arith)

any_name_iff :
    (name : Str) (seen : List Str) → (any (λ n. n == name) seen ≡ false) ↔ (¬ In name seen)
any_name_iff name seen = (
  λ h m.
      (let t = any_of_In (λ n. n == name) name seen m (beq_refl name) in let c = sym h ∙ t in (cc)),
  λ h. elim (Bool-cases (any (λ n. n == name) seen)) [
    | inl t ↦
        let (n, m, e) = any-In (λ x. x == name) seen t in
        absurd (h (subst (λ (x : Str). In x seen) ((list_beq_iff n name).0 e) m))
    | inr f ↦ f
  ],
)

-- A property of every element of a list is one of the first and of every other.
each_iff {ℓ κ} :
    {A : Type ℓ} (P : A → Type κ) (x : A) (xs : List A)
    → ((y : A) → In y (x ∷ xs) → P y) ↔ (P x × ((y : A) → In y xs → P y))
each_iff {A = A} P x xs = (λ h. (h x (inl refl), λ y m. h y (inr m)), λ h y m. at y h m)
  where
    at : (y : A) → P x × ((z : A) → In z xs → P z) → In y (x ∷ xs) → P y
    at y h (inl same) = subst P (sym same) h.0
    at y h (inr m) = h.1 y m

vacuous_iff :
    (zone : ZoneConfig)
    → (is_vacuous zone ≡ false) ↔ (
        (zone.mode ≡ exclusive)
        ⊎ (zone.domains ≢ [])
        ⊎ (zone.patterns ≢ [])
        ⊎ (zone.static_routes ≢ []))
unfolding is_vacuous
vacuous_iff zone =
    let d = is_empty_iff zone.domains in
    let p = is_empty_iff zone.patterns in
    let r = is_empty_iff zone.static_routes in ground (arith, is_exclusive_iff zone.mode)

patterns_iff :
    (is_regex : Str → Bool) (name : Str) (ps : List Str)
    → (validate_patterns is_regex name ps ≡ ok tt) ↔ ((p : Str) → In p ps → is_regex p ≡ true)
unfolding validate_patterns
patterns_iff is_regex name [] = (λ h p m. elim m [ ], λ h. refl)
patterns_iff is_regex name (p ∷ ps) =
    let ih = patterns_iff is_regex name ps in
    let e = each_iff (λ q. is_regex q ≡ true) p ps in
    (
      λ h. e.1 (ground arith, ih.0 (ground arith)),
      λ h. (let (here, later) = e.0 h in let r = ih.1 later in ground arith),
    )

bail_iff : (b : Bool) (e : ConfigError) → (bail_if b e ≡ ok tt) ↔ (b ≡ false)
bail_iff true e = ground arith
bail_iff false e = ground arith

zones_iff :
    (is_regex : Str → Bool) (zones : List ZoneConfig)
    → (validate_zones is_regex zones ≡ ok tt)
      ↔ ((z : ZoneConfig) → In z zones → IsUsable is_regex z)
unfolding validate_zones
zones_iff is_regex [] = (λ h z m. elim m [ ], λ h. refl)
zones_iff is_regex (zone ∷ zones) =
    let ih = zones_iff is_regex zones in
    let e = each_iff (λ z. IsUsable is_regex z) zone zones in
    let ps = patterns_iff is_regex zone.name zone.patterns in
    let v = vacuous_iff zone in
    let b = bail_iff (is_vacuous zone) (empty_zone zone.name) in
    let check = bail_if (is_vacuous zone) (empty_zone zone.name) in
    let compile = validate_patterns is_regex zone.name zone.patterns in
    let all = >>-ok (check >> compile) (validate_zones is_regex zones) in
    let first = >>-ok check compile in
    (
      λ h.
          (let (f, rest) = all.0 h in
            let (c, p) = first.0 f in e.1 ((v.0 (b.0 c), ps.0 p), ih.0 rest)),
      λ h.
          (let (here, later) = e.0 h in
            all.1 (first.1 (b.1 (v.1 here.0), ps.1 here.1), ih.1 later)),
    )

duplicates_iff :
    (seen : List Str) (zones : List ZoneConfig)
    → (check_duplicates seen zones ≡ ok tt) ↔ IsFresh seen zones
unfolding check_duplicates
duplicates_iff seen [] = (λ h. tt, λ h. refl)
duplicates_iff seen (zone ∷ zones) =
    let ih = duplicates_iff (zone.name ∷ seen) zones in
    let t = any_name_iff zone.name seen in ground (arith, ih, t)

-- A configuration passes the validation exactly when it listens on a port that is not 0, has a
-- default upstream, every zone can match something and has patterns that compile, the aggregation
-- prefix, if there is one, is from 8 to 32, and no two zones have one name.
pub validate_iff :
    (is_regex : Str → Bool) (config : Config)
    → (validate is_regex config ≡ ok tt) ↔ IsConfig is_regex config
unfolding validate
validate_iff is_regex config =
    let port = bail_if (eqb config.server.listen_address.port 0) listen_port_zero in
    let upstream = bail_if (is_empty config.server.default_upstream) no_default_upstream in
    let zones = validate_zones is_regex config.zones in
    let prefix = validate_prefix config.server.route_aggregation_prefix in
    let names = check_duplicates [] config.zones in
    let s4 = >>-ok (((port >> upstream) >> zones) >> prefix) names in
    let s3 = >>-ok ((port >> upstream) >> zones) prefix in
    let s2 = >>-ok (port >> upstream) zones in
    let s1 = >>-ok port upstream in
    let a = bail_iff (eqb config.server.listen_address.port 0) listen_port_zero in
    let n = port_iff config.server.listen_address.port in
    let b = bail_iff (is_empty config.server.default_upstream) no_default_upstream in
    let u = is_empty_iff config.server.default_upstream in
    let z = zones_iff is_regex config.zones in
    let p = prefix_iff config.server.route_aggregation_prefix in
    let d = duplicates_iff [] config.zones in
    (
      λ h.
          (let (h3, e) = s4.0 h in
            let (h2, pf) = s3.0 h3 in
            let (h1, zs) = s2.0 h2 in
            let (h0, up) = s1.0 h1 in (n.0 (a.0 h0), u.0 (b.0 up), z.0 zs, p.0 pf, d.0 e)),
      λ (po, up, zs, pf, e).
          s4.1 (s3.1 (s2.1 (s1.1 (a.1 (n.1 po), b.1 (u.1 up)), z.1 zs), p.1 pf), d.1 e),
    )
