-- ===== src/Zones.antt =====
-- src/zones/matcher.rs: which zone a queried name belongs to, and which addresses a zone excludes.
-- The regex engine is a parameter, as is `str::to_lowercase`.
pub mod Domains
pub mod Excluded
pub mod Selection
use leshy.Prelude.{
  ℕ, suc, zero, ◌+◌, ◌-◌, Bool, true, false, not, ◌&&◌, ◌||◌, Option, none, some, List, [], ◌∷◌,
  map, eqb, ltb, leb, if◌then◌else◌, length, any, filter_map, nat_eq, list_eq, ◌==◌,
}
use Prim.Native.Nat.{bit_and}
use leshy.Prelude.Text.{Str, dot, after, trim_end_matches, split_once}
use leshy.Prelude.Results.{Result, ok, err, ◌>>=◌}
use leshy.Prelude.Word.{not32, bit32}
use leshy.Config.{ZoneConfig, is_exclusive, IpAddr, v4, v6}
use leshy.Net.{parse_u8, parse_v4}
use leshy.Routing.Prefix.{mask}

-- The crate `regex`, as far as the program calls it.
pub record RegexEngine : Type 1 where
  pub RegexSet : Type 0
  pub new_set : List Str → Option RegexSet
  pub is_match : RegexSet → Str → Bool
  pub is_regex : Str → Bool

pub record CidrRange : Type 0 where
  pub network : ℕ
  pub prefix_len : ℕ

unfoldable pub contains_v4 : CidrRange → ℕ → Bool
contains_v4 range ip =
    if eqb range.prefix_len 0 then true else eqb (bit_and ip (mask range.prefix_len)) range.network

pub record MatchedZone : Type 0 where
  pub config : ZoneConfig
  pub excluded_cidrs : List CidrRange

unfoldable pub is_excluded : MatchedZone → IpAddr → Bool
is_excluded zone (v4 ip) = any (λ range. contains_v4 range ip) zone.excluded_cidrs
is_excluded zone (v6 ip) = false

-- the end of `parse_cidr_range`, from the address on
unfoldable pub cidr_range : Str → ℕ → Option CidrRange
cidr_range ip_str prefix_len = elim (parse_v4 ip_str) [
  | none ↦ none
  | some ip ↦
      let cut = if eqb prefix_len 0 then 0 else mask prefix_len in
      some (record { network = bit_and ip cut; prefix_len = prefix_len })
]

-- `Err` as `none`: the messages are only logged.
unfoldable pub parse_cidr_range : Str → Option CidrRange
parse_cidr_range cidr = elim (split_once b'/' cidr) [
  | none ↦ cidr_range cidr 32
  | some (ip, prefix) ↦ elim (parse_u8 prefix) [
    | none ↦ none
    | some prefix_len ↦ if ltb 32 prefix_len then none else cidr_range ip prefix_len
  ]
]

-- The walk over the suffixes of a name; `fuel` bounds their number.
unfoldable pub domain_match : ℕ → List Str → Str → Bool
domain_match zero domain_set remaining = false
domain_match (suc fuel) domain_set remaining =
    any (λ d. d == remaining) domain_set || elim (after dot remaining) [
      | none ↦ false
      | some shorter ↦ domain_match fuel domain_set shorter
    ]

pub record InclusiveZone (S : Type 0) : Type 0 where
  pub config : ZoneConfig
  pub domain_set : List Str
  pub pattern_set : S

pub record ExclusiveZone (S : Type 0) : Type 0 where
  pub config : ZoneConfig
  pub excluded_domains : List Str
  pub excluded_patterns : S
  pub excluded_cidrs : List CidrRange

pub data Zone (S : Type 0) : Type 0 where
  inclusive : InclusiveZone S → Zone S
  exclusive : ExclusiveZone S → Zone S

-- The regex engine and `to_lowercase` are parameters; the error of `ZoneMatcher::new` is the name
-- of the zone whose patterns do not compile.
module _ (to_lowercase : Str → Str) (regex : RegexEngine) where
  open regex use {RegexSet, new_set, is_match}

  -- The shortest suffix has no dot: as many rounds as the name has characters, and one.
  unfoldable pub matches_entries : List Str → RegexSet → Str → Bool
  matches_entries domain_set pattern_set qname =
      let lower = to_lowercase qname in
      domain_match (suc (length lower)) domain_set lower || is_match pattern_set qname

  unfoldable pub zone_of : ZoneConfig → RegexSet → Zone RegexSet
  zone_of zone_cfg pattern_set =
      let domain_set = map to_lowercase zone_cfg.domains in
      if is_exclusive zone_cfg.mode
      then exclusive (record {
        config = zone_cfg;
        excluded_domains = domain_set;
        excluded_patterns = pattern_set;
        excluded_cidrs = filter_map parse_cidr_range zone_cfg.static_routes;
      })
      else inclusive
          (record { config = zone_cfg; domain_set = domain_set; pattern_set = pattern_set })

  -- `ZoneMatcher::new`; a matcher is its list of zones
  unfoldable pub new : List ZoneConfig → Result (List (Zone RegexSet)) Str
  new [] = ok []
  new (zone_cfg ∷ zones) = elim (new_set zone_cfg.patterns) [
    | none ↦ err zone_cfg.name
    | some pattern_set ↦ do built ← new zones; ok (zone_of zone_cfg pattern_set ∷ built)
  ]

  -- one round of the loop of `find_zone`
  unfoldable pub match_zone : Str → Zone RegexSet → Option MatchedZone
  match_zone qname (inclusive z) =
      if matches_entries z.domain_set z.pattern_set qname
      then some (record { config = z.config; excluded_cidrs = [] })
      else none
  match_zone qname (exclusive z) =
      if not (matches_entries z.excluded_domains z.excluded_patterns qname)
      then some (record { config = z.config; excluded_cidrs = z.excluded_cidrs })
      else none

  unfoldable pub first_match : Str → List (Zone RegexSet) → Option MatchedZone
  first_match qname [] = none
  first_match qname (z ∷ zones) = elim (match_zone qname z) [
    | some m ↦ some m
    | none ↦ first_match qname zones
  ]

  unfoldable pub find_zone : List (Zone RegexSet) → Str → Option MatchedZone
  find_zone zones qname = first_match (trim_end_matches dot qname) zones
