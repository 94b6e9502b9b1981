-- ===== src/Tests/Names.antt =====
-- Zones, the configuration and the reload at concrete inputs.
use leshy.Prelude.{
  ◌≡◌, ◌↔◌, refl, none, List, [], ◌∷◌, nat_eq, list_eq, true, false, In, inl, filter_map,
}
use leshy.Prelude.Results.{ok}
use leshy.Prelude.Text.{Str, codes, dot, trim_end_matches}
use leshy.Config.{ZoneConfig, inclusive, exclusive, v4}
use leshy.Config.Validate.{validate, IsConfig, validate_iff}
use leshy.Zones
use leshy.Zones.{
  MatchedZone, RegexEngine, CidrRange, parse_cidr_range, is_excluded, domain_match, find_zone,
}
use leshy.Zones.Domains.{IsUnder, domain_match_iff}
use leshy.Zones.Excluded.{InRange, is_excluded_iff}
use leshy.Zones.Selection.{Selects, find_zone-Selects}
use leshy.Dns.Handler.{DnsHandler}
use leshy.Routing.Manager.{get_zone_route_count}
use leshy.Routing.Aggregator.Replay.{Kernel}
use leshy.Reload.{
  collect, get_zones_to_cleanup, get_new_zones, apply_config, zones-changed, apply_config-rejected,
}
use leshy.Tests.Fixtures.{
  plain, lower, zone, config, work, home, entries, table_adder, files, no_v6, manager,
}
use leshy.Tests.Answers.{hickory, handler}

abbrev work_zone : ZoneConfig
work_zone = zone work inclusive (codes "a.b" ∷ []) []

-- everything but b and its subdomains, and nothing in 10.0.0.0/8
abbrev home_zone : ZoneConfig
home_zone = zone home exclusive (codes "b" ∷ []) (codes "10.0.0.0/8" ∷ [])

abbrev zones : List ZoneConfig
zones = work_zone ∷ home_zone ∷ []

abbrev built : List (Zones.Zone (List Str))
built = Zones.zone_of lower plain work_zone [] ∷ Zones.zone_of lower plain home_zone [] ∷ []

find_zone-Selects_example :
    Selects lower plain zones
      (trim_end_matches dot (codes "x.a.b."))
      (find_zone lower plain built (codes "x.a.b."))
unfolding Zones.new
find_zone-Selects_example = find_zone-Selects lower plain zones built (codes "x.a.b.") refl

domain_match_iff_example :
    (domain_match 6 (codes "a.b" ∷ []) (codes "x.a.b") ≡ true)
    ↔ ((d : Str) × In d (codes "a.b" ∷ []) × IsUnder d (codes "x.a.b"))
domain_match_iff_example = domain_match_iff (codes "a.b" ∷ []) (codes "x.a.b")

abbrev matched : MatchedZone
matched = record {
  config = home_zone;
  excluded_cidrs = filter_map parse_cidr_range home_zone.static_routes;
}

is_excluded_iff_example :
    (is_excluded matched (v4 167772161) ≡ true)
    ↔ ((cidr : Str) × In cidr home_zone.static_routes × InRange cidr 167772161)
is_excluded_iff_example = is_excluded_iff matched home_zone.static_routes 167772161 refl

validate_iff_example :
    (validate plain.is_regex (config zones) ≡ ok tt) ↔ IsConfig plain.is_regex (config zones)
validate_iff_example = validate_iff plain.is_regex (config zones)

zones-changed_example :
    (In work (get_zones_to_cleanup zones (home_zone ∷ []))
      ↔ (In work (work ∷ home ∷ []) × (¬ In work (home ∷ []))))
    × (In home_zone (get_new_zones zones (home_zone ∷ []))
        ↔ (In home_zone (home_zone ∷ []) × (¬ In home (work ∷ home ∷ []))))
zones-changed_example = zones-changed zones (home_zone ∷ []) work home_zone

-- An engine that compiles no set.
abbrev broken : RegexEngine
broken = record {
  RegexSet = List Str;
  new_set = λ patterns. none;
  is_match = λ set s. false;
  is_regex = λ p. true;
}

abbrev serving : DnsHandler lower broken hickory Kernel
serving = record {
  config = config zones;
  matcher = [];
  route_manager = manager;
  cache = handler.cache;
}

apply_config-rejected_example :
    let self' =
      (apply_config lower broken hickory table_adder entries no_v6 files serving
        (config (home_zone ∷ []))).0 in
    (self'.config ≡ serving.config)
    × (self'.matcher ≡ serving.matcher)
    × (get_zone_route_count self'.route_manager work ≡ 0)
unfolding Zones.new get_zones_to_cleanup collect
apply_config-rejected_example =
    apply_config-rejected lower broken hickory table_adder entries no_v6 files serving
      (config (home_zone ∷ [])) work home refl (inl refl)
