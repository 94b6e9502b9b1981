-- ===== src/Tests/Loading.antt =====
-- A configuration that is loaded from a file and a directory, and a watcher of both.
use leshy.Prelude.{
  ◌≡◌, refl, none, some, List, [], ◌∷◌, Option, Bool, true, if◌then◌else◌, ◌==◌, nat_eq, list_eq,
}
use leshy.Prelude.Results.{ok, err}
use leshy.Prelude.Text.{Str, codes}
use leshy.Prelude.Sorting
use leshy.Config.{Config, ZoneConfig, inclusive}
use leshy.Config.Validate
use leshy.Config.Validate.{IsConfig, validate_iff}
use leshy.Config.Load.{
  Toml, is_toml, config_dir, validated, from_file, load_zones_from_file, zone_files, include_files,
  from_file_with_includes,
}
use leshy.Config.Load.Merge.{
  IsListing, merged, from_file_with_includes-merges, from_file_with_includes-loads,
}
use leshy.Files
use leshy.Files.{FilePath, FileSystem}
use leshy.Tests.Fixtures.{zone, config, work, home}

abbrev pub work_zone : ZoneConfig
work_zone = zone work inclusive (codes "a.b" ∷ []) []

abbrev pub home_zone : ZoneConfig
home_zone = zone home inclusive (codes "c" ∷ []) []

-- The main file has the one zone; of the files of the directory, a.toml has the other, and b.toml
-- cannot be read.
abbrev pub toml : Toml
toml = record {
  config = λ s. if s == codes "main" then some (config (work_zone ∷ [])) else none;
  zones_only = λ s. if s == codes "zones" then some (home_zone ∷ []) else none;
}

abbrev pub path : FilePath
path = record { absolute = true; components = codes "l.toml" ∷ [] }

abbrev entries : List (Option Str)
entries = some (codes "b.toml") ∷ none ∷ some (codes "x") ∷ some (codes "a.toml") ∷ []

abbrev pub fs : FileSystem
fs = record {
  read_to_string = λ p.
      if p.components == codes "l.toml" ∷ []
      then ok (codes "main")
      else if p.components == codes "config.d" ∷ codes "a.toml" ∷ []
      then ok (codes "zones")
      else err [];
  exists = λ p. p.components == codes "config.d" ∷ [];
  is_dir = λ p. true;
  read_dir = λ p. ok entries;
}

abbrev pub any_regex : Str → Bool
any_regex s = true

abbrev pub both : Config
both = config (work_zone ∷ home_zone ∷ [])

pub loads_both : from_file_with_includes fs toml any_regex path ≡ ok both
unfolding from_file_with_includes from_file validated Validate.validate config_dir
    load_zones_from_file zone_files include_files is_toml Validate.validate_zones
    Validate.is_vacuous Validate.validate_patterns Validate.validate_prefix
    Validate.check_duplicates Files.parent Files.join Files.from Files.drop_last Files.split_slash
    Files.normal Sorting.sort_by_key Files.extension Files.after_last_dot Sorting.insert_by_key
    Sorting.str_leb Files.entry_path
loads_both = refl

from_file_with_includes-merges_example :
    (main : Config) × (names : List Str) × (from_file fs toml any_regex path ≡ ok main)
    × IsListing fs toml any_regex (config_dir main path) names
    × (both ≡ merged fs toml any_regex main (config_dir main path) names)
    × IsConfig any_regex both
from_file_with_includes-merges_example =
    from_file_with_includes-merges fs toml any_regex path both loads_both

abbrev main : Config
main = config (work_zone ∷ [])

from_file_with_includes-loads_example :
    from_file_with_includes fs toml any_regex path
    ≡ ok (
        merged fs toml any_regex main (config_dir main path) (zone_files fs toml any_regex entries))
unfolding from_file_with_includes from_file validated Validate.validate config_dir
    load_zones_from_file zone_files include_files is_toml Validate.validate_zones
    Validate.is_vacuous Validate.validate_patterns Validate.validate_prefix
    Validate.check_duplicates Files.parent Files.join Files.from Files.drop_last Files.split_slash
    Files.normal Sorting.sort_by_key Files.extension Files.after_last_dot Sorting.insert_by_key
    Sorting.str_leb Files.entry_path
from_file_with_includes-loads_example =
    from_file_with_includes-loads fs toml any_regex path main entries refl refl refl (
      (validate_iff any_regex (
          merged fs toml any_regex main (config_dir main path)
            (zone_files fs toml any_regex entries))).0
        refl)
