-- ===== src/Config/Load.antt =====
-- src/config.rs: reading the configuration from its file and from the directory of zones.
-- The file system and the parser of TOML are parameters.
pub mod Merge
use leshy.Prelude.{
  ℕ, Bool, true, false, ◌&&◌, Option, none, some, List, [], ◌∷◌, ◌++◌, if◌then◌else◌, filter,
  filter_map, list_eq, nat_eq, ◌==◌,
}
use leshy.Prelude.Results.{Result, ok, err, ◌>>=◌}
use leshy.Prelude.Text.{Str}
use leshy.Prelude.Sorting.{sort_by_key}
use leshy.Config.{Config, ZoneConfig}
use leshy.Config.Validate.{ConfigError, validate}
use leshy.Files
use leshy.Files.{FilePath, FileSystem, parent, join, entry_path, extension}

-- `toml::from_str` into the two types that the program reads
pub record Toml : Type 0 where
  pub config : Str → Option Config
  pub zones_only : Str → Option (List ZoneConfig)

pub data LoadError : Type 0 where
  io : Str → LoadError
  unparsable : LoadError
  invalid : ConfigError → LoadError
  no_zones : LoadError

abbrev pub toml_extension : Str
toml_extension = b't' ∷ b'o' ∷ b'm' ∷ b'l' ∷ []

-- "config.d"
abbrev pub config_d : Str
config_d = b'c' ∷ b'o' ∷ b'n' ∷ b'f' ∷ b'i' ∷ b'g' ∷ b'.' ∷ b'd' ∷ []

-- the filter on the entries of the directory
unfoldable pub is_toml : Str → Bool
is_toml name = elim (extension name) [ none ↦ false | some e ↦ e == toml_extension ]

unfoldable pub config_dir : Config → FilePath → FilePath
config_dir config path = elim config.server.config_dir [
  | some dir ↦ Files.from dir
  | none ↦ elim (parent path) [ some p ↦ join p (Files.from config_d) | none ↦ Files.from config_d ]
]

-- `config.validate()?; Ok(config)`
unfoldable pub validated : (Str → Bool) → Config → Result Config LoadError
validated is_regex config = elim (validate is_regex config) [
  | err e ↦ err (invalid e)
  | ok done ↦ ok config
]

module _ (fs : FileSystem) (toml : Toml) (is_regex : Str → Bool) where
  unfoldable pub from_file : FilePath → Result Config LoadError
  from_file path = elim (fs.read_to_string path) [
    | err e ↦ err (io e)
    | ok content ↦ elim (toml.config content) [
      | none ↦ err unparsable
      | some config ↦ validated is_regex config
    ]
  ]

  unfoldable pub load_zones_from_file : FilePath → Result (List ZoneConfig) LoadError
  load_zones_from_file path = elim (fs.read_to_string path) [
    | err e ↦ err (io e)
    | ok content ↦ elim (toml.config content) [
      | some config ↦ ok config.zones
      | none ↦ elim (toml.zones_only content) [ some zones ↦ ok zones | none ↦ err no_zones ]
    ]
  ]

  -- the entries with the extension, by their names
  unfoldable pub zone_files : List (Option Str) → List Str
  zone_files entries = sort_by_key (λ name. name) (filter is_toml (filter_map (λ e. e) entries))

  -- the loop over the entries, which skips a file that cannot be loaded
  unfoldable pub include_files : FilePath → List Str → List ZoneConfig → List ZoneConfig
  include_files dir [] zones = zones
  include_files dir (name ∷ names) zones = elim (load_zones_from_file (entry_path dir name)) [
    | ok more ↦ include_files dir names (zones ++ more)
    | err e ↦ include_files dir names zones
  ]

  unfoldable pub from_file_with_includes : FilePath → Result Config LoadError
  from_file_with_includes path = elim (from_file path) [
    | err e ↦ err e
    | ok config ↦
        let dir = config_dir config path in
        if fs.exists dir && fs.is_dir dir
        then elim (fs.read_dir dir) [
          | err e ↦ err (io e)
          | ok entries ↦
              validated is_regex
                (record config { zones = include_files dir (zone_files entries) config.zones })
        ]
        else validated is_regex config
  ]
