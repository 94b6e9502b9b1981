-- ===== src/Config/Load/Merge.antt =====
-- What the loaded configuration consists of.
use mathlib.Core.Path.{subst}
use mathlib.Core.List.{Perm, append_assoc, append-nil}
use leshy.Prelude.{
  ◌≡◌, ◌≢◌, refl, sym, ◌∙◌, ap, ◌⊎◌, inl, inr, Bool, true, false, ◌&&◌, Option, List, [], ◌∷◌, ◌++◌,
  arith, filter, filter_map, Bool-cases,
}
use leshy.Prelude.Results.{Result, ok, err, Result-cases}
use leshy.Prelude.Text.{Str}
use leshy.Prelude.Sorting.{IsOrdered, sort_by_key-perm, sort_by_key-IsOrdered}
use leshy.Config.{Config, ZoneConfig}
use leshy.Config.Validate.{IsConfig, validate, validate_iff}
use leshy.Files.{FilePath, FileSystem, entry_path}
use leshy.Config.Load.{
  Toml, LoadError, io, is_toml, config_dir, validated, from_file, load_zones_from_file, zone_files,
  include_files, from_file_with_includes,
}

validated-ok :
    (is_regex : Str → Bool) (config c : Config)
    → validated is_regex config ≡ ok c
    → (c ≡ config) × IsConfig is_regex c
unfolding validated
validated-ok is_regex config c e = elim (Result-cases (validate is_regex config)) [
  | inl (done, v) ↦
      let same : c ≡ config = ground arith in
      (same, subst (IsConfig is_regex) (sym same) ((validate_iff is_regex config).0 v))
  | inr (x, v) ↦ absurd (ground arith)
]

validated-valid :
    (is_regex : Str → Bool) (config : Config)
    → IsConfig is_regex config
    → validated is_regex config ≡ ok config
unfolding validated
validated-valid is_regex config valid = rw ((validate_iff is_regex config).1 valid, validated) refl

clash : {c : Config} {x : LoadError} → ◌≢◌ {A = Result Config LoadError} (err x) (ok c)
clash e = ground arith

abbrev pub or_none : Result (List ZoneConfig) LoadError → List ZoneConfig
or_none (ok zones) = zones
or_none (err e) = []

module _ (fs : FileSystem) (toml : Toml) (is_regex : Str → Bool) where
  -- The zones of a file; none if it cannot be loaded.
  abbrev pub zones_in : FilePath → List ZoneConfig
  zones_in path = elim (load_zones_from_file fs toml is_regex path) [
    | ok zones ↦ zones
    | err e ↦ []
  ]

  -- The zones of the files of a directory, one file after the other.
  abbrev pub zones_of : FilePath → List Str → List ZoneConfig
  zones_of dir [] = []
  zones_of dir (name ∷ names) = zones_in (entry_path dir name) ++ zones_of dir names

  include_files-append :
      (dir : FilePath) (names : List Str) (zones : List ZoneConfig)
      → include_files fs toml is_regex dir names zones ≡ zones ++ zones_of dir names
  unfolding include_files
  include_files-append dir [] zones = sym (append-nil zones)
  include_files-append dir (name ∷ names) zones =
      elim (Result-cases (load_zones_from_file fs toml is_regex (entry_path dir name))) [
        | inl (more, e) ↦
            rw (e, include_files)
              (include_files-append dir names (zones ++ more)
                ∙ append_assoc zones more (zones_of dir names)
                ∙ ap (λ (m : List ZoneConfig). zones ++ (m ++ zones_of dir names))
                    (sym (ap or_none e)))
        | inr (x, e) ↦
            rw (e, include_files)
              (include_files-append dir names zones
                ∙ ap (λ (m : List ZoneConfig). zones ++ (m ++ zones_of dir names))
                    (sym (ap or_none e)))
      ]

  -- The files of the directory that hold zones, in the order of their names.
  abbrev pub IsListing : FilePath → List Str → Type 0
  IsListing dir names =
      ((fs.exists dir && fs.is_dir dir ≡ true)
        × (entries : List (Option Str)) × (fs.read_dir dir ≡ ok entries)
        × IsOrdered (λ name. name) names
        × Perm names (filter is_toml (filter_map (λ e. e) entries)))
      ⊎ ((fs.exists dir && fs.is_dir dir ≡ false) × (names ≡ []))

  -- The configuration of the main file with the zones of further files behind its own.
  abbrev pub merged : Config → FilePath → List Str → Config
  merged main dir names = record main { zones = main.zones ++ zones_of dir names }

  listed :
      (entries : List (Option Str))
      → IsOrdered (λ name. name) (zone_files fs toml is_regex entries)
        × Perm (zone_files fs toml is_regex entries) (filter is_toml (filter_map (λ e. e) entries))
  unfolding zone_files
  listed entries =
      let names = filter is_toml (filter_map (λ (o : Option Str). o) entries) in
      (sort_by_key-IsOrdered (λ (n : Str). n) names, sort_by_key-perm (λ (n : Str). n) names)

  failed :
      (path : FilePath) (x : LoadError)
      → from_file fs toml is_regex path ≡ err x
      → from_file_with_includes fs toml is_regex path ≡ err x
  unfolding from_file_with_includes
  failed path x f = rw (f, from_file_with_includes) refl

  module _ (path : FilePath) (main : Config)
      (loaded : from_file fs toml is_regex path ≡ ok main) where
    with_directory :
        (entries : List (Option Str))
        → fs.exists (config_dir main path) && fs.is_dir (config_dir main path) ≡ true
        → fs.read_dir (config_dir main path) ≡ ok entries
        → from_file_with_includes fs toml is_regex path
          ≡ validated is_regex
              (merged main (config_dir main path) (zone_files fs toml is_regex entries))
    unfolding from_file_with_includes
    with_directory entries there r =
        rw (loaded, from_file_with_includes)
          (rw there (
            rw r (
              ap (λ (zones : List ZoneConfig). validated is_regex (record main { zones = zones }))
                (include_files-append (config_dir main path) (zone_files fs toml is_regex entries)
                  main.zones))))

    unreadable_directory :
        (x : Str)
        → fs.exists (config_dir main path) && fs.is_dir (config_dir main path) ≡ true
        → fs.read_dir (config_dir main path) ≡ err x
        → from_file_with_includes fs toml is_regex path ≡ err (io x)
    unfolding from_file_with_includes
    unreadable_directory x there r = rw (loaded, from_file_with_includes) (rw there (rw r refl))

    without_directory :
        fs.exists (config_dir main path) && fs.is_dir (config_dir main path) ≡ false
        → from_file_with_includes fs toml is_regex path ≡ validated is_regex main
    unfolding from_file_with_includes
    without_directory gone = rw (loaded, from_file_with_includes) (rw gone refl)

  -- A configuration that loads is that of the main file, which is valid by itself, followed by the
  -- zones of the files of the directory with the extension `toml`, in the order of their names,
  -- where a file that cannot be loaded counts for nothing; and it is valid as a whole. Without a
  -- directory it is that of the main file.
  pub from_file_with_includes-merges :
      (path : FilePath) (c : Config)
      → from_file_with_includes fs toml is_regex path ≡ ok c
      → (main : Config) × (names : List Str) × (from_file fs toml is_regex path ≡ ok main)
        × IsListing (config_dir main path) names
        × (c ≡ merged main (config_dir main path) names)
        × IsConfig is_regex c
  from_file_with_includes-merges path c e = elim (Result-cases (from_file fs toml is_regex path)) [
    | inr (x, f) ↦ absurd (clash (sym (failed path x f) ∙ e))
    | inl (main, f) ↦
        let dir = config_dir main path in
        elim (Bool-cases (fs.exists dir && fs.is_dir dir)) [
          | inl there ↦ elim (Result-cases (fs.read_dir dir)) [
            | inr (x, r) ↦ absurd (clash (sym (unreadable_directory path main f x there r) ∙ e))
            | inl (entries, r) ↦
                let names = zone_files fs toml is_regex entries in
                let (same, valid) =
                  validated-ok is_regex (merged main dir names) c
                    (sym (with_directory path main f entries there r) ∙ e) in
                (
                  main,
                  names,
                  f,
                  inl (there, entries, r, (listed entries).0, (listed entries).1),
                  same,
                  valid,
                )
          ]
          | inr gone ↦
              let (same, valid) =
                validated-ok is_regex main c (sym (without_directory path main f gone) ∙ e) in
              (
                main,
                [],
                f,
                inr (gone, refl),
                same
                    ∙ ap (λ (zones : List ZoneConfig). record main { zones = zones })
                        (sym (append-nil main.zones)),
                valid,
              )
        ]
  ]

  -- A broken file of zones stops nothing: if the main file loads, the directory can be listed, and
  -- what comes of merging the files that do load is valid, that is the configuration.
  pub from_file_with_includes-loads :
      (path : FilePath) (main : Config) (entries : List (Option Str))
      → from_file fs toml is_regex path ≡ ok main
      → fs.exists (config_dir main path) && fs.is_dir (config_dir main path) ≡ true
      → fs.read_dir (config_dir main path) ≡ ok entries
      → IsConfig is_regex (merged main (config_dir main path) (zone_files fs toml is_regex entries))
      → from_file_with_includes fs toml is_regex path
        ≡ ok (merged main (config_dir main path) (zone_files fs toml is_regex entries))
  from_file_with_includes-loads path main entries f there r valid =
      with_directory path main f entries there r
      ∙ validated-valid is_regex
          (merged main (config_dir main path) (zone_files fs toml is_regex entries)) valid
