-- ===== src/Reload/Watch.antt =====
-- src/reload.rs: `ConfigWatcher`, which watches the configuration's file and directory and sends
-- what it loads after a change. The crate `notify` is a parameter: whether it takes a path, and the
-- events that come, each with the file system at that moment.
pub mod Changes
use leshy.Prelude.{
  ℕ, Bool, true, false, ◌&&◌, Option, none, some, List, [], ◌∷◌, if◌then◌else◌, filter_map,
}
use leshy.Prelude.Results.{Result, ok, err}
use leshy.Prelude.Text.{Str}
use leshy.Config.{Config}
use leshy.Config.Load.{Toml, LoadError, config_d, from_file_with_includes}
use leshy.Files
use leshy.Files.{FilePath, FileSystem, parent, join}

pub record ConfigWatcher : Type 0 where
  pub config_path : FilePath
  pub config_dir : Option FilePath

-- as src/main.rs makes it
unfoldable pub watcher : FilePath → Config → ConfigWatcher
watcher config_path config = record {
  config_path = config_path;
  config_dir = elim config.server.config_dir [ none ↦ none | some dir ↦ some (Files.from dir) ];
}

unfoldable pub dir_candidates : ConfigWatcher → List FilePath
dir_candidates self =
    let beside : Option FilePath = elim (parent self.config_path) [
      | none ↦ none
      | some p ↦ some (join p (Files.from config_d))
    ] in
    filter_map (λ o. o) (self.config_dir ∷ beside ∷ [])

-- the directory of the first candidate that is one
unfoldable pub dir_to_watch : FileSystem → List FilePath → Option FilePath
dir_to_watch fs [] = none
dir_to_watch fs (dir ∷ dirs) =
    if fs.exists dir && fs.is_dir dir then some dir else dir_to_watch fs dirs

-- The paths that are watched; none if the file cannot be.
unfoldable pub watched : (FilePath → Bool) → FileSystem → ConfigWatcher → List FilePath
watched takes fs self =
    if takes self.config_path
    then self.config_path ∷ elim (dir_to_watch fs (dir_candidates self)) [
      | none ↦ []
      | some dir ↦ if takes dir then dir ∷ [] else []
    ]
    else []

pub data EventKind : Type 0 where
  modify : EventKind
  create : EventKind
  removal : EventKind
  access : EventKind
  other : EventKind

-- What `notify` reports, the file system then, and whether the channel still has its receiver.
pub record Notice : Type 0 where
  pub event : Result EventKind Str
  pub fs : FileSystem
  pub receiver : Bool

unfoldable pub is_change : EventKind → Bool
is_change modify = true
is_change create = true
is_change removal = true
is_change access = false
is_change other = false

module _ (toml : Toml) (is_regex : Str → Bool) where
  -- The configurations that are sent, in order, until the receiver is gone.
  unfoldable pub watch : ConfigWatcher → List Notice → List Config
  watch self [] = []
  watch self (n ∷ notices) =
      let rest = watch self notices in
      elim n.event [
        | err e ↦ rest
        | ok kind ↦
            if is_change kind
            then elim (from_file_with_includes n.fs toml is_regex self.config_path) [
              | err e ↦ rest
              | ok new_config ↦ if n.receiver then new_config ∷ rest else []
            ]
            else rest
      ]
