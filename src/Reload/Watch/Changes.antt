-- ===== src/Reload/Watch/Changes.antt =====
-- What the watcher watches, and what it sends.
use leshy.Prelude.{
  ◌≡◌, refl, sym, ◌∙◌, ap, ◌⊎◌, inl, inr, Bool, true, ◌&&◌, none, some, List, [], ◌∷◌, ◌++◌, arith,
  Bool-cases, Option-cases, In,
}
use leshy.Prelude.Results.{ok, Result-cases}
use leshy.Prelude.Text.{Str}
use leshy.Config.{Config}
use leshy.Config.Load.{Toml, config_d, config_dir, from_file_with_includes}
use leshy.Files
use leshy.Files.{FilePath, FileSystem, parent, join}
use leshy.Reload.Watch.{
  ConfigWatcher, watcher, dir_candidates, dir_to_watch, Notice, EventKind, is_change, watch,
}

first_dir :
    (fs : FileSystem) (dir : FilePath) (dirs : List FilePath)
    → fs.exists dir && fs.is_dir dir ≡ true
    → dir_to_watch fs (dir ∷ dirs) ≡ some dir
unfolding dir_to_watch
first_dir fs dir dirs there = rw (there, dir_to_watch) refl

module _ (fs : FileSystem) (path p : FilePath) (config : Config)
    (beside : parent path ≡ some p) where
  explicit_dir :
      (dir : Str)
      → config.server.config_dir ≡ some dir
      → (config_dir config path ≡ Files.from dir)
        × (dir_candidates (watcher path config)
            ≡ Files.from dir ∷ join p (Files.from config_d) ∷ [])
  unfolding config_dir dir_candidates watcher
  explicit_dir dir e = (rw (config_dir, e) refl, rw (dir_candidates, watcher, e, beside) refl)

  own_dir :
      config.server.config_dir ≡ none
      → (config_dir config path ≡ join p (Files.from config_d))
        × (dir_candidates (watcher path config) ≡ join p (Files.from config_d) ∷ [])
  unfolding config_dir dir_candidates watcher
  own_dir e = (rw (config_dir, e, beside) refl, rw (dir_candidates, watcher, e, beside) refl)

  -- If the configuration's path has a parent and the directory that a load of the configuration
  -- reads is there, it is the one that the watcher takes.
  pub dir_to_watch-config_dir :
      fs.exists (config_dir config path) && fs.is_dir (config_dir config path) ≡ true
      → dir_to_watch fs (dir_candidates (watcher path config)) ≡ some (config_dir config path)
  dir_to_watch-config_dir there = elim (Option-cases config.server.config_dir) [
    | inl e ↦
        let (dir, candidates) = own_dir e in
        ap (dir_to_watch fs) (candidates ∙ ap (λ (d : FilePath). d ∷ []) (sym dir))
        ∙ first_dir fs (config_dir config path) [] there
    | inr (d, e) ↦
        let (dir, candidates) = explicit_dir d e in
        let others = join p (Files.from config_d) ∷ [] in
        ap (dir_to_watch fs) (candidates ∙ ap (λ (d : FilePath). d ∷ others) (sym dir))
        ∙ first_dir fs (config_dir config path) others there
  ]

-- The notice is of a change after which the configuration can be loaded.
abbrev pub Loads : Toml → (Str → Bool) → FilePath → Notice → Config → Type 0
Loads toml is_regex path n c =
    (kind : EventKind) × (n.event ≡ ok kind)
    × (is_change kind ≡ true)
    × (from_file_with_includes n.fs toml is_regex path ≡ ok c)

module _ (toml : Toml) (is_regex : Str → Bool) (self : ConfigWatcher) where
  abbrev sent : List Notice → List Config
  sent notices = watch toml is_regex self notices

  -- One notice: with a receiver it sends what it loads, if it loads anything.
  sent-step :
      (n : Notice) (notices : List Notice)
      → n.receiver ≡ true
      → ((c : Config) × Loads toml is_regex self.config_path n c
          × (sent (n ∷ notices) ≡ c ∷ sent notices))
        ⊎ (((c : Config) → ¬ Loads toml is_regex self.config_path n c)
            × (sent (n ∷ notices) ≡ sent notices))
  unfolding watch
  sent-step n notices receives = elim (Result-cases n.event) [
    | inr (x, e) ↦ inr (λ c (kind, ev, change, l). absurd (ground arith), rw (watch, e) refl)
    | inl (kind, e) ↦ elim (Bool-cases (is_change kind)) [
      | inr no_change ↦
          inr (λ c (k, ev, change, l). absurd (ground arith), rw (watch, e, no_change) refl)
      | inl change ↦
          elim (Result-cases (from_file_with_includes n.fs toml is_regex self.config_path)) [
            | inr (x, l) ↦
                inr (λ c (k, ev, ch, loads). absurd (ground arith), rw (watch, e, change, l) refl)
            | inl (c, l) ↦ inl (c, (kind, e, change, l), rw (watch, e, change, l, receives) refl)
          ]
    ]
  ]

  quiet :
      (notices : List Notice)
      → ((n : Notice) → In n notices → n.receiver ≡ true)
      → ((n : Notice) (c : Config) → In n notices → ¬ Loads toml is_regex self.config_path n c)
      → sent notices ≡ []
  unfolding watch
  quiet [] receives none_load = refl
  quiet (n ∷ notices) receives none_load = elim (sent-step n notices (receives n (inl refl))) [
    | inl (c, loads, e) ↦ absurd (none_load n c (inl refl) loads)
    | inr (nothing, e) ↦
        e ∙ quiet notices (λ m at. receives m (inr at)) (λ m c at. none_load m c (inr at))
  ]

  -- While the channel has its receiver, the last configuration that is sent is the one that was
  -- loaded after the last change that left a file that loads; an error of `notify`, another event
  -- and a file that does not load neither end the watching nor replace it.
  pub watch-last :
      (before : List Notice) (n : Notice) (c : Config) (later : List Notice)
      → ((m : Notice) → In m (before ++ n ∷ later) → m.receiver ≡ true)
      → Loads toml is_regex self.config_path n c
      → ((m : Notice) (d : Config) → In m later → ¬ Loads toml is_regex self.config_path m d)
      → (earlier : List Config) × (watch toml is_regex self (before ++ n ∷ later)
          ≡ earlier ++ c ∷ [])
  unfolding watch
  watch-last [] n c later receives (kind, ev, change, l) none_load =
      let rest = quiet later (λ m at. receives m (inr at)) none_load in
      elim (sent-step n later (receives n (inl refl))) [
        | inr (nothing, e) ↦ absurd (nothing c (kind, ev, change, l))
        | inl (d, (kind', ev', change', l'), e) ↦
            let same : d ≡ c = ground arith in
            (
              [],
              e ∙ ap (λ (x : Config). x ∷ sent later) same ∙ ap (λ (cs : List Config). c ∷ cs) rest,
            )
      ]
  watch-last (b ∷ before) n c later receives loads none_load =
      let (earlier, is) =
        watch-last before n c later (λ m at. receives m (inr at)) loads none_load in
      elim (sent-step b (before ++ n ∷ later) (receives b (inl refl))) [
        | inl (d, loads', e) ↦ (d ∷ earlier, e ∙ ap (λ (cs : List Config). d ∷ cs) is)
        | inr (nothing, e) ↦ (earlier, e ∙ is)
      ]
