-- ===== src/Tests/Running.antt =====
-- The running server at concrete inputs: notices of the watcher, a start, a request and a reload.
use mathlib.Core.Path.{subst}
use leshy.Prelude.{
  ℕ, ◌≡◌, refl, sym, inl, inr, none, some, List, [], ◌∷◌, ◌++◌, arith, true, false, nat_eq, list_eq,
  In,
}
use leshy.Prelude.Results.{Result, ok, err}
use leshy.Prelude.Text.{Str, codes}
use leshy.Config.{Config, v4, v6, SocketAddr, DnsProtocol}
use leshy.Config.Load.{io, from_file, config_dir, from_file_with_includes}
use leshy.Files.{FilePath, FileSystem}
use leshy.Files
use leshy.Zones
use leshy.Routing.Aggregator.Replay.{Kernel}
use leshy.Routing.Manager
use leshy.Routing.Manager.{
  get_zone_route_count, FileRead, not_found, RouteError, prefix_exceeds, parse_cidr,
}
use leshy.Dns.Message.{Record}
use leshy.Dns.Handler
use leshy.Dns.Server
use leshy.Reload
use leshy.Reload.{apply_config}
use leshy.Dns.Handler.{run_task, DnsHandler, Request, handle_request, check_cache, forward}
use leshy.Prelude.HashMap
use leshy.Reload.Watch.{
  ConfigWatcher, watcher, dir_candidates, dir_to_watch, Notice, is_change, modify, access, watch,
}
use leshy.Reload.Watch.Changes.{Loads, dir_to_watch-config_dir, watch-last}
use leshy.Main.{Started, run_server, apply_own_static_routes}
use leshy.Tests.Fixtures.{config, work, lower, plain, table_adder, entries, no_v6, files}
use leshy.Tests.Answers.{hickory}
use leshy.System.{Server, start, next, request}
use leshy.System.Invariant.{IsSound, reachable-IsSound}
use leshy.Tests.Loading.{work_zone, home_zone, fs, toml, path, any_regex, both, loads_both}

dir_to_watch-config_dir_example :
    dir_to_watch fs (dir_candidates (watcher path both)) ≡ some (config_dir both path)
unfolding config_dir Files.parent Files.drop_last Files.join Files.from Files.split_slash
    Files.normal
dir_to_watch-config_dir_example =
    dir_to_watch-config_dir fs path (record { absolute = true; components = [] }) both refl refl

-- The file is read, then changed, then gone.
abbrev gone : FileSystem
gone = record fs { read_to_string = λ p. err [] }

abbrev pub looks : Notice
looks = record { event = ok access; fs = fs; receiver = true }

abbrev pub changes : Notice
changes = record { event = ok modify; fs = fs; receiver = true }

abbrev pub breaks : Notice
breaks = record { event = ok modify; fs = gone; receiver = true }

pub receives : (m : Notice) → In m (looks ∷ changes ∷ breaks ∷ []) → m.receiver ≡ true
receives m at = elim at [
  | inl e ↦ subst (λ (n : Notice). n.receiver ≡ true) (sym e) refl
  | inr at' ↦ elim at' [
    | inl e ↦ subst (λ (n : Notice). n.receiver ≡ true) (sym e) refl
    | inr at'' ↦ elim at'' [
      | inl e ↦ subst (λ (n : Notice). n.receiver ≡ true) (sym e) refl
      | inr never ↦ elim never [ ]
    ]
  ]
]

abbrev pub the_watcher : ConfigWatcher
the_watcher = watcher path both

pub gone_fails : from_file_with_includes gone toml any_regex path ≡ err (io [])
unfolding from_file_with_includes from_file
gone_fails = refl

pub broken_never-Loads :
    (m : Notice) (d : Config) → In m (breaks ∷ []) → ¬ Loads toml any_regex path m d
broken_never-Loads m d at loads = elim at [
  | inl e ↦
      let (kind, event, change, l) =
        subst (λ (n : Notice). Loads toml any_regex path n d) e loads in
      let fails = gone_fails in absurd (ground arith)
  | inr never ↦ elim never [ ]
]

watch-last_example :
    (earlier : List Config) × (watch toml any_regex the_watcher (looks ∷ changes ∷ breaks ∷ [])
      ≡ earlier ++ both ∷ [])
unfolding watcher is_change
watch-last_example =
    watch-last toml any_regex the_watcher (looks ∷ []) changes both (breaks ∷ []) receives
      (modify, refl, refl, loads_both) broken_never-Loads

-- A start from the files, then a request.
abbrev pub TheServer : Type 0
TheServer = Server lower plain hickory table_adder entries no_v6 toml

abbrev pub binds : SocketAddr → Result (Unit {0}) Str
binds address = ok tt

abbrev pub fresh : DnsHandler lower plain hickory Kernel
fresh =
    Handler.new lower plain hickory Kernel (λ key. none) both
      (Zones.zone_of lower plain work_zone [] ∷ Zones.zone_of lower plain home_zone [] ∷ [])

abbrev pub begun : Started lower plain hickory table_adder entries no_v6
begun = record { handler = fresh; retries = false; watches = true }

pub starts :
    run_server lower plain hickory table_adder entries no_v6 fs toml files
      (ok (λ key. none))
      binds
      path
    ≡ ok begun
unfolding Server.new run_server apply_own_static_routes Handler.apply_static_routes
    Handler.apply_zone Zones.new Handler.new
starts = rw (run_server, loads_both) refl

abbrev pub asked : Request lower plain hickory Kernel
asked = record { id = 7; is_query = true; qname = codes "x.a.b."; qtype = 1 }

abbrev pub answers : DnsProtocol → ℕ → SocketAddr → Result (ℕ × List Record) ℕ
answers protocol i address = ok (0, record { address = some (v4 167772161); ttl = 300 } ∷ [])

abbrev pub begun_server : TheServer
begun_server = record { handler = fresh; tasks = [] }

reachable-IsSound_example :
    IsSound lower plain hickory Kernel
      (handle_request lower plain hickory Kernel answers 100 fresh asked).handler
reachable-IsSound_example =
    reachable-IsSound lower plain hickory Kernel table_adder entries no_v6 toml (
      next (start fs files (ok (λ key. none)) binds path begun starts)
        (request answers 100 asked begun_server))

-- A task of a zone that a reload drops before the task runs: the zone is tracked again.
abbrev reloaded : DnsHandler lower plain hickory Kernel
reloaded =
    (apply_config lower plain hickory table_adder entries no_v6 files fresh
      (config (home_zone ∷ []))).0

stale_task :
    (get_zone_route_count reloaded.route_manager work ≡ 0)
    × (get_zone_route_count
          (run_task table_adder entries no_v6 files
            (record { config = work_zone; excluded_cidrs = [] })
            reloaded.route_manager
            (v6 1 ∷ []))
          work
        ≡ 1)
unfolding apply_config get_zone_route_count HashMap.get HashMap.insert Zones.new
    Handler.apply_static_routes Handler.apply_zone Handler.update_config Reload.cleanup_zones
    Reload.get_zones_to_cleanup Reload.collect Handler.new Handler.cleanup_zone Manager.cleanup_zone
    HashMap.remove Manager.new run_task Zones.is_excluded Manager.add_route Manager.add_tracked
    Manager.add_typed Manager.track
stale_task = (refl, refl)
