-- ===== src/Main.antt =====
-- src/main.rs: where the configuration is found, what a start of the server sets up, and the loop
-- that retries the static routes. The reload is in Reload.antt.
-- The home directory, the kernel's handle and the binding of the socket are parameters of a start.
pub mod Retry
pub mod Commands
use leshy.Prelude.{
  ℕ, ◌+◌, Bool, true, false, ◌&&◌, Option, none, some, List, [], ◌∷◌, ◌++◌, if◌then◌else◌, eqb, ltb,
}
use leshy.Prelude.HashMap.{HashMap}
use leshy.Prelude.Results.{Result, ok, err}
use leshy.Prelude.Text.{Str, codes}
use leshy.Config.{Config, ZoneConfig, SocketAddr}
use leshy.Config.Load.{Toml, LoadError, from_file_with_includes}
use leshy.Files
use leshy.Files.{FilePath, FileSystem}
use leshy.Zones
use leshy.Zones.{RegexEngine}
use leshy.Routing.Manager.{RouteAdder, RouteManager, FileRead}
use leshy.Dns.Message.{Hickory}
use leshy.Dns.Handler
use leshy.Dns.Server
use leshy.Dns.Handler.{DnsHandler, apply_static_routes, has_static_routes}

-- `find`, over the candidates
unfoldable pub find_existing : FileSystem → List FilePath → Option FilePath
find_existing fs [] = none
find_existing fs (p ∷ ps) = if fs.exists p then some p else find_existing fs ps

-- "/etc/leshy/config.toml"
abbrev pub system_config : FilePath
system_config = Files.from (codes "/etc/leshy/config.toml")

abbrev pub root_home : Str
root_home = codes "/root"

unfoldable pub candidates : Option Str → List FilePath
candidates home_var =
    let home : Str = elim home_var [ some h ↦ h | none ↦ root_home ] in
    Files.from (codes "leshy.toml")
    ∷ Files.from (codes "config.toml")
    ∷ Files.from (home ++ codes "/.config/leshy/config.toml")
    ∷ system_config
    ∷ []

unfoldable pub config_path : FileSystem → Option Str → Option FilePath → FilePath
config_path fs home_var (some path) = path
config_path fs home_var none = elim (find_existing fs (candidates home_var)) [
  | some path ↦ path
  | none ↦ system_config
]

pub data StartError : Type 0 where
  not_loaded : LoadError → StartError
  no_matcher : Str → StartError
  no_kernel : Str → StartError
  not_bound : Str → StartError

module _ (to_lowercase : Str → Str) (regex : RegexEngine) (hickory : Hickory) {K : Type 0}
    (adder : RouteAdder K) (iter : HashMap ℕ Str → List (ℕ × Str)) (parse_v6 : Str → Option ℕ) where
  -- A server that runs, with whether the retry loop and the watcher were spawned.
  pub record Started : Type 0 where
    pub handler : DnsHandler to_lowercase regex hickory K
    pub retries : Bool
    pub watches : Bool

  -- One round of the retry loop, which is also what a start does: the static routes of the
  -- handler's configuration, with the number of failures.
  unfoldable pub apply_own_static_routes :
      (Str → FileRead)
      → DnsHandler to_lowercase regex hickory K
      → DnsHandler to_lowercase regex hickory K × ℕ
  apply_own_static_routes files self =
      let (manager, failures) =
        apply_static_routes adder iter parse_v6 files self.config.zones (self.route_manager, 0) in
      (record self { route_manager = manager }, failures)

  -- `run_server` up to `server.run()`
  unfoldable pub run_server :
      FileSystem
      → Toml
      → (Str → FileRead)
      → Result K Str
      → (SocketAddr → Result (Unit {0}) Str)
      → FilePath
      → Result Started StartError
  run_server fs toml files kernel bind path =
      elim (from_file_with_includes fs toml regex.is_regex path) [
        | err e ↦ err (not_loaded e)
        | ok config ↦ elim (Zones.new to_lowercase regex config.zones) [
          | err e ↦ err (no_matcher e)
          | ok matcher ↦ elim kernel [
            | err e ↦ err (no_kernel e)
            | ok k ↦
                let (handler, failures) =
                  apply_own_static_routes files
                    (Handler.new to_lowercase regex hickory K k config matcher) in
                elim (Server.new bind config.server.listen_address handler) [
                  | err e ↦ err (not_bound e)
                  | ok server ↦ ok (record {
                    handler = handler;
                    retries = ltb 0 failures && has_static_routes config.zones;
                    watches = config.server.auto_reload;
                  })
                ]
          ]
        ]
      ]

  -- What a round of the loop meets: what the rest of the program did to the shared handler while
  -- the loop slept, and the files at that time.
  pub record Round : Type 0 where
    pub meanwhile :
        DnsHandler to_lowercase regex hickory K → DnsHandler to_lowercase regex hickory K
    pub files : Str → FileRead

  -- The loop over the given rounds, with whether it has ended.
  unfoldable pub retry_static_routes :
      List Round
      → DnsHandler to_lowercase regex hickory K
      → DnsHandler to_lowercase regex hickory K × Bool
  retry_static_routes [] self = (self, false)
  retry_static_routes (r ∷ rounds) self =
      let (self', failures) = apply_own_static_routes r.files (r.meanwhile self) in
      if eqb failures 0 then (self', true) else retry_static_routes rounds self'
