-- ===== src/Main/Commands.antt =====
-- src/main.rs, lines 18-76: the command line, as clap has parsed it, and `main`.
use leshy.Prelude.{◌≡◌, ◌≢◌, refl, ◌∙◌, ap, Option, none, some, arith, inl, inr, List, ℕ}
use leshy.Prelude.HashMap.{HashMap}
use leshy.Prelude.Results.{Result, ok, err}
use leshy.Prelude.Text.{Str}
use leshy.Config.{SocketAddr}
use leshy.Config.Load.{Toml}
use leshy.Files.{FilePath, FileSystem}
use leshy.Zones.{RegexEngine}
use leshy.Routing.Manager.{RouteAdder, FileRead}
use leshy.Dns.Message.{Hickory}
use leshy.Service.{Host, Done, ServiceError}
use leshy.Service.Platform
use leshy.Service.Platform.{Platform, another, default_name, unwrap_or}
use leshy.Service.Platform.Files.{
  HasFile, Written, service_path, service_text, install-Written, uninstall-Removed,
}
use leshy.Main.{Started, StartError, run_server, config_path}

pub data ServiceAction : Type 0 where
  install_service : Str → Str → ServiceAction
  uninstall_service : Str → ServiceAction

pub data Command : Type 0 where
  service : ServiceAction → Command

pub record Cli : Type 0 where
  pub config : Option FilePath
  pub command : Option Command

pub data MainError : Type 0 where
  service_failed : ServiceError → MainError
  start_failed : StartError → MainError

module _ (to_lowercase : Str → Str) (regex : RegexEngine) (hickory : Hickory) {K : Type 0}
    (adder : RouteAdder K) (iter : HashMap ℕ Str → List (ℕ × Str)) (parse_v6 : Str → Option ℕ)
    {H : Type 0} (host : Host H) (platform : Platform) (binary : Str) (fs : FileSystem)
    (toml : Toml) (files : Str → FileRead) (kernel : Result K Str)
    (bind : SocketAddr → Result (Unit {0}) Str) (home_var : Option Str) where
  -- What `main` has done when it ends, or when the server runs.
  pub data Ended : Type 0 where
    serviced : Ended
    serves : Started to_lowercase regex hickory adder iter parse_v6 → Ended

  -- `service::install(…)?`
  unfoldable pub ended : H × Done → H × Result Ended MainError
  ended (h, ok done) = (h, ok serviced)
  ended (h, err e) = (h, err (service_failed e))

  unfoldable pub main : Cli → H → H × Result Ended MainError
  main cli h = elim cli.command [
    | some (service (install_service config name)) ↦
        ended (Platform.install host platform binary h (some name) (some config))
    | some (service (uninstall_service name)) ↦
        ended (Platform.uninstall host platform h (some name))
    | none ↦
        let path = config_path fs home_var cli.config in
        elim (run_server to_lowercase regex hickory adder iter parse_v6 fs toml files kernel bind
          path) [ ok started ↦ (h, ok (serves started)) | err e ↦ (h, err (start_failed e)) ]
  ]

  abbrev pub asks : ServiceAction → Cli
  asks action = record { config = none; command = some (service action) }

  ended-serviced : (r : H × Done) → (ended r).1 ≡ ok serviced → r.1 ≡ ok tt
  unfolding ended
  ended-serviced (h, ok u) e = refl
  ended-serviced (h, err x) e = absurd (ground arith)

  ended-same : (r : H × Done) → (ended r).0 ≡ r.0
  unfolding ended
  ended-same (h, ok u) = refl
  ended-same (h, err x) = refl

  Written-text :
      (path text : Str) (file : H → Option Str) (laws : HasFile host path file) (r : H × Done)
      → Written host path file laws text r
      → r.1 ≡ ok tt
      → file r.0 ≡ some text
  Written-text path text file laws r (inl (x, e)) done = absurd (ground arith)
  Written-text path text file laws r (inr e) done = e

  -- On systemd and launchd, if the service manager's commands leave the service's file alone:
  -- once `leshy service install` has succeeded the file is there with its text, for the name and
  -- the configuration that were given, and once `leshy service uninstall` of the same name has
  -- succeeded after it, there is none.
  pub main-services :
      (h : H) (config name : Str) (file : H → Option Str)
      → platform ≢ another
      → HasFile host (service_path platform name) file
      → let installed = main (asks (install_service config name)) h in
        let removed = main (asks (uninstall_service name)) installed.0 in
        installed.1 ≡ ok serviced
        → removed.1 ≡ ok serviced
        → (file installed.0 ≡ some (service_text platform name binary config))
          × (file removed.0 ≡ none)
  unfolding main unwrap_or
  main-services h config name file supported laws done gone =
      let install = Platform.install host platform binary h (some name) (some config) in
      let after = (ended install).0 in
      let uninstall = Platform.uninstall host platform after (some name) in
      (
        ap file (ended-same install)
            ∙ Written-text (service_path platform name) (service_text platform name binary config)
                file laws install
                (install-Written host platform binary h (some name) (some config) file supported
                  laws)
                (ended-serviced install done),
        ap file (ended-same uninstall)
            ∙ uninstall-Removed host platform after (some name) file supported laws
                (ended-serviced uninstall gone),
      )
