-- ===== src/System.antt =====
-- The server as it runs: steps of requests, tasks, the retry loop and reloads in any order, each
-- under the lock that src/dns/server.rs, src/routing/mod.rs and src/main.rs take for it. A request
-- is one step, or, if others come between its miss and its answer, a `missed` and an `answered`. A
-- task holds its lock for one address at a time.
-- A state is the shared handler and the tasks that requests have spawned, with the addresses that
-- they have not come to.
pub mod Start
pub mod Invariant
pub mod Shape
pub mod Fresh
use leshy.Prelude.{ℕ, ◌≡◌, Option, List, [], ◌∷◌, ◌++◌}
use leshy.Prelude.HashMap.{HashMap}
use leshy.Prelude.Results.{Result, ok}
use leshy.Prelude.Text.{Str}
use leshy.Config.{IpAddr, Config, DnsProtocol, SocketAddr}
use leshy.Config.Load.{Toml, from_file_with_includes}
use leshy.Files.{FilePath, FileSystem}
use leshy.Zones.{RegexEngine, MatchedZone}
use leshy.Routing.Manager.{RouteAdder, FileRead}
use leshy.Dns.Message.{Hickory}
use leshy.Dns.Handler.{
  DnsHandler, RouteTask, Request, Reply, Handled, handle_request, check_cache, forward, run_task,
}
use leshy.Reload.{apply_config}
use leshy.Main.{Started, run_server, apply_own_static_routes}

module _ (to_lowercase : Str → Str) (regex : RegexEngine) (hickory : Hickory) {K : Type 0}
    (adder : RouteAdder K) (iter : HashMap ℕ Str → List (ℕ × Str)) (parse_v6 : Str → Option ℕ)
    (toml : Toml) where
  pub record Server : Type 0 where
    pub handler : DnsHandler to_lowercase regex hickory K
    pub tasks : List RouteTask

  abbrev pub after_request : Server → Handled to_lowercase regex hickory K → Server
  after_request s handled = record { handler = handled.handler; tasks = s.tasks ++ handled.spawned }

  -- src/dns/server.rs: a request, under the read lock on the handler
  abbrev pub serve :
      (DnsProtocol → ℕ → SocketAddr → Result hickory.Message hickory.ResponseCode)
      → ℕ
      → Server
      → Request to_lowercase regex hickory K
      → Server × Reply to_lowercase regex hickory K
  serve query now s r =
      let handled = handle_request to_lowercase regex hickory K query now s.handler r in
      (after_request s handled, handled.reply)

  -- The answers of the servers, the time, the device files and the file system are those of the
  -- moment of the step.
  pub data Step : Server → Server → Type 0 where
    request :
        (query : DnsProtocol → ℕ → SocketAddr → Result hickory.Message hickory.ResponseCode)
        (now : ℕ) (r : Request to_lowercase regex hickory K) (s : Server)
        → Step s (serve query now s r).0
    missed :
        (now : ℕ) (r : Request to_lowercase regex hickory K) (s : Server)
        → Step s
            (record s { handler = (check_cache to_lowercase regex hickory K now s.handler r).1 })
    answered :
        (query : DnsProtocol → ℕ → SocketAddr → Result hickory.Message hickory.ResponseCode)
        (now : ℕ) (r : Request to_lowercase regex hickory K) (s : Server)
        → Step s (after_request s (forward to_lowercase regex hickory K query now s.handler r))
    task :
        (files : Str → FileRead) (handler : DnsHandler to_lowercase regex hickory K)
        (before : List RouteTask) (zone : MatchedZone) (ip : IpAddr) (ips : List IpAddr)
        (later : List RouteTask)
        → Step
            (record {
              handler = handler;
              tasks = before ++ record { matched_zone = zone; ips = ip ∷ ips } ∷ later;
            })
            (record {
              handler = record handler {
                route_manager =
                    run_task adder iter parse_v6 files zone handler.route_manager (ip ∷ []);
              };
              tasks = before ++ record { matched_zone = zone; ips = ips } ∷ later;
            })
    retry :
        (files : Str → FileRead) (s : Server)
        → Step s (record s {
          handler =
              (apply_own_static_routes to_lowercase regex hickory adder iter parse_v6 files
                s.handler).0;
        })
    reload :
        (fs : FileSystem) (path : FilePath) (files : Str → FileRead) (new_config : Config)
        (s : Server)
        → from_file_with_includes fs toml regex.is_regex path ≡ ok new_config
        → Step s (record s {
          handler =
              (apply_config to_lowercase regex hickory adder iter parse_v6 files s.handler
                new_config).0;
        })

  -- What a start of the server and any steps lead to.
  pub data Reachable : Server → Type 0 where
    start :
        (fs : FileSystem) (files : Str → FileRead) (kernel : Result K Str)
        (bind : SocketAddr → Result (Unit {0}) Str) (path : FilePath)
        (started : Started to_lowercase regex hickory adder iter parse_v6)
        → run_server to_lowercase regex hickory adder iter parse_v6 fs toml files kernel bind path
          ≡ ok started
        → Reachable (record { handler = started.handler; tasks = [] })
    next : {s t : Server} → Reachable s → Step s t → Reachable t
