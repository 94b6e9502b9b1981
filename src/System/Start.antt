-- ===== src/System/Start.antt =====
-- What a start of the server has made, if it succeeds.
use leshy.Prelude.{ℕ, ◌≡◌, Option, List, arith, inl, inr}
use leshy.Prelude.HashMap.{HashMap}
use leshy.Prelude.Results.{Result, ok, Result-cases}
use leshy.Prelude.Text.{Str}
use leshy.Config.{Config, SocketAddr}
use leshy.Config.Load.{Toml, from_file_with_includes}
use leshy.Files.{FilePath, FileSystem}
use leshy.Zones
use leshy.Zones.{RegexEngine, Zone}
use leshy.Routing.Manager.{RouteAdder, FileRead}
use leshy.Dns.Message.{Hickory}
use leshy.Dns.Handler
use leshy.Dns.Server
use leshy.Dns.Handler.{DnsHandler}
use leshy.Main.{Started, run_server, apply_own_static_routes}

module _ (to_lowercase : Str → Str) (regex : RegexEngine) (hickory : Hickory) {K : Type 0}
    (adder : RouteAdder K) (iter : HashMap ℕ Str → List (ℕ × Str)) (parse_v6 : Str → Option ℕ)
    (toml : Toml) where
  -- What a start that succeeds has made.
  pub record Begins (fs : FileSystem) (files : Str → FileRead) (path : FilePath)
      (handler : DnsHandler to_lowercase regex hickory K) : Type 0 where
    pub config : Config
    pub matcher : List (Zone regex.RegexSet)
    pub kernel : K
    pub loads : from_file_with_includes fs toml regex.is_regex path ≡ ok config
    pub builds : Zones.new to_lowercase regex config.zones ≡ ok matcher
    pub opened :
        handler
        ≡ (apply_own_static_routes to_lowercase regex hickory adder iter parse_v6 files
            (Handler.new to_lowercase regex hickory K kernel config matcher)).0

  pub run_server-Begins :
      (fs : FileSystem) (files : Str → FileRead) (kernel : Result K Str)
      (bind : SocketAddr → Result (Unit {0}) Str) (path : FilePath)
      (started : Started to_lowercase regex hickory adder iter parse_v6)
      → run_server to_lowercase regex hickory adder iter parse_v6 fs toml files kernel bind path
        ≡ ok started
      → Begins fs files path started.handler
  unfolding run_server Server.new
  run_server-Begins fs files kernel bind path started e =
      elim (Result-cases (from_file_with_includes fs toml regex.is_regex path)) [
        | inr (x, l) ↦ absurd (ground arith)
        | inl (c, l) ↦ elim (Result-cases (Zones.new to_lowercase regex c.zones)) [
          | inr (x, z) ↦ absurd (ground arith)
          | inl (matcher, z) ↦ elim (Result-cases kernel) [
            | inr (x, g) ↦ absurd (ground arith)
            | inl (k, g) ↦ elim (Result-cases (bind c.server.listen_address)) [
              | inr (x, b) ↦ absurd (ground arith)
              | inl (u, b) ↦ record {
                config = c;
                matcher = matcher;
                kernel = k;
                loads = l;
                builds = z;
                opened = ground arith;
              }
            ]
          ]
        ]
      ]
