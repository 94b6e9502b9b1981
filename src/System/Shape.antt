-- ===== src/System/Shape.antt =====
-- The aggregator's table in the running server, whatever requests, tasks, retries and reloads do.
use leshy.Prelude.{ℕ, ◌≤◌, Bool, ◌≡◌, refl, sym, Option, some, none, List, [], ◌∷◌}
use mathlib.Core.Path.{subst}
use leshy.Prelude.HashMap.{HashMap}
use leshy.Prelude.Results.{Result, ok, err}
use leshy.Prelude.Text.{Str}
use leshy.Config.{Config, SocketAddr}
use leshy.Config.Validate.{IsConfig}
use leshy.Config.Load.{Toml}
use leshy.Files.{FilePath, FileSystem}
use leshy.Zones.{RegexEngine}
use leshy.Routing.Aggregator.Routes.{Iterates}
use leshy.Routing.Aggregator.WellFormed.Calls.{IsPrefix, new-IsWellFormed}
use leshy.Routing.Manager
use leshy.Routing.Manager.{RouteManager, RouteAdder, FileRead}
use leshy.Routing.Manager.Shape.{IsShaped}
use leshy.Dns.Message.{Hickory}
use leshy.Dns.Handler
use leshy.Dns.Handler.{DnsHandler, check_cache}
use leshy.Dns.Handler.Kept.{check_cache-Keeps, forward-Keeps, handle_request-Keeps}
use leshy.Dns.Handler.Shape.{
  Addressed, HasAddresses, Addressed-append, Addressed-step, run_task-IsShaped,
  apply_static_routes-IsShaped, apply_config-IsShaped, forward-Addressed, handle_request-Addressed,
}
use leshy.Main.{Started, run_server, apply_own_static_routes}
use leshy.System.Start.{run_server-Begins}
use leshy.System.Invariant.{from_file_with_includes-IsConfig}
use leshy.System.{
  Server, Step, Reachable, request, missed, answered, task, retry, reload, start, next,
}

-- A valid configuration sets a prefix length that is one.
IsConfig-IsPrefix :
    (is_regex : Str → Bool) (c : Config)
    → IsConfig is_regex c
    → IsPrefix c.server.route_aggregation_prefix
IsConfig-IsPrefix is_regex c valid =
    let (port, upstream, zones, prefix, names) = valid in
    go c.server.route_aggregation_prefix (λ n e. (prefix n e).1)
  where
    go : (p : Option ℕ) → ((n : ℕ) → p ≡ some n → n ≤ 32) → IsPrefix p
    go none h = tt
    go (some n) h = h n refl

module _ (to_lowercase : Str → Str) (regex : RegexEngine) (hickory : Hickory) {K : Type 0}
    (adder : RouteAdder K) (iter : HashMap ℕ Str → List (ℕ × Str)) (parse_v6 : Str → Option ℕ)
    (toml : Toml) where
  -- The table is in shape, and the tasks have addresses.
  pub record IsRouted (s : Server to_lowercase regex hickory adder iter parse_v6 toml)
      : Type 0 where
    pub shaped : IsShaped s.handler.route_manager
    pub addressed : Addressed s.tasks

  module _ (iterates : Iterates iter) (addresses : HasAddresses hickory) where
    started-IsShaped :
        (fs : FileSystem) (files : Str → FileRead) (kernel : Result K Str)
        (bind : SocketAddr → Result (Unit {0}) Str) (path : FilePath)
        (started : Started to_lowercase regex hickory adder iter parse_v6)
        → run_server to_lowercase regex hickory adder iter parse_v6 fs toml files kernel bind path
          ≡ ok started
        → IsShaped started.handler.route_manager
    unfolding apply_own_static_routes Handler.new Manager.new
    started-IsShaped fs files kernel bind path started e =
        let b =
          run_server-Begins to_lowercase regex hickory adder iter parse_v6 toml fs files kernel bind
            path started e in
        let valid = from_file_with_includes-IsConfig fs toml regex.is_regex path b.config b.loads in
        let fresh =
          new-IsWellFormed b.config.server.route_aggregation_prefix
            (IsConfig-IsPrefix regex.is_regex b.config valid) in
        subst (λ (h : DnsHandler to_lowercase regex hickory K). IsShaped h.route_manager)
          (sym b.opened)
          (apply_static_routes-IsShaped adder iter iterates parse_v6 files b.config.zones _ fresh)

    step-IsRouted :
        {s t : Server to_lowercase regex hickory adder iter parse_v6 toml}
        → Step to_lowercase regex hickory adder iter parse_v6 toml s t
        → IsRouted s
        → IsRouted t
    unfolding apply_own_static_routes
    step-IsRouted (request query now r s) h = record {
      shaped =
          subst IsShaped
            (sym
              (handle_request-Keeps to_lowercase regex hickory K query now r
                s.handler).same_manager)
            h.shaped;
      addressed =
          Addressed-append s.tasks _ h.addressed
            (handle_request-Addressed to_lowercase regex hickory addresses query now s.handler r);
    }
    step-IsRouted (missed now r s) h = record {
      shaped =
          subst IsShaped
            (sym
              (check_cache-Keeps to_lowercase regex hickory K (λ p i u. err hickory.serv_fail) now r
                s.handler).same_manager)
            h.shaped;
      addressed = h.addressed;
    }
    step-IsRouted (answered query now r s) h = record {
      shaped =
          subst IsShaped
            (sym (forward-Keeps to_lowercase regex hickory K query now r s.handler).same_manager)
            h.shaped;
      addressed =
          Addressed-append s.tasks _ h.addressed
            (forward-Addressed to_lowercase regex hickory addresses query now s.handler r);
    }
    step-IsRouted (task files handler before zone ip ips later) h =
        let (here, rest) = Addressed-step before zone ip ips later h.addressed in
        record {
          shaped =
              run_task-IsShaped adder iter iterates parse_v6 files zone (ip ∷ [])
                handler.route_manager (here, tt) h.shaped;
          addressed = rest;
        }
    step-IsRouted (retry files s) h = record {
      shaped =
          apply_static_routes-IsShaped adder iter iterates parse_v6 files s.handler.config.zones
            (s.handler.route_manager, 0) h.shaped;
      addressed = h.addressed;
    }
    step-IsRouted (reload fs path files c s e) h = record {
      shaped =
          apply_config-IsShaped to_lowercase regex hickory adder iter iterates parse_v6 files
            s.handler c h.shaped;
      addressed = h.addressed;
    }

    -- However the server got there from its start, whatever the answers, the device files, the
    -- kernel's results and the configurations were: each network in the aggregator's table has its
    -- host bits clear, is no wider than an aggregate and is in the table once, and each task is for
    -- 32-bit addresses. The order of a hash map is assumed to yield its entries, and hickory's IPv4
    -- addresses to be 32-bit numbers.
    pub Reachable-IsRouted :
        {s : Server to_lowercase regex hickory adder iter parse_v6 toml}
        → Reachable to_lowercase regex hickory adder iter parse_v6 toml s
        → IsRouted s
    Reachable-IsRouted (start fs files kernel bind path started e) = record {
      shaped = started-IsShaped fs files kernel bind path started e;
      addressed = tt;
    }
    Reachable-IsRouted (next from step) = step-IsRouted step (Reachable-IsRouted from)
