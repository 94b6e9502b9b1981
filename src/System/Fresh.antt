-- ===== src/System/Fresh.antt =====
-- The first query after a reload of the running server.
use leshy.Prelude.{ℕ, ◌≡◌, ap, true, Option, List}
use leshy.Prelude.HashMap.{HashMap}
use leshy.Prelude.Results.{Result, ok}
use leshy.Prelude.Text.{Str}
use leshy.Config.{Config, DnsProtocol, SocketAddr}
use leshy.Config.Load.{Toml}
use leshy.Zones
use leshy.Zones.{RegexEngine, Zone}
use leshy.Routing.Manager.{RouteAdder, FileRead}
use leshy.Dns.Message.{Hickory}
use leshy.Dns.Handler.{Request, Handled, forward}
use leshy.Reload.{apply_config}
use leshy.Reload.Fresh.{handle_request-reloaded}
use leshy.System.{Server, Reachable, after_request, serve}
use leshy.System.Invariant.{reachable-IsSound}

module _ (to_lowercase : Str → Str) (regex : RegexEngine) (hickory : Hickory) {K : Type 0}
    (adder : RouteAdder K) (iter : HashMap ℕ Str → List (ℕ × Str)) (parse_v6 : Str → Option ℕ)
    (toml : Toml) where
  -- However the server got where it is, after a reload whose matcher can be built the new
  -- configuration and matcher are in place, and the first query is not answered from the cache,
  -- whatever was cached before: it is forwarded as the new configuration says.
  pub serve-reloaded :
      (s : Server to_lowercase regex hickory adder iter parse_v6 toml) (files : Str → FileRead)
      (c : Config) (matcher : List (Zone regex.RegexSet))
      (query : DnsProtocol → ℕ → SocketAddr → Result hickory.Message hickory.ResponseCode) (now : ℕ)
      (r : Request to_lowercase regex hickory K)
      → Reachable to_lowercase regex hickory adder iter parse_v6 toml s
      → Zones.new to_lowercase regex c.zones ≡ ok matcher
      → r.is_query ≡ true
      → let h = (apply_config to_lowercase regex hickory adder iter parse_v6 files s.handler c).0 in
        let t : Server to_lowercase regex hickory adder iter parse_v6 toml = record s {
          handler = h;
        } in
        let forwarded = forward to_lowercase regex hickory K query now h r in
        (h.config ≡ c)
        × ((h.matcher ≡ matcher)
            × (serve to_lowercase regex hickory adder iter parse_v6 toml query now t r ≡ (
              after_request to_lowercase regex hickory adder iter parse_v6 toml t forwarded,
              forwarded.reply,
            )))
  serve-reloaded s files c matcher query now r reachable built asks =
      let sound =
        reachable-IsSound to_lowercase regex hickory K adder iter parse_v6 toml reachable in
      let (config, (matched, handled)) =
        handle_request-reloaded to_lowercase regex hickory K adder iter parse_v6 files s.handler c
          matcher query now r sound.sized built asks in
      let t : Server to_lowercase regex hickory adder iter parse_v6 toml = record s {
        handler = (apply_config to_lowercase regex hickory adder iter parse_v6 files s.handler c).0;
      } in
      (
        config,
        (
          matched,
          ap
              (λ (x : Handled to_lowercase regex hickory K).
                (after_request to_lowercase regex hickory adder iter parse_v6 toml t x, x.reply))
              handled,
        ),
      )
