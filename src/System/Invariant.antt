-- ===== src/System/Invariant.antt =====
-- What holds of the handler at every moment.
use mathlib.Core.Path.{subst}
use leshy.Prelude.{ℕ, Bool, ◌≡◌, refl, sym, ◌∙◌, ap, Option, List, [], ◌∷◌, arith, inl, inr}
use leshy.Prelude.HashMap
use leshy.Prelude.HashMap.{HashMap}
use leshy.Prelude.Results.{ok, err, Result-cases}
use leshy.Prelude.Text.{Str}
use leshy.Config.{Config}
use leshy.Config.Validate.{IsConfig}
use leshy.Config.Load.{Toml, from_file_with_includes}
use leshy.Config.Load.Merge.{from_file_with_includes-merges}
use leshy.Files.{FilePath, FileSystem}
use leshy.Zones
use leshy.Zones.{RegexEngine, Zone}
use leshy.Routing.Manager.{RouteAdder, RouteManager, FileRead}
use leshy.Dns.Cache
use leshy.Dns.Cache.Live.{IsValid}
use leshy.Dns.Message.{Hickory}
use leshy.Dns.Handler
use leshy.Dns.Handler.{
  DnsHandler, RouteTask, Request, handle_request, cleanup_zone, update_config, apply_static_routes,
  run_task,
}
use leshy.Dns.Handler.Static.{update_config-cache}
use leshy.Dns.Handler.Kept.{Keeps, check_cache-Keeps, forward-Keeps, handle_request-Keeps}
use leshy.Reload.{apply_config, cleanup_zones, get_zones_to_cleanup}
use leshy.Main.{apply_own_static_routes}
use leshy.System.Start.{Begins, run_server-Begins}
use leshy.System.{
  Server, Step, Reachable, request, missed, answered, task, retry, reload, start, next,
}

empty_cache-IsValid :
    (hickory : Hickory) (n : ℕ)
    → IsValid ⦃r = hickory.type_eq⦄ (Cache.new {R = hickory.RecordType} {M = hickory.Message} n)
unfolding Cache.new
empty_cache-IsValid hickory n = record { bounded = omega arith; distinct = HashMap.always }

-- What loads is valid.
pub from_file_with_includes-IsConfig :
    (fs : FileSystem) (toml : Toml) (is_regex : Str → Bool) (path : FilePath) (c : Config)
    → from_file_with_includes fs toml is_regex path ≡ ok c
    → IsConfig is_regex c
from_file_with_includes-IsConfig fs toml is_regex path c e =
    let (main, names, l, d, same, valid) =
      from_file_with_includes-merges fs toml is_regex path c e in
    valid

module _ (to_lowercase : Str → Str) (regex : RegexEngine) (hickory : Hickory) (K : Type 0) where
  abbrev Shared : Type 0
  Shared = DnsHandler to_lowercase regex hickory K

  -- The configuration in force is valid, the matcher is built from its zones, and the cache has
  -- its size and is valid.
  pub record IsSound (self : DnsHandler to_lowercase regex hickory K) : Type 0 where
    pub configured : IsConfig regex.is_regex self.config
    pub built : Zones.new to_lowercase regex self.config.zones ≡ ok self.matcher
    pub sized : self.cache.max_entries ≡ self.config.server.cache_size
    pub cached : IsValid ⦃r = hickory.type_eq⦄ self.cache

  with_manager :
      (self : Shared) (m : RouteManager K)
      → IsSound self
      → IsSound (record self { route_manager = m })
  with_manager self m s = record {
    configured = s.configured;
    built = s.built;
    sized = s.sized;
    cached = s.cached;
  }

  kept :
      (self self' : Shared)
      → Keeps to_lowercase regex hickory K self self'
      → IsSound self
      → IsSound self'
  kept self self' k s = record {
    configured = subst (IsConfig regex.is_regex) (sym k.same_config) s.configured;
    built =
        ap (λ (c : Config). Zones.new to_lowercase regex c.zones) k.same_config
        ∙ s.built
        ∙ ap ok (sym k.same_matcher);
    sized = k.same_size ∙ s.sized ∙ ap (λ (c : Config). c.server.cache_size) (sym k.same_config);
    cached = k.stays_valid s.cached;
  }

  updated :
      (self : Shared) (new_config : Config) (matcher : List (Zone regex.RegexSet))
      → IsConfig regex.is_regex new_config
      → Zones.new to_lowercase regex new_config.zones ≡ ok matcher
      → IsSound self
      → IsSound (update_config to_lowercase regex hickory K self new_config matcher)
  unfolding update_config Cache.new
  updated self new_config matcher valid built s =
      let cache =
        update_config-cache to_lowercase regex hickory K self new_config matcher s.sized in
      record {
        configured = valid;
        built = built;
        sized = ap (λ (c : Cache.DnsCache hickory.RecordType hickory.Message). c.max_entries) cache;
        cached =
            subst (IsValid ⦃r = hickory.type_eq⦄) (sym cache)
              (empty_cache-IsValid hickory new_config.server.cache_size);
      }

  module _ (adder : RouteAdder K) (iter : HashMap ℕ Str → List (ℕ × Str))
      (parse_v6 : Str → Option ℕ) where
    cleaned :
        (names : List Str) (self : Shared)
        → IsSound self
        → IsSound (cleanup_zones to_lowercase regex hickory adder iter parse_v6 self names)
    unfolding cleanup_zones cleanup_zone
    cleaned [] self s = s
    cleaned (n ∷ names) self s =
        cleaned names (cleanup_zone to_lowercase regex hickory K self n) (with_manager self _ s)

    reloaded :
        (files : Str → FileRead) (self : Shared) (new_config : Config)
        → IsConfig regex.is_regex new_config
        → IsSound self
        → IsSound
            (apply_config to_lowercase regex hickory adder iter parse_v6 files self new_config).0
    unfolding apply_config
    reloaded files self new_config valid s =
        let names = get_zones_to_cleanup self.config.zones new_config.zones in
        let s' = cleaned names self s in
        elim (Result-cases (Zones.new to_lowercase regex new_config.zones)) [
          | inl (matcher, e) ↦
              rw (e, apply_config) (with_manager _ _ (updated _ new_config matcher valid e s'))
          | inr (x, e) ↦ rw (e, apply_config) s'
        ]

    module _ (toml : Toml) where
      started-IsSound :
          (fs : FileSystem) (files : Str → FileRead) (path : FilePath) (handler : Shared)
          → Begins to_lowercase regex hickory adder iter parse_v6 toml fs files path handler
          → IsSound handler
      unfolding apply_own_static_routes Handler.new Cache.new
      started-IsSound fs files path handler b =
          let fresh = Handler.new to_lowercase regex hickory K b.kernel b.config b.matcher in
          subst IsSound (sym b.opened) (
            with_manager fresh _ (record {
              configured =
                  from_file_with_includes-IsConfig fs toml regex.is_regex path b.config b.loads;
              built = b.builds;
              sized = refl;
              cached = empty_cache-IsValid hickory b.config.server.cache_size;
            }))

      step-IsSound :
          {s t : Server to_lowercase regex hickory adder iter parse_v6 toml}
          → Step to_lowercase regex hickory adder iter parse_v6 toml s t
          → IsSound s.handler
          → IsSound t.handler
      unfolding apply_own_static_routes
      step-IsSound (request query now r s) sound =
          kept s.handler _ (handle_request-Keeps to_lowercase regex hickory K query now r s.handler)
            sound
      step-IsSound (missed now r s) sound =
          kept s.handler _
            (check_cache-Keeps to_lowercase regex hickory K (λ p i u. err hickory.serv_fail) now r
              s.handler)
            sound
      step-IsSound (answered query now r s) sound =
          kept s.handler _ (forward-Keeps to_lowercase regex hickory K query now r s.handler) sound
      step-IsSound (task files handler before zone ip ips later) sound =
          with_manager handler _ sound
      step-IsSound (retry files s) sound = with_manager s.handler _ sound
      step-IsSound (reload fs path files c s e) sound =
          reloaded files s.handler c
            (from_file_with_includes-IsConfig fs toml regex.is_regex path c e) sound

      -- However the server got there from its start, the configuration in force is valid, the
      -- matcher is the one that is built from its zones, and the cache has its size, holds no more
      -- and no question twice.
      pub reachable-IsSound :
          {s : Server to_lowercase regex hickory adder iter parse_v6 toml}
          → Reachable to_lowercase regex hickory adder iter parse_v6 toml s
          → IsSound s.handler
      reachable-IsSound (start fs files kernel bind path started e) =
          started-IsSound fs files path started.handler (
            run_server-Begins to_lowercase regex hickory adder iter parse_v6 toml fs files kernel
              bind path started e)
      reachable-IsSound (next from step) = step-IsSound step (reachable-IsSound from)
