-- ===== src/Dns/Handler/Static.antt =====
-- Routes: which addresses of an answer get one, and when there are static routes to apply.
use leshy.Prelude.{
  ℕ, ◌≡◌, refl, sym, ◌∙◌, ap, true, false, not, Option, List, [], ◌∷◌, arith, Bool-cases, inl, inr,
  filter, eqb, eqb_iff, is_empty,
}
use leshy.Prelude.HashMap.{HashMap}
use leshy.Prelude.Text.{Str}
use leshy.Config.{IpAddr, Config, ZoneConfig, is_exclusive}
use leshy.Zones.{Zone, MatchedZone, RegexEngine, is_excluded}
use leshy.Routing.Manager.{RouteManager, RouteAdder, FileRead, add_route}
use leshy.Dns.Cache
use leshy.Dns.Message.{Hickory}
use leshy.Dns.Handler.{
  DnsHandler, update_config, has_static_routes, run_task, apply_zone, apply_static_routes,
}

module _ (to_lowercase : Str → Str) (regex : RegexEngine) (hickory : Hickory) (K : Type 0) where
  -- If the cache had the size of the old configuration, `update_config` leaves an empty cache of
  -- the size of the new one: no response that was cached under the old configuration survives.
  pub update_config-cache :
      (self : DnsHandler to_lowercase regex hickory K) (new_config : Config)
      (new_matcher : List (Zone regex.RegexSet))
      → self.cache.max_entries ≡ self.config.server.cache_size
      → (update_config to_lowercase regex hickory K self new_config new_matcher).cache
        ≡ Cache.new new_config.server.cache_size
  unfolding update_config Cache.clear Cache.new
  update_config-cache self new_config new_matcher size =
      elim (Bool-cases (eqb new_config.server.cache_size self.config.server.cache_size)) [
        | inl e ↦
            let same = (eqb_iff new_config.server.cache_size self.config.server.cache_size).0 e in
            rw e (ap (λ (n : ℕ). mk n) (size ∙ sym same))
        | inr e ↦ rw e refl
      ]
    where
      mk : ℕ → Cache.DnsCache hickory.RecordType hickory.Message
      mk n = record { entries = []; max_entries = n }

module _ {K : Type 0} (adder : RouteAdder K) (iter : HashMap ℕ Str → List (ℕ × Str))
    (parse_v6 : Str → Option ℕ) where
  -- The route that the task makes for one address.
  abbrev pub add_all :
      (Str → FileRead) → MatchedZone → RouteManager K → List IpAddr → RouteManager K
  add_all files zone manager [] = manager
  add_all files zone manager (ip ∷ ips) =
      add_all files zone (add_route adder iter files manager ip zone.config).0 ips

  -- The task adds, in order, a route for every address that the zone does not exclude, and does
  -- nothing for the others; a failure stops none of the later ones.
  pub run_task-filter :
      (files : Str → FileRead) (zone : MatchedZone) (manager : RouteManager K) (ips : List IpAddr)
      → run_task adder iter parse_v6 files zone manager ips
        ≡ add_all files zone manager (filter (λ ip. not (is_excluded zone ip)) ips)
  unfolding run_task
  run_task-filter files zone manager [] = refl
  run_task-filter files zone manager (ip ∷ ips) = elim (Bool-cases (is_excluded zone ip)) [
    | inl e ↦ rw e (run_task-filter files zone manager ips)
    | inr e ↦
        rw e (run_task-filter files zone (add_route adder iter files manager ip zone.config).0 ips)
  ]

  apply_zone-none :
      (files : Str → FileRead) (zone : ZoneConfig) (cidrs : List Str) (s : RouteManager K × ℕ)
      → is_empty cidrs ≡ true
      → apply_zone adder iter parse_v6 files zone cidrs s ≡ s
  unfolding apply_zone
  apply_zone-none files zone [] s e = refl
  apply_zone-none files zone (c ∷ cidrs) s e = absurd (ground arith)

  -- Without static routes in the sense of `has_static_routes`, `apply_static_routes` changes
  -- nothing and counts no failure: the retry is needed only where that test says so.
  pub apply_static_routes-none :
      (files : Str → FileRead) (zones : List ZoneConfig) (s : RouteManager K × ℕ)
      → has_static_routes zones ≡ false
      → apply_static_routes adder iter parse_v6 files zones s ≡ s
  unfolding apply_static_routes has_static_routes
  apply_static_routes-none files [] s e = refl
  apply_static_routes-none files (zone ∷ zones) s e = elim (Bool-cases (is_exclusive zone.mode)) [
    | inl x ↦ rw x (apply_static_routes-none files zones s (ground arith))
    | inr x ↦ rw x (
        ap (apply_static_routes adder iter parse_v6 files zones)
          (apply_zone-none files zone zone.static_routes s (ground arith))
        ∙ apply_static_routes-none files zones s (ground arith))
  ]
