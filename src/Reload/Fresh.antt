-- ===== src/Reload/Fresh.antt =====
-- The first query after a reload: src/dns/server.rs holds the handler's read lock for a whole
-- request, and the reload task the write lock for a whole configuration.
use leshy.Prelude.{
  ℕ, ◌≡◌, refl, sym, ◌∙◌, ap, true, Option, none, List, [], ◌∷◌, not, inl, inr, Bool-cases,
}
use mathlib.Core.Path.{subst}
use leshy.Prelude.HashMap
use leshy.Prelude.HashMap.{HashMap}
use leshy.Prelude.Results.{Result, ok}
use leshy.Prelude.Text.{Str}
use leshy.Config.{Config, DnsProtocol, SocketAddr}
use leshy.Zones
use leshy.Zones.{RegexEngine, Zone}
use leshy.Routing.Manager.{RouteAdder, FileRead}
use leshy.Dns.Cache
use leshy.Dns.Cache.{is_enabled}
use leshy.Dns.Message.{Hickory}
use leshy.Dns.Handler.{
  DnsHandler, Request, check_cache, forward, handle_request, update_config, cleanup_zone,
}
use leshy.Dns.Handler.Static.{update_config-cache}
use leshy.Reload.{apply_config, cleanup_zones, get_zones_to_cleanup}

module _ (to_lowercase : Str → Str) (regex : RegexEngine) (hickory : Hickory) (K : Type 0) where
  abbrev Shared : Type 0
  Shared = DnsHandler to_lowercase regex hickory K

  abbrev Empty : Shared → Type 0
  Empty self = self.cache ≡ Cache.new self.config.server.cache_size

  check_cache-Empty :
      (now : ℕ) (self : Shared) (r : Request to_lowercase regex hickory K)
      → Empty self
      → check_cache to_lowercase regex hickory K now self r ≡ (none, self)
  unfolding check_cache Cache.lookup Cache.new HashMap.get
  check_cache-Empty now self r e =
      let With = λ (c : Cache.DnsCache hickory.RecordType hickory.Message).
        check_cache to_lowercase regex hickory K now (record self { cache = c }) r
        ≡ (none, record self { cache = c }) in
      subst With (sym e)
        (elim (Bool-cases (
          is_enabled (
            Cache.new {R = hickory.RecordType} {M = hickory.Message}
              self.config.server.cache_size))) [
                | inl on ↦ rw (on, check_cache) refl
                | inr off ↦ rw (off, check_cache) refl
              ])

  handle_request-Empty :
      (query : DnsProtocol → ℕ → SocketAddr → Result hickory.Message hickory.ResponseCode) (now : ℕ)
      (self : Shared) (r : Request to_lowercase regex hickory K)
      → Empty self
      → r.is_query ≡ true
      → handle_request to_lowercase regex hickory K query now self r
        ≡ forward to_lowercase regex hickory K query now self r
  unfolding handle_request
  handle_request-Empty query now self r e asks =
      let checked = check_cache-Empty now self r e in
      let none_found = ap (λ (x : Option hickory.Message × Shared). x.0) checked in
      let same = ap (λ (x : Option hickory.Message × Shared). x.1) checked in
      rw (ap not asks, none_found, handle_request)
        (ap (λ (h : Shared). forward to_lowercase regex hickory K query now h r) same)

  module _ (adder : RouteAdder K) (iter : HashMap ℕ Str → List (ℕ × Str))
      (parse_v6 : Str → Option ℕ) where
    cleaned-cache :
        (names : List Str) (self : Shared)
        → let h = cleanup_zones to_lowercase regex hickory adder iter parse_v6 self names in
          (h.cache ≡ self.cache) × (h.config ≡ self.config)
    unfolding cleanup_zones cleanup_zone
    cleaned-cache [] self = (refl, refl)
    cleaned-cache (n ∷ names) self =
        cleaned-cache names (cleanup_zone to_lowercase regex hickory K self n)

    apply_config-Empty :
        (files : Str → FileRead) (self : Shared) (c : Config) (matcher : List (Zone regex.RegexSet))
        → self.cache.max_entries ≡ self.config.server.cache_size
        → Zones.new to_lowercase regex c.zones ≡ ok matcher
        → Empty (apply_config to_lowercase regex hickory adder iter parse_v6 files self c).0
    unfolding apply_config update_config
    apply_config-Empty files self c matcher size e =
        let names = get_zones_to_cleanup self.config.zones c.zones in
        let cleaned = cleanup_zones to_lowercase regex hickory adder iter parse_v6 self names in
        let (cache, config) = cleaned-cache names self in
        rw (e, apply_config)
          (update_config-cache to_lowercase regex hickory K cleaned c matcher (
            ap (λ (x : Cache.DnsCache hickory.RecordType hickory.Message). x.max_entries) cache
            ∙ size
            ∙ ap (λ (x : Config). x.server.cache_size) (sym config)))

    -- If the cache has the size of the old configuration, and the matcher of the new one can be
    -- built, the first query after the reload is not answered from the cache, whatever was cached:
    -- it is forwarded as the new configuration says.
    pub handle_request-reloaded :
        (files : Str → FileRead) (self : Shared) (c : Config) (matcher : List (Zone regex.RegexSet))
        (query : DnsProtocol → ℕ → SocketAddr → Result hickory.Message hickory.ResponseCode)
        (now : ℕ) (r : Request to_lowercase regex hickory K)
        → self.cache.max_entries ≡ self.config.server.cache_size
        → Zones.new to_lowercase regex c.zones ≡ ok matcher
        → r.is_query ≡ true
        → let h = (apply_config to_lowercase regex hickory adder iter parse_v6 files self c).0 in
          (h.config ≡ c)
          × ((h.matcher ≡ matcher)
              × (handle_request to_lowercase regex hickory K query now h r
                  ≡ forward to_lowercase regex hickory K query now h r))
    unfolding apply_config update_config
    handle_request-reloaded files self c matcher query now r size e asks =
        let h = (apply_config to_lowercase regex hickory adder iter parse_v6 files self c).0 in
        let handled =
          handle_request-Empty query now h r (apply_config-Empty files self c matcher size e)
            asks in
        (rw (e, apply_config) refl, (rw (e, apply_config) refl, handled))
