-- ===== src/Dns/Handler/Kept.antt =====
-- What a request leaves as it was: all of the handler but the contents of its cache.
use leshy.Prelude.{
  ℕ, ◌≡◌, refl, ◌∙◌, Option, inl, inr, Bool-cases, Option-cases, not, ◌&&◌, [], ◌∷◌,
}
use leshy.Prelude.Results.{Result, Result-cases}
use leshy.Prelude.Text.{Str}
use leshy.Config.{DnsServerConfig, DnsProtocol, SocketAddr}
use leshy.Zones.{RegexEngine, MatchedZone, find_zone}
use leshy.Dns.Cache.{DnsCache, is_enabled}
use leshy.Dns.Cache.Live.{IsValid}
use leshy.Dns.Cache.Bound.{get, put, run, run-max_entries, lookup-IsValid, insert-IsValid}
use leshy.Dns.Message.{Hickory}
use leshy.Dns.Upstream.{upstreams, failover, resolve_cache_ttl, is_code}
use leshy.Dns.Handler.{
  DnsHandler, Request, check_cache, matched_config, reply_with, forward, handle_request,
}

module _ (to_lowercase : Str → Str) (regex : RegexEngine) (hickory : Hickory) (K : Type 0) where
  open hickory use {Message, type_eq, serv_fail, response_code}

  abbrev Cache : Type 0
  Cache = DnsCache hickory.RecordType Message

  -- The second handler is the first with another cache of the same size, valid if the first was.
  pub record Keeps (self self' : DnsHandler to_lowercase regex hickory K) : Type 0 where
    pub same_config : self'.config ≡ self.config
    pub same_matcher : self'.matcher ≡ self.matcher
    pub same_manager : self'.route_manager ≡ self.route_manager
    pub same_size : self'.cache.max_entries ≡ self.cache.max_entries
    pub stays_valid : IsValid ⦃r = type_eq⦄ self.cache → IsValid ⦃r = type_eq⦄ self'.cache

  same : (self : DnsHandler to_lowercase regex hickory K) → Keeps self self
  same self = record {
    same_config = refl;
    same_matcher = refl;
    same_manager = refl;
    same_size = refl;
    stays_valid = λ v. v;
  }

  with_cache :
      (self : DnsHandler to_lowercase regex hickory K) (c : Cache)
      → c.max_entries ≡ self.cache.max_entries
      → (IsValid ⦃r = type_eq⦄ self.cache → IsValid ⦃r = type_eq⦄ c)
      → Keeps self (record self { cache = c })
  with_cache self c size valid = record {
    same_config = refl;
    same_matcher = refl;
    same_manager = refl;
    same_size = size;
    stays_valid = valid;
  }

  also : (a b c : DnsHandler to_lowercase regex hickory K) → Keeps a b → Keeps b c → Keeps a c
  also a b c k l = record {
    same_config = l.same_config ∙ k.same_config;
    same_matcher = l.same_matcher ∙ k.same_matcher;
    same_manager = l.same_manager ∙ k.same_manager;
    same_size = l.same_size ∙ k.same_size;
    stays_valid = λ v. l.stays_valid (k.stays_valid v);
  }

  module _ (query : DnsProtocol → ℕ → SocketAddr → Result Message hickory.ResponseCode) (now : ℕ)
      (request : Request to_lowercase regex hickory K) where
    pub check_cache-Keeps :
        (self : DnsHandler to_lowercase regex hickory K)
        → Keeps self (check_cache to_lowercase regex hickory K now self request).1
    unfolding check_cache run
    check_cache-Keeps self = elim (Bool-cases (is_enabled self.cache)) [
      | inl on ↦
          rw (on, check_cache)
            (with_cache self _
              (run-max_entries to_lowercase ⦃r = type_eq⦄ (get now request.qname request.qtype ∷ [])
                self.cache)
              (lookup-IsValid to_lowercase ⦃r = type_eq⦄ now request.qname request.qtype
                self.cache))
      | inr off ↦ rw (off, check_cache) (same self)
    ]

    reply_with-Keeps :
        (self : DnsHandler to_lowercase regex hickory K) (zone : Option MatchedZone)
        (response : Message) (cfg : Option DnsServerConfig)
        → Keeps self
            (reply_with to_lowercase regex hickory K now self request zone response cfg).handler
    unfolding reply_with run
    reply_with-Keeps self zone response cfg =
        elim (Bool-cases
          (is_enabled self.cache && not (is_code hickory (response_code response) serv_fail))) [
            | inr off ↦ rw (off, reply_with) (same self)
            | inl on ↦
                elim (Option-cases (
                  resolve_cache_ttl hickory cfg (matched_config zone) self.config.server
                    response)) [
                      | inl e ↦ rw (on, e, reply_with) (same self)
                      | inr (ttl, e) ↦
                          rw (on, e, reply_with)
                            (with_cache self _
                              (run-max_entries to_lowercase ⦃r = type_eq⦄
                                (put now request.qname request.qtype response ttl ∷ []) self.cache)
                              (insert-IsValid to_lowercase ⦃r = type_eq⦄ now request.qname
                                request.qtype response ttl self.cache))
                    ]
          ]

    pub forward-Keeps :
        (self : DnsHandler to_lowercase regex hickory K)
        → Keeps self (forward to_lowercase regex hickory K query now self request).handler
    unfolding forward
    forward-Keeps self =
        let zone = find_zone to_lowercase regex self.matcher request.qname in
        let up = upstreams self.config.server zone in
        elim (Result-cases (failover hickory (query up.1) 0 serv_fail up.0)) [
          | inl ((response, cfg), e) ↦ rw (e, forward) (reply_with-Keeps self zone response cfg)
          | inr (code, e) ↦ rw (e, forward) (same self)
        ]

    pub handle_request-Keeps :
        (self : DnsHandler to_lowercase regex hickory K)
        → Keeps self (handle_request to_lowercase regex hickory K query now self request).handler
    unfolding handle_request
    handle_request-Keeps self =
        let checked = check_cache to_lowercase regex hickory K now self request in
        let kept = check_cache-Keeps self in
        elim (Bool-cases (not request.is_query)) [
          | inl e ↦ rw (e, handle_request) (same self)
          | inr e ↦ elim (Option-cases checked.0) [
            | inl f ↦
                rw (e, f, handle_request) (also self checked.1 _ kept (forward-Keeps checked.1))
            | inr (m, f) ↦ rw (e, f, handle_request) kept
          ]
        ]
