-- ===== src/Dns/Handler/Again.antt =====
-- A question that the handler has answered from a server, asked again.
use leshy.Prelude.{
  ℕ, ◌-◌, ◌≡◌, ◌≤◌, ◌<◌, refl, ◌∙◌, ap, true, false, Option, none, some, arith, ltb, Eq,
}
use leshy.Prelude.Results.{Result, ok}
use leshy.Prelude.Text.{Str}
use leshy.Config.{DnsServerConfig, DnsProtocol, SocketAddr}
use leshy.Zones.{RegexEngine, find_zone}
use leshy.Dns.Cache.{CacheKey, DnsCache, lookup, insert, is_enabled, key_of, key_eq, key_beq_iff}
use leshy.Dns.Cache.Live.{live, IsValid, accepts, lookup-live, insert-live}
use leshy.Dns.Cache.Bound.{lookup-IsValid}
use leshy.Dns.Message.{Hickory}
use leshy.Dns.Upstream.{upstreams, failover, resolve_cache_ttl, is_code}
use leshy.Dns.Handler.{
  DnsHandler, Request, built, Handled, check_cache, matched_config, reply_with, forward,
  handle_request,
}

module _ (to_lowercase : Str → Str) (regex : RegexEngine) (hickory : Hickory) (K : Type 0)
    (query : DnsProtocol → ℕ → SocketAddr → Result hickory.Message hickory.ResponseCode) where
  open hickory use {Message, type_eq, serv_fail, response_code, header, set_id}

  instance abbrev pub record_type : Eq hickory.RecordType
  record_type = type_eq

  -- the entry that a request asks for
  abbrev pub asks : Request to_lowercase regex hickory K → CacheKey hickory.RecordType
  asks request = key_of to_lowercase request.qname request.qtype

  module _ (now : ℕ) (self : DnsHandler to_lowercase regex hickory K)
      (request : Request to_lowercase regex hickory K) where
    -- The cache and the handler after the lookup.
    abbrev pub looked_up : Option Message × DnsCache hickory.RecordType Message
    looked_up = lookup to_lowercase ⦃r = type_eq⦄ now request.qname request.qtype self.cache

    abbrev pub after_lookup : DnsHandler to_lowercase regex hickory K
    after_lookup = record self { cache = looked_up.1 }

    check_cache-enabled :
        is_enabled self.cache ≡ true
        → check_cache to_lowercase regex hickory K now self request ≡ (looked_up.0, after_lookup)
    unfolding check_cache
    check_cache-enabled on = rw on refl

    handle_request-hit :
        (query' : DnsProtocol → ℕ → SocketAddr → Result Message hickory.ResponseCode) (m : Message)
        → request.is_query ≡ true
        → is_enabled self.cache ≡ true
        → looked_up.0 ≡ some m
        → (handle_request to_lowercase regex hickory K query' now self request).reply
          ≡ built (set_id request.id (header m)) m
    unfolding handle_request
    handle_request-hit query' m q on found =
        rw (check_cache-enabled on, handle_request) (rw found (simp (q) refl))

    handle_request-miss :
        request.is_query ≡ true
        → is_enabled self.cache ≡ true
        → looked_up.0 ≡ none
        → handle_request to_lowercase regex hickory K query now self request
          ≡ forward to_lowercase regex hickory K query now after_lookup request
    unfolding handle_request
    handle_request-miss q on miss =
        rw (check_cache-enabled on, handle_request)
          (rw miss (
            simp (q) (
              ap
                (λ (x : Option Message × DnsHandler to_lowercase regex hickory K).
                  forward to_lowercase regex hickory K query now x.1 request)
                (check_cache-enabled on))))

    forward-stores :
        (response : Message) (cfg : Option DnsServerConfig) (ttl : ℕ)
        → let zone = find_zone to_lowercase regex self.matcher request.qname in
          let up = upstreams self.config.server zone in
          is_enabled self.cache ≡ true
          → failover hickory (query up.1) 0 serv_fail up.0 ≡ ok (response, cfg)
          → is_code hickory (response_code response) serv_fail ≡ false
          → resolve_cache_ttl hickory cfg (matched_config zone) self.config.server response
            ≡ some ttl
          → (forward to_lowercase regex hickory K query now self request).handler.cache
            ≡ insert to_lowercase ⦃r = type_eq⦄ now request.qname request.qtype response ttl
                self.cache
    unfolding forward reply_with
    forward-stores response cfg ttl on ans fine time =
        rw (ans, forward) (rw (on, fine, reply_with) (rw time refl))

  insert-enabled :
      (now : ℕ) (qname : Str) (qtype : hickory.RecordType) (m : Message) (ttl : ℕ)
      (c : DnsCache hickory.RecordType Message)
      → is_enabled (insert to_lowercase now qname qtype m ttl c) ≡ is_enabled c
  unfolding insert is_enabled
  insert-enabled now qname qtype m ttl c =
      let e : (insert to_lowercase now qname qtype m ttl c).max_entries ≡ c.max_entries =
        ground arith in
      ap (λ (n : ℕ). ltb 0 n) e

  -- In a handler whose cache is enabled and valid, a query that missed the cache and was answered
  -- by a server with a code other than SERVFAIL, whose TTL could be computed and whose answer the
  -- cache had room for, is answered from the cache when it is asked again, in any case of its
  -- letters and by any client, before its TTL has run out: the reply is the server's answer under
  -- the new request's id, whatever the servers would answer now.
  pub handle_request-again :
      (query' : DnsProtocol → ℕ → SocketAddr → Result hickory.Message hickory.ResponseCode)
      (now later ttl : ℕ) (self : DnsHandler to_lowercase regex hickory K)
      (request request' : Request to_lowercase regex hickory K) (response : Message)
      (cfg : Option DnsServerConfig)
      → let zone = find_zone to_lowercase regex self.matcher request.qname in
        let up = upstreams self.config.server zone in
        IsValid self.cache
        → now ≤ later
        → later - now < ttl
        → request.is_query ≡ true
        → request'.is_query ≡ true
        → asks request ≡ asks request'
        → (looked_up now self request).0 ≡ none
        → failover hickory (query up.1) 0 serv_fail up.0 ≡ ok (response, cfg)
        → is_code hickory (response_code response) serv_fail ≡ false
        → resolve_cache_ttl hickory cfg (matched_config zone) self.config.server response ≡ some ttl
        → accepts to_lowercase now (asks request) (looked_up now self request).1 ≡ true
        → is_enabled self.cache ≡ true
        → (handle_request to_lowercase regex hickory K query' later
            (handle_request to_lowercase regex hickory K query now self request).handler
            request').reply
          ≡ built (set_id request'.id (header response)) response
  handle_request-again query' now later ttl self request request' response cfg v le within q q' same
        miss ans fine time room on =
      let self1 = after_lookup now self request in
      let handled = handle_request to_lowercase regex hickory K query now self request in
      let e =
        ap (λ (h : Handled to_lowercase regex hickory K). h.handler.cache)
          (handle_request-miss now self request q on miss)
        ∙ forward-stores now self1 request response cfg ttl (ground arith) ans fine time in
      let on' : is_enabled handled.handler.cache ≡ true =
        ap is_enabled e
        ∙ insert-enabled now request.qname request.qtype response ttl self1.cache
        ∙ ground arith in
      let found =
        (lookup-live to_lowercase later later request'.qname request'.qtype handled.handler.cache
          (asks request') (omega arith)).0
        ∙ ap (λ (c : DnsCache hickory.RecordType Message). live later c (asks request')) e
        ∙ insert-live to_lowercase now later request.qname request.qtype response ttl self1.cache
            (asks request')
            (lookup-IsValid to_lowercase now request.qname request.qtype self.cache v) le
        ∙ ground (arith, key_beq_iff (asks request) (asks request')) in
      handle_request-hit later handled.handler request' query' response q' on' found
