-- ===== src/Dns/Handler/Errors.antt =====
-- The error replies of the handler over the exchanges with the servers.
use leshy.Prelude.{
  ℕ, List, ◌≡◌, ◌⊎◌, inl, inr, refl, ◌∙◌, ap, Option, arith, true, false, not, ◌&&◌, Option-cases,
  Bool-cases,
}
use leshy.Prelude.Results.{Result, err, Result-cases}
use leshy.Prelude.Text.{Str}
use leshy.Config.{DnsProtocol, SocketAddr, DnsServerConfig}
use leshy.Zones.{RegexEngine, MatchedZone, find_zone}
use leshy.Dns.Cache.{is_enabled}
use leshy.Dns.Message.{Hickory}
use mathlib.Core.Path.{subst}
use leshy.Dns.Upstream.Failover.{AllFail, failover-Outcome}
use leshy.Dns.Upstream.{Upstream, upstreams, failover, resolve_cache_ttl, is_code}
use leshy.Dns.Transport.{Datagrams, Streams, Forwarded, Codec, exchange}
use leshy.Dns.Transport.Failures.{IsFailureCode, OnlyServFail, exchange-fails, failover-fails}
use leshy.Dns.Handler.{
  DnsHandler, Request, error_msg, handle_request, forward, reply_with, check_cache, matched_config,
}

module _ (to_lowercase : Str → Str) (regex : RegexEngine) (hickory : Hickory) (K : Type 0) where
  open hickory use {Message, ResponseCode, serv_fail, not_imp, response_code}

  reply_with-answers :
      (now : ℕ) (self : DnsHandler to_lowercase regex hickory K)
      (request : Request to_lowercase regex hickory K) (zone : Option MatchedZone)
      (response : Message) (cfg : Option DnsServerConfig) (code : ResponseCode)
      → ¬ (
          (reply_with to_lowercase regex hickory K now self request zone response cfg).reply
          ≡ error_msg code)
  unfolding reply_with
  reply_with-answers now self request zone response cfg code e =
      elim (Bool-cases
        (is_enabled self.cache && not (is_code hickory (response_code response) serv_fail))) [
          | inr off ↦ absurd (ground arith)
          | inl on ↦
              elim (Option-cases
                (resolve_cache_ttl hickory cfg (matched_config zone) self.config.server response)) [
                  | inl f ↦ absurd (ground arith)
                  | inr (ttl, f) ↦ absurd (ground arith)
                ]
        ]

  -- The servers of a request with their protocol.
  abbrev pub upstreams_of :
      DnsHandler to_lowercase regex hickory K
      → Request to_lowercase regex hickory K
      → List Upstream × DnsProtocol
  upstreams_of self request =
      upstreams self.config.server (find_zone to_lowercase regex self.matcher request.qname)

  failed-AllFail :
      (query : ℕ → SocketAddr → Result Message ResponseCode) (i : ℕ) (last code : ResponseCode)
      (servers : List Upstream)
      → failover hickory query i last servers ≡ err code
      → AllFail hickory query i servers last code
  failed-AllFail query i last code servers e =
      elim (failover-Outcome hickory query i last servers) [
        | inl (before, s, after, response, l, split, fail, answer, fine, r) ↦ absurd (ground arith)
        | inr (l, fail, r) ↦ subst (AllFail hickory query i servers last) (ground arith) fail
      ]

  forward-errors :
      (query : DnsProtocol → ℕ → SocketAddr → Result Message ResponseCode)
      → ((protocol : DnsProtocol) (i : ℕ) (upstream : SocketAddr)
          → OnlyServFail hickory (query protocol i upstream))
      → (now : ℕ) (self : DnsHandler to_lowercase regex hickory K)
        (request : Request to_lowercase regex hickory K) (code : ResponseCode)
      → (forward to_lowercase regex hickory K query now self request).reply ≡ error_msg code
      → let up = upstreams_of self request in
        IsFailureCode hickory code × AllFail hickory (query up.1) 0 up.0 serv_fail code
  unfolding forward
  forward-errors query only now self request code =
      let zone = find_zone to_lowercase regex self.matcher request.qname in
      let up = upstreams self.config.server zone in
      elim (Result-cases (failover hickory (query up.1) 0 serv_fail up.0)) [
        | inl ((response, cfg), e) ↦
            rw (e, forward)
              (λ r. absurd (reply_with-answers now self request zone response cfg code r))
        | inr (last, e) ↦
            rw (e, forward)
              (λ r.
                let failed = e ∙ ap err (ground arith) in
                (
                  failover-fails hickory (query up.1) (only up.1) 0 serv_fail code up.0 (inl refl)
                      failed,
                  failed-AllFail (query up.1) 0 serv_fail code up.0 failed,
                ))
      ]

  -- The cache leaves the servers of a request as they are.
  check_cache-upstreams_of :
      (now : ℕ) (self : DnsHandler to_lowercase regex hickory K)
      (request : Request to_lowercase regex hickory K)
      → upstreams_of (check_cache to_lowercase regex hickory K now self request).1 request
        ≡ upstreams_of self request
  unfolding check_cache
  check_cache-upstreams_of now self request = elim (Bool-cases (is_enabled self.cache)) [
    | inl on ↦ rw (on, check_cache) refl
    | inr off ↦ rw (off, check_cache) refl
  ]

  -- With the exchanges of the two protocols as its queries, the handler sends an error only for a
  -- request that is no query, and that is `NotImp`, or for a query of whose servers every one, tried
  -- in their order, failed, and that is the last one's code, which is `ServFail` or `Refused`,
  -- whatever the network and the servers do.
  pub handle_request-errors :
      (OpCode : Type 0) (codec : Codec hickory OpCode) (datagrams : ℕ → Datagrams)
      (streams : ℕ → Streams) (forwarded : Forwarded hickory OpCode) (now : ℕ)
      (self : DnsHandler to_lowercase regex hickory K)
      (request : Request to_lowercase regex hickory K) (code : ResponseCode)
      → (handle_request to_lowercase regex hickory K
          (exchange hickory OpCode codec datagrams streams forwarded)
          now
          self
          request).reply
        ≡ error_msg code
      → ((request.is_query ≡ false) × (code ≡ not_imp))
        ⊎ ((request.is_query ≡ true)
            × IsFailureCode hickory code
            × AllFail hickory
                (exchange hickory OpCode codec datagrams streams forwarded
                  (upstreams_of self request).1)
                0
                (upstreams_of self request).0
                serv_fail
                code)
  unfolding handle_request
  handle_request-errors OpCode codec datagrams streams forwarded now self request code =
      let query = exchange hickory OpCode codec datagrams streams forwarded in
      let checked = check_cache to_lowercase regex hickory K now self request in
      elim (Bool-cases (not request.is_query)) [
        | inl e ↦
            let no_query : request.is_query ≡ false = ground arith in
            rw (e, handle_request) (λ r. inl (no_query, ground arith))
        | inr e ↦
            let is_query : request.is_query ≡ true = ground arith in
            elim (Option-cases checked.0) [
              | inl f ↦
                  rw (e, f, handle_request)
                    λ r.
                      let (is, all) =
                        forward-errors query
                          (exchange-fails hickory OpCode codec datagrams streams forwarded) now
                          checked.1 request code r in
                      inr (
                        is_query,
                        is,
                        subst
                            (λ (up : List Upstream × DnsProtocol).
                              AllFail hickory (query up.1) 0 up.0 serv_fail code)
                            (check_cache-upstreams_of now self request) all,
                      )
              | inr (m, f) ↦ rw (e, f, handle_request) (λ r. absurd (ground arith))
            ]
      ]
