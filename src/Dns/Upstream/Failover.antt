-- ===== src/Dns/Upstream/Failover.antt =====
-- Which server's answer the failover takes.
use mathlib.Core.Path.{subst}
use leshy.Prelude.{
  ℕ, suc, ◌+◌, ◌≡◌, refl, sym, ◌∙◌, ap, ◌⊎◌, inl, inr, false, Option, none, some, List, [], ◌∷◌,
  ◌++◌, arith, length, if◌then◌else◌, Bool-cases, Option-cases,
}
use leshy.Prelude.Results.{Result, ok, err, Result-cases}
use leshy.Config.{SocketAddr, DnsServerConfig}
use leshy.Dns.Message.{Hickory}
use leshy.Dns.Upstream.{Upstream, is_refusal, failover}

module _ (hickory : Hickory) where
  open hickory use {Message, ResponseCode, response_code}

  -- The code of an attempt that failed: the transport's, or the server's own if it refuses.
  pub failure : Result Message ResponseCode → Option ResponseCode
  failure (err code) = some code
  failure (ok response) =
      if is_refusal hickory response then some (response_code response) else none

  no_failure :
      (result : Result Message ResponseCode)
      → failure result ≡ none
      → (response : Message) × (result ≡ ok response) × (is_refusal hickory response ≡ false)
  unfolding failure
  no_failure (err code) e = absurd (ground arith)
  no_failure (ok response) e = (response, refl, ground arith)

  module _ (query : ℕ → SocketAddr → Result Message ResponseCode) where
    -- The attempts from `i` on fail at every server, and the code of the last one, or `code` before
    -- the first, is the last argument.
    abbrev pub AllFail : ℕ → List Upstream → ResponseCode → ResponseCode → Type 0
    AllFail i [] code last = code ≡ last
    AllFail i (server ∷ servers) code last =
        (next : ResponseCode) × (failure (query i server.0) ≡ some next)
        × AllFail (i + 1) servers next last

    -- The first server that does not fail answers, or they all fail.
    abbrev pub Outcome :
        ℕ
        → ResponseCode
        → List Upstream
        → Result (Message × Option DnsServerConfig) ResponseCode
        → Type 0
    Outcome i code servers result =
        ((before : List Upstream) × (server : Upstream) × (after : List Upstream)
          × (response : Message) × (last : ResponseCode) × (servers ≡ before ++ server ∷ after)
          × AllFail i before code last
          × (query (i + length before) server.0 ≡ ok response)
          × (is_refusal hickory response ≡ false)
          × (result ≡ ok (response, server.1)))
        ⊎ ((last : ResponseCode) × AllFail i servers code last × (result ≡ err last))

    none_left : (i : ℕ) (code : ResponseCode) → failover hickory query i code [] ≡ err code
    unfolding failover
    none_left i code = refl

    next_server :
        (i : ℕ) (code next : ResponseCode) (server : Upstream) (servers : List Upstream)
        → failure (query i server.0) ≡ some next
        → failover hickory query i code (server ∷ servers)
          ≡ failover hickory query (i + 1) next servers
    unfolding failover failure
    next_server i code next (address, cfg) servers e = elim (Result-cases (query i address)) [
      | inl (r, x) ↦ elim (Bool-cases (is_refusal hickory r)) [
        | inl y ↦
            rw (x, failover)
              (rw y (
                ap (λ (c : ResponseCode). failover hickory query (i + 1) c servers) (ground arith)))
        | inr y ↦ absurd (ground arith)
      ]
      | inr (c, x) ↦
          rw (x, failover)
            (ap (λ (c : ResponseCode). failover hickory query (i + 1) c servers) (ground arith))
    ]

    this_server :
        (i : ℕ) (code : ResponseCode) (response : Message) (server : Upstream)
        (servers : List Upstream)
        → query i server.0 ≡ ok response
        → is_refusal hickory response ≡ false
        → failover hickory query i code (server ∷ servers) ≡ ok (response, server.1)
    unfolding failover
    this_server i code response (address, cfg) servers answer fine =
        rw (answer, failover) (rw fine refl)

    later :
        (i : ℕ) (code next : ResponseCode) (server : Upstream) (servers : List Upstream)
        (result : Result (Message × Option DnsServerConfig) ResponseCode)
        → failure (query i server.0) ≡ some next
        → Outcome (i + 1) next servers result
        → Outcome i code (server ∷ servers) result
    later i code next server servers result e
          (inl (before, s, after, response, last, split, fail, answer, fine, r)) =
        inl (
          server ∷ before,
          s,
          after,
          response,
          last,
          ap (λ l. server ∷ l) split,
          (next, e, fail),
          index ∙ answer,
          fine,
          r,
        )
      where
        index : query (i + suc (length before)) s.0 ≡ query (i + 1 + length before) s.0
        index = ap (λ (n : ℕ). query n s.0) (omega arith)
    later i code next server servers result e (inr (last, fail, r)) = inr (last, (next, e, fail), r)

    -- The failover tries the servers in order and returns the first answer that is neither a
    -- transport error nor SERVFAIL or REFUSED, with the settings of the server that gave it; if
    -- there is none, it returns the code of the last failure, and the given one without servers.
    pub failover-Outcome :
        (i : ℕ) (code : ResponseCode) (servers : List Upstream)
        → Outcome i code servers (failover hickory query i code servers)
    failover-Outcome i code [] = inr (code, refl, none_left i code)
    failover-Outcome i code (server ∷ servers) = elim (Option-cases (failure (query i server.0))) [
      | inr (next, e) ↦
          subst (Outcome i code (server ∷ servers)) (sym (next_server i code next server servers e))
            (later i code next server servers (failover hickory query (i + 1) next servers) e
              (failover-Outcome (i + 1) next servers))
      | inl e ↦
          let (response, answer, fine) = no_failure (query i server.0) e in
          inl (
            [],
            server,
            servers,
            response,
            code,
            refl,
            refl,
            ap (λ (n : ℕ). query n server.0) (omega arith) ∙ answer,
            fine,
            this_server i code response server servers answer fine,
          )
    ]
