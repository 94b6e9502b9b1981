-- ===== src/Dns/Transport/Failures.antt =====
-- The failures of an exchange, and the reply when no server can be reached.
use mathlib.Core.Path.{subst}
use leshy.Prelude.{
  ℕ, ◌≡◌, ◌⊎◌, inl, inr, refl, Option, none, some, List, [], ◌∷◌, ◌++◌, ◌+◌, arith, Bool, true,
  false, length, Bool-cases,
}
use leshy.Prelude.Results.{Result, ok, err, ◌>>=◌, Result-cases}
use leshy.Config.{SocketAddr, DnsProtocol, udp, tcp}
use leshy.Dns.Message.{Hickory}
use leshy.Dns.Upstream.{Upstream, failover, is_refusal, is_code}
use leshy.Dns.Transport.{
  Timed, done, failed, timed_out, Datagrams, Streams, Forwarded, Codec, forward_query,
  forward_query_tcp, query_msg, len_prefix, exchange, succeeded, found, in_time,
}

module _ (hickory : Hickory) where
  open hickory use {Message, ResponseCode, code_eq, serv_fail, refused, response_code}

  -- No failure but `ServFail`.
  abbrev pub OnlyServFail : {A : Type 0} → Result A ResponseCode → Type 0
  OnlyServFail r = (code : ResponseCode) → r ≡ err code → code ≡ serv_fail

  then :
      {A B : Type 0} (r : Result A ResponseCode) (f : A → Result B ResponseCode)
      → OnlyServFail r
      → ((a : A) → OnlyServFail (f a))
      → OnlyServFail (r >>= f)
  then (ok a) f first rest = rest a
  then (err e) f first rest = λ code same. (let is = first e refl in ground arith)

  module _ (OpCode : Type 0) (codec : Codec hickory OpCode) where
    succeeded-fails : (test : Bool) → OnlyServFail (succeeded hickory OpCode test)
    unfolding succeeded
    succeeded-fails true = λ code e. absurd (ground arith)
    succeeded-fails false = λ code e. ground arith

    found-fails : {A : Type 0} (o : Option A) → OnlyServFail (found hickory OpCode o)
    unfolding found
    found-fails none = λ code e. ground arith
    found-fails (some a) = λ code e. absurd (ground arith)

    in_time-fails : {A : Type 0} (t : Timed A) → OnlyServFail (in_time hickory OpCode t)
    unfolding in_time
    in_time-fails (done a) = λ code e. absurd (ground arith)
    in_time-fails failed = λ code e. ground arith
    in_time-fails timed_out = λ code e. ground arith

    forward_query-fails :
        (net : Datagrams) (request : Forwarded hickory OpCode) (upstream : SocketAddr)
        → OnlyServFail (forward_query hickory OpCode codec net request upstream)
    unfolding forward_query
    forward_query-fails net request upstream =
        then _ _
          (then _ _
            (then _ _ (succeeded-fails net.bind) (λ u. succeeded-fails (net.connect upstream)))
            (λ u. found-fails (codec.to_vec (query_msg hickory OpCode request))))
          (λ bytes.
            then _ _
              (then _ _ (succeeded-fails (net.send upstream bytes))
                (λ u. in_time-fails (net.recv upstream bytes 4096)))
              (λ datagram. found-fails (codec.from_vec datagram)))

    forward_query_tcp-fails :
        (net : Streams) (request : Forwarded hickory OpCode) (upstream : SocketAddr)
        → OnlyServFail (forward_query_tcp hickory OpCode codec net request upstream)
    unfolding forward_query_tcp
    forward_query_tcp-fails net request upstream =
        then _ _ (in_time-fails (net.connect upstream)) λ stream.
          then _ _ (found-fails (codec.to_vec (query_msg hickory OpCode request))) λ bytes.
            (let prefix = len_prefix (length bytes) in
              then _ _
                (then _ _
                  (then _ _ (succeeded-fails (net.write_all upstream [] prefix))
                    (λ u. succeeded-fails (net.write_all upstream prefix bytes)))
                  (λ u. in_time-fails (net.read_u16 (net.incoming upstream (prefix ++ bytes)))))
                λ head.
                  then _ _ (in_time-fails (net.read_exact head.0 head.1))
                    λ body. found-fails (codec.from_vec body.0))

    -- Whatever fails in an exchange, by either protocol, is reported as `ServFail`.
    pub exchange-fails :
        (datagrams : ℕ → Datagrams) (streams : ℕ → Streams) (request : Forwarded hickory OpCode)
        (protocol : DnsProtocol) (i : ℕ) (upstream : SocketAddr)
        → OnlyServFail (exchange hickory OpCode codec datagrams streams request protocol i upstream)
    unfolding exchange
    exchange-fails datagrams streams request udp i upstream =
        forward_query-fails (datagrams i) request upstream
    exchange-fails datagrams streams request tcp i upstream =
        forward_query_tcp-fails (streams i) request upstream

  -- The codes that a failed query is answered with.
  abbrev pub IsFailureCode : ResponseCode → Type 0
  IsFailureCode code = (code ≡ serv_fail) ⊎ (code ≡ refused)

  refusal-code :
      (response : Message)
      → is_refusal hickory response ≡ true
      → IsFailureCode (response_code response)
  unfolding is_refusal is_code
  refusal-code response e = elim (Bool-cases (code_eq.test (response_code response) serv_fail)) [
    | inl t ↦ inl ((code_eq.decides (response_code response) serv_fail).0 t)
    | inr f ↦ inr ((code_eq.decides (response_code response) refused).0 (ground arith))
  ]

  pub failover-fails :
      (query : ℕ → SocketAddr → Result Message ResponseCode)
      → ((i : ℕ) (upstream : SocketAddr) → OnlyServFail (query i upstream))
      → (i : ℕ) (last code : ResponseCode) (servers : List Upstream) → IsFailureCode last
      → failover hickory query i last servers ≡ err code
      → IsFailureCode code
  unfolding failover
  failover-fails query only i last code [] is e = subst IsFailureCode (ground arith) is
  failover-fails query only i last code ((upstream, cfg) ∷ servers) is e =
      elim (Result-cases (query i upstream)) [
        | inr (rcode, f) ↦
            let next =
              failover-fails query only (i + 1) rcode code servers
                (inl (only i upstream rcode f)) in
            next (ground arith)
        | inl (response, f) ↦ elim (Bool-cases (is_refusal hickory response)) [
          | inl t ↦
              failover-fails query only (i + 1) (response_code response) code servers
                (refusal-code response t) (ground arith)
          | inr t ↦ absurd (ground arith)
        ]
      ]
