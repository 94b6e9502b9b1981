-- ===== src/Tests/Exchange.antt =====
-- Exchanges with a server at concrete inputs.
use leshy.Prelude.{
  ◌+◌, ◌*◌, ◌-◌, if◌then◌else◌, length, eqb, ℕ, ◌≡◌, ◌⊎◌, refl, none, some, [], ◌∷◌, ◌++◌, arith,
  true, false, nat_eq, list_eq,
}
use leshy.Prelude.Results.{ok}
use leshy.Prelude.Text.{codes}
use leshy.Zones
use leshy.Routing.Aggregator.Replay.{Kernel}
use leshy.Dns.Handler.{handle_request, check_cache, forward}
use leshy.Dns.Handler.Errors.{upstreams_of, handle_request-errors}
use leshy.Dns.Upstream.Failover.{AllFail}
use leshy.Dns.Upstream
use leshy.Dns.Cache
use leshy.Prelude.HashMap
use leshy.Dns.Transport.{
  Bytes, Timed, failed, Codec, Streams, Datagrams, Forwarded, done, timed_out, forward_query_tcp,
  query_msg, len_prefix, exchange, forward_query, succeeded, in_time, found,
}
use leshy.Dns.Transport.Frame.{forward_query_tcp-frames}
use leshy.Dns.Transport.Failures.{IsFailureCode}
use leshy.Tests.Fixtures.{lower, plain, resolver}
use leshy.Tests.Answers.{hickory, handler}
use leshy.Tests.Running.{asked}

-- A codec whose messages are a code before nothing, over a stream that answers with two bytes more.
abbrev codec : Codec hickory ℕ
codec = record {
  to_vec = λ m. some (m.id ∷ m.op_code ∷ []);
  from_vec = λ bytes. elim bytes [ [] ↦ none | code ∷ rest ↦ some (code, []) ];
}

abbrev big_endian : Bytes → Timed (ℕ × Bytes)
big_endian (high ∷ low ∷ rest) = done (high * 256 + low, rest)
big_endian _ = timed_out

abbrev front : ℕ → Bytes → Timed (Bytes × Bytes)
front n [] = if eqb n 0 then done ([], []) else failed
front n (b ∷ bytes) =
    let rest = front (n - 1) bytes in
    if eqb n 0
    then done ([], b ∷ bytes)
    else elim rest [ done (read, left) ↦ done (b ∷ read, left) | other ↦ other ]

front-append : (m rest : Bytes) → front (length m) (m ++ rest) ≡ done (m, rest)
front-append [] [] = refl
front-append [] (b ∷ rest) = refl
front-append (b ∷ m) rest = ground (arith, front-append m rest)

abbrev streams : Streams
streams = record {
  connect = λ address. done tt;
  write_all = λ address before sent. true;
  incoming = λ address written. 0 ∷ 1 ∷ 3 ∷ 9 ∷ 9 ∷ [];
  read_u16 = big_endian;
  read_exact = front;
}

abbrev forwarded : Forwarded hickory ℕ
forwarded = record {
  id = 7;
  op_code = 0;
  recursion_desired = true;
  name = codes "x.a.b.";
  query_type = 1;
}

forward_query_tcp-frames_example :
    forward_query_tcp hickory ℕ codec streams forwarded resolver ≡ ok (3, [])
unfolding query_msg len_prefix
forward_query_tcp-frames_example =
    forward_query_tcp-frames hickory ℕ codec streams forwarded resolver (7 ∷ 0 ∷ []) (3 ∷ [])
      (9 ∷ 9 ∷ []) (3, []) (record { two = λ high low rest. refl; many = front-append }) refl refl
      (λ before sent. refl) refl (omega arith) refl

-- No datagram comes back.
abbrev silence : ℕ → Datagrams
silence i = record {
  bind = true;
  connect = λ address. true;
  send = λ address sent. true;
  recv = λ address sent size. timed_out;
}

handle_request-errors_example :
    ((asked.is_query ≡ false) × (hickory.serv_fail ≡ hickory.not_imp))
    ⊎ ((asked.is_query ≡ true)
        × IsFailureCode hickory hickory.serv_fail
        × AllFail hickory
            (exchange hickory ℕ codec silence
              (λ i. streams)
              forwarded
              (upstreams_of lower plain hickory Kernel handler asked).1)
            0
            (upstreams_of lower plain hickory Kernel handler asked).0
            hickory.serv_fail
            hickory.serv_fail)
unfolding handle_request check_cache forward exchange forward_query succeeded in_time found
    query_msg Upstream.failover Upstream.upstreams Upstream.default_upstreams Zones.find_zone
    Zones.first_match Cache.is_enabled Cache.lookup HashMap.get
handle_request-errors_example =
    handle_request-errors lower plain hickory Kernel ℕ codec silence (λ i. streams) forwarded 100
      handler asked hickory.serv_fail refl
