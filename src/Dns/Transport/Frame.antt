-- ===== src/Dns/Transport/Frame.antt =====
-- A message on a stream: what one side writes, the other reads.
use leshy.Prelude.{
  ℕ, ◌+◌, ◌*◌, ◌/◌, ◌%◌, ◌∙◌, ◌<◌, ◌≡◌, refl, ap, some, [], ◌∷◌, ◌++◌, arith, length, true,
}
use leshy.Prelude.Results.{ok}
use leshy.Config.{SocketAddr}
use leshy.Dns.Message.{Hickory}
use leshy.Dns.Transport.{
  Bytes, done, Streams, Forwarded, Codec, query_msg, len_prefix, forward_query_tcp, succeeded,
  found, in_time,
}

-- What the reads do: two bytes are a big-endian number, and so many bytes are read as are asked for.
pub record Reads (net : Streams) : Type 0 where
  pub two :
      (high low : ℕ) (rest : Bytes)
      → net.read_u16 (high ∷ low ∷ rest) ≡ done (high * 256 + low, rest)
  pub many : (m rest : Bytes) → net.read_exact (length m) (m ++ rest) ≡ done (m, rest)

-- A message behind its length.
abbrev pub frame : Bytes → Bytes
frame m = len_prefix (length m) ++ m

read_u16-frame :
    (net : Streams) (m rest : Bytes)
    → Reads net
    → length m < 65536
    → net.read_u16 (frame m ++ rest) ≡ done (length m, m ++ rest)
unfolding len_prefix
read_u16-frame net m rest reads lt =
    reads.two (length m % 65536 / 256) (length m % 65536 % 256) (m ++ rest)
    ∙ ap (λ (n : ℕ). done (n, m ++ rest)) (omega arith)

module _ (hickory : Hickory) (OpCode : Type 0) where
  open hickory use {Message, ResponseCode}

  -- If the reads do what they say, the connection and the writes succeed, and the query can be
  -- encoded and the message decoded: to a server that answers the query, behind its length, with a
  -- message of less than 65536 bytes behind its length, that message is the answer, whatever bytes
  -- follow.
  pub forward_query_tcp-frames :
      (codec : Codec hickory OpCode) (net : Streams) (request : Forwarded hickory OpCode)
      (upstream : SocketAddr) (bytes m rest : Bytes) (response : Message)
      → Reads net
      → net.connect upstream ≡ done tt
      → codec.to_vec (query_msg hickory OpCode request) ≡ some bytes
      → ((before sent : Bytes) → net.write_all upstream before sent ≡ true)
      → net.incoming upstream (frame bytes) ≡ frame m ++ rest
      → length m < 65536
      → codec.from_vec m ≡ some response
      → forward_query_tcp hickory OpCode codec net request upstream ≡ ok response
  unfolding forward_query_tcp succeeded found in_time
  forward_query_tcp-frames codec net request upstream bytes m rest response reads connected encoded
        written arrives lt decoded =
      rw
        (
          forward_query_tcp,
          connected,
          encoded,
          written [] (len_prefix (length bytes)),
          written (len_prefix (length bytes)) bytes,
          arrives,
          read_u16-frame net m rest reads lt,
          reads.many m rest,
          decoded,
        )
        refl
