-- ===== src/Dns/Transport.antt =====
-- src/dns/handler.rs: `forward_query` and `forward_query_tcp`, the exchange with one server.
-- Parameters are hickory's encoding of messages, and the network during one exchange: whether its
-- calls succeed, and the bytes that arrive before the time of a call is over. A byte is a number.
pub mod Frame
pub mod Failures
use leshy.Prelude.{
  ℕ, ◌+◌, ◌-◌, ◌*◌, ◌/◌, ◌%◌, Bool, true, false, Option, none, some, List, [], ◌∷◌, ◌++◌, length,
  eqb, if◌then◌else◌,
}
use leshy.Prelude.Results.{Result, ok, err, ◌>>=◌, ◌>>◌}
use leshy.Prelude.Text.{Str}
use leshy.Config.{SocketAddr, DnsProtocol, udp, tcp}
use leshy.Dns.Message.{Hickory}

abbrev pub Bytes : Type 0
Bytes = List ℕ

-- What a call under a timeout comes to.
pub data Timed {ℓ} (A : Type ℓ) : Type ℓ where
  done : A → Timed A
  failed : Timed A
  timed_out : Timed A

-- A socket: `recv` gets, for what was sent and the size of the buffer, what it puts into the buffer.
pub record Datagrams : Type 0 where
  pub bind : Bool
  pub connect : SocketAddr → Bool
  pub send : SocketAddr → Bytes → Bool
  pub recv : SocketAddr → Bytes → ℕ → Timed Bytes

-- A stream: whether a write succeeds after what was written before, what arrives for what was
-- written, and the two reads of what arrives, which give what they read and what is left.
pub record Streams : Type 0 where
  pub connect : SocketAddr → Timed (Unit {0})
  pub write_all : SocketAddr → Bytes → Bytes → Bool
  pub incoming : SocketAddr → Bytes → Bytes
  pub read_u16 : Bytes → Timed (ℕ × Bytes)
  pub read_exact : ℕ → Bytes → Timed (Bytes × Bytes)

-- `(len as u16).to_be_bytes()`
unfoldable pub len_prefix : ℕ → Bytes
len_prefix len = let n = len % 65536 in n / 256 ∷ n % 256 ∷ []

module _ (hickory : Hickory) (OpCode : Type 0) where
  open hickory use {Message, ResponseCode, RecordType, serv_fail}

  -- the client's request, as far as it is sent on
  pub record Forwarded : Type 0 where
    pub id : ℕ
    pub op_code : OpCode
    pub recursion_desired : Bool
    pub name : Str
    pub query_type : RecordType

  -- a message of the type `Query`
  pub record QueryMessage : Type 0 where
    pub queries : List (Str × RecordType)
    pub id : ℕ
    pub op_code : OpCode
    pub recursion_desired : Bool

  pub record Codec : Type 0 where
    pub to_vec : QueryMessage → Option Bytes
    pub from_vec : Bytes → Option Message

  unfoldable pub query_msg : Forwarded → QueryMessage
  query_msg request = record {
    queries = (request.name, request.query_type) ∷ [];
    id = request.id;
    op_code = request.op_code;
    recursion_desired = request.recursion_desired;
  }

  -- `map_err(|e| ServFail)?` on calls of three kinds
  unfoldable pub succeeded : Bool → Result (Unit {0}) ResponseCode
  succeeded test = if test then ok tt else err serv_fail

  unfoldable pub found {ℓ} : {A : Type ℓ} → Option A → Result A ResponseCode
  found none = err serv_fail
  found (some a) = ok a

  unfoldable pub in_time {ℓ} : {A : Type ℓ} → Timed A → Result A ResponseCode
  in_time (done a) = ok a
  in_time failed = err serv_fail
  in_time timed_out = err serv_fail

  unfoldable pub forward_query :
      Codec → Datagrams → Forwarded → SocketAddr → Result Message ResponseCode
  forward_query codec net request upstream =
      succeeded net.bind
      >> succeeded (net.connect upstream)
      >> found (codec.to_vec (query_msg request))
      >>= λ request_bytes.
          succeeded (net.send upstream request_bytes)
          >> in_time (net.recv upstream request_bytes 4096)
          >>= λ datagram. found (codec.from_vec datagram)

  unfoldable pub forward_query_tcp :
      Codec → Streams → Forwarded → SocketAddr → Result Message ResponseCode
  forward_query_tcp codec net request upstream = in_time (net.connect upstream) >>= λ stream.
      found (codec.to_vec (query_msg request)) >>= λ request_bytes.
      (let prefix = len_prefix (length request_bytes) in
        succeeded (net.write_all upstream [] prefix)
        >> succeeded (net.write_all upstream prefix request_bytes)
        >> in_time (net.read_u16 (net.incoming upstream (prefix ++ request_bytes)))
        >>= λ (resp_len, rest).
            in_time (net.read_exact resp_len rest) >>= λ (buf, left). found (codec.from_vec buf))

  -- `match protocol`
  unfoldable pub exchange :
      Codec
      → (ℕ → Datagrams)
      → (ℕ → Streams)
      → Forwarded
      → DnsProtocol
      → ℕ
      → SocketAddr
      → Result Message ResponseCode
  exchange codec datagrams streams request udp i upstream =
      forward_query codec (datagrams i) request upstream
  exchange codec datagrams streams request tcp i upstream =
      forward_query_tcp codec (streams i) request upstream
