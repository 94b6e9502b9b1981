-- ===== src/Dns/Server.antt =====
-- src/dns/server.rs: `DnsServer::new`. The binding of the socket is a parameter; what hickory's
-- server does with a request is `serve` of System.antt.
use leshy.Prelude.{List, [], ◌∷◌}
use leshy.Prelude.Results.{Result, ok, err}
use leshy.Prelude.Text.{Str}
use leshy.Config.{SocketAddr}

-- `ServerFuture` with the sockets that are registered, and the handler that it was made of.
pub record DnsServer (H S : Type 0) : Type 0 where
  pub handler : H
  pub sockets : List S

unfoldable pub new :
    {H S : Type 0} → (SocketAddr → Result S Str) → SocketAddr → H → Result (DnsServer H S) Str
new bind listen_addr handler = elim (bind listen_addr) [
  | err e ↦ err e
  | ok socket ↦ ok (record { handler = handler; sockets = socket ∷ [] })
]
