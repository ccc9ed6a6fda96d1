-- ===== src/Relay/Ports/Startup.antt =====
-- Which failures the start of the relay notices.
use fuzzing_rdma.Base.{◌≡◌, ◌↔◌, true, false, some, arith}
use fuzzing_rdma.Relay.Ports.{
  listen, client, client_xch, server, server_xch, Net, is_minus_one, Sockets, open_sockets,
}

-- The tests that the start makes: none is on a socket that forwards.
abbrev pub Passes : Net → Type 0
Passes net =
    (net.argc ≡ 2)
    × (net.resolves listen ≡ true)
    × (is_minus_one (net.socket_of listen) ≡ false)
    × (net.binds ≡ true)
    × (net.resolves client ≡ true)
    × (net.resolves client_xch ≡ true)
    × (net.resolves server ≡ true)
    × (net.resolves server_xch ≡ true)

-- The sockets as the calls gave them.
abbrev pub given : Net → Sockets
given net = record {
  sd_listen = net.socket_of listen;
  sd_fw_toclient = net.socket_of client;
  sd_fw_toclient_xch = net.socket_of client_xch;
  sd_fw_toserv = net.socket_of server;
  sd_fw_toserv_xch = net.socket_of server_xch;
}

-- The loop is reached exactly if there is one argument, all addresses are resolved, and the
-- socket that listens is made and bound; the sockets that forward are taken as they come, errors
-- among them.
pub open_sockets_iff :
    (net : Net) (s : Sockets) → (open_sockets net ≡ some s) ↔ (Passes net × (s ≡ given net))
unfolding open_sockets
open_sockets_iff net s = (λ e. ground arith, λ h. ground arith)
