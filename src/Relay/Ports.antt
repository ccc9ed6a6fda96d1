-- ===== src/Relay/Ports.antt =====
-- `main` of programs/udp-proxy/ib_proxy_two.c: the sockets that are made at the start, and the
-- loop that sends each datagram on by the port of its sender. What is printed is left out;
-- `getnameinfo` gives the port of the sender as a text, which an event carries.
pub mod Laws
pub mod Startup
use fuzzing_rdma.Base.{
  ℕ, Bool, true, false, Option, none, some, List, [], ◌∷◌, ◌++◌, ◌&&◌, ◌==◌, if◌then◌else◌, ◌>>=◌,
  same_text, ℤ, pos, negsuc, zeros, fill, overwrite,
}

-- the addresses that `getaddrinfo` resolves, by their ports
pub data Address : Type 0 where
  listen : Address
  client : Address
  client_xch : Address
  server : Address
  server_xch : Address

-- `client_port_std` and `server_port_std`, which never change
abbrev pub client_port_std : List ℕ
client_port_std = b'9' ∷ b'0' ∷ b'0' ∷ b'1' ∷ []

abbrev pub server_port_std : List ℕ
server_port_std = b'8' ∷ b'0' ∷ b'0' ∷ b'1' ∷ []

-- How the calls of the start turn out: `argc`, the addresses, the sockets and `bind`.
pub record Net : Type 0 where
  pub argc : ℕ
  pub resolves : Address → Bool
  pub socket_of : Address → ℤ
  pub binds : Bool

-- `sd == -1`
abbrev pub is_minus_one : ℤ → Bool
is_minus_one (pos n) = false
is_minus_one (negsuc n) = n == 0

-- `getaddrinfo` of an address to send to, and its socket. The test behind `socket` is one of
-- `sd_listen`. `none` is the exit with status 1.
pub forward_socket : Net → ℤ → Address → Option ℤ
forward_socket net sd_listen a =
    if net.resolves a
    then (if is_minus_one sd_listen then none else some (net.socket_of a))
    else none

-- The sockets of `main`.
pub record Sockets : Type 0 where
  pub sd_listen : ℤ
  pub sd_fw_toclient : ℤ
  pub sd_fw_toclient_xch : ℤ
  pub sd_fw_toserv : ℤ
  pub sd_fw_toserv_xch : ℤ

unfoldable pub open_sockets : Net → Option Sockets
unfolding forward_socket
open_sockets net =
    let sd_listen = net.socket_of listen in
    if net.argc == 2
    then if net.resolves listen
      then if is_minus_one sd_listen
        then none
        else if net.binds
        then (do
          sd_fw_toclient ← forward_socket net sd_listen client
          sd_fw_toclient_xch ← forward_socket net sd_listen client_xch
          sd_fw_toserv ← forward_socket net sd_listen server
          sd_fw_toserv_xch ← forward_socket net sd_listen server_xch
          some (record {
            sd_listen = sd_listen;
            sd_fw_toclient = sd_fw_toclient;
            sd_fw_toclient_xch = sd_fw_toclient_xch;
            sd_fw_toserv = sd_fw_toserv;
            sd_fw_toserv_xch = sd_fw_toserv_xch;
          }))
        else none
      else none
    else none

-- `struct ports_record pr`, the flags and the buffer; a port is the text in its field.
pub record State : Type 0 where
  pub buf : List ℕ
  pub client_flag : Bool
  pub server_flag : Bool
  pub client_port : List ℕ
  pub server_port : List ℕ

-- What the loop starts with; the ports are not initialised.
abbrev pub initial : List ℕ → List ℕ → State
initial client_port server_port = record {
  buf = zeros 4096;
  client_flag = false;
  server_flag = false;
  client_port = client_port;
  server_port = server_port;
}

-- A datagram that `recvfrom` gives: the port of its sender, and its bytes, cut to the buffer.
abbrev pub Datagram : Type 0
Datagram = List ℕ × List ℕ

-- A datagram given to `sendto`: the address, and the bytes. The source does not test whether its
-- socket could be made.
abbrev pub Sent : Type 0
Sent = Address × List ℕ

-- The last two branches, by the sender's port, once both flags are set. `sendto` sends
-- `sizeof buf` bytes.
pub route : List ℕ → List ℕ → List Sent
route sender_port buf =
    if same_text client_port_std sender_port
    then (server, buf) ∷ []
    else if same_text server_port_std sender_port
    then (client, buf) ∷ []
    else []

-- The branches on the flags: the state, and what is sent.
pub dispatch : State → List ℕ → State × List Sent
dispatch st sender_port =
    if st.client_flag
    then if st.server_flag
      then (st, route sender_port st.buf)
      else (record st { server_flag = true; server_port = sender_port }, (client_xch, st.buf) ∷ [])
    else (record st { client_flag = true; client_port = sender_port }, (server_xch, st.buf) ∷ [])

-- A round of the loop; `none` is a write beyond the buffer.
unfoldable pub step : State → Datagram → Option (State × List Sent)
unfolding dispatch route
step st (sender_port, payload) = do
  buf ← overwrite st.buf payload
  let (st', sent) = dispatch (record st { buf = buf }) sender_port
  cleared ← fill st'.buf 4096 0
  some (record st' { buf = cleared }, sent)

-- What an earlier round sent, in front of what the later ones send.
unfoldable pub in_front : List Sent → State × List Sent → State × List Sent
in_front sent (st, later) = (st, sent ++ later)

-- The loop on the datagrams that arrive, up to the first error of `recvfrom`.
unfoldable pub run : State → List Datagram → Option (State × List Sent)
unfolding in_front
run st [] = some (st, [])
run st (d ∷ rest) = step st d >>= λ (st', sent). run st' rest >>= λ out. some (in_front sent out)
