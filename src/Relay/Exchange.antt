-- ===== src/Relay/Exchange.antt =====
-- programs/udp-proxy/ib_proxy.c: the sockets and addresses that are prepared, and the relay of the
-- two messages with connection information. A result `none` is undefined behaviour: the use of a
-- pointer that was never set.
pub mod Laws
pub mod Forward
use fuzzing_rdma.Base.{
  is_negative, ◌++◌, ◌++◌, ℕ, zero, suc, ◌+◌, Bool, true, false, ◌&&◌, ◌||◌, Option, none, some,
  List, [], ◌∷◌, ltb, ◌==◌, if◌then◌else◌, ◌>>=◌, ℤ, pos, negsuc,
}

-- What an `addrinfo` of this program resolves: an address of the proxy, or that of a party.
pub data Address : Type 0 where
  proxy_xch : Address
  proxy_rdma : Address
  client_xch : Address
  server_xch : Address

-- `struct conn_resources`; `none` is the null pointer.
pub record ConnResources : Type 0 where
  pub sd_xch : ℤ
  pub sd_rdma : ℤ
  pub res_client_xch : Option Address
  pub res_server_xch : Option Address

-- `struct config_params config`, with its texts as lists of characters
pub record ConfigParams : Type 0 where
  pub rdma_port : List ℕ
  pub exchange_port : List ℕ
  pub client_address : List ℕ
  pub server_address : List ℕ
  pub proxy_address_client : List ℕ
  pub proxy_address_server : List ℕ
  pub verbose : ℕ

abbrev pub config : ConfigParams
config = record {
  rdma_port = b'4' ∷ b'7' ∷ b'9' ∷ b'1' ∷ [];
  exchange_port = b'4' ∷ b'7' ∷ b'9' ∷ b'3' ∷ [];
  proxy_address_client = b'1' ∷ b'7' ∷ b'2' ∷ b'.' ∷ b'0' ∷ b'.' ∷ b'0' ∷ b'.' ∷ b'1' ∷ [];
  proxy_address_server = b'1' ∷ b'7' ∷ b'2' ∷ b'.' ∷ b'0' ∷ b'.' ∷ b'0' ∷ b'.' ∷ b'2' ∷ [];
  verbose = 1;
  client_address = b'1' ∷ b'7' ∷ b'2' ∷ b'.' ∷ b'0' ∷ b'.' ∷ b'0' ∷ b'.' ∷ b'1' ∷ b'5' ∷ [];
  server_address = b'1' ∷ b'7' ∷ b'2' ∷ b'.' ∷ b'0' ∷ b'.' ∷ b'0' ∷ b'.' ∷ b'1' ∷ b'6' ∷ [];
}

unfoldable pub init_conn_resources : ConnResources
init_conn_resources = record {
  sd_xch = negsuc 0;
  sd_rdma = negsuc 0;
  res_client_xch = none;
  res_server_xch = none;
}

-- How the calls of `prepare_conn_resources` turn out.
pub record Net : Type 0 where
  pub resolves : Address → Bool
  pub socket_xch : ℤ
  pub bind_xch : Bool
  pub socket_rdma : ℤ
  pub bind_rdma : Bool

-- The pointers `res`, `client_res` and `server_res`; `none` is one that is not set.
pub record Locals : Type 0 where
  pub res : Option Address
  pub client_res : Option Address
  pub server_res : Option Address

-- `freeaddrinfo` of a pointer; what it does with one that is not set is undefined.
pub free : Option Address → Option (Unit {0})
free none = none
free (some a) = some tt

-- The label `prepare_sock_exit`: the code `rc`, and the resources behind the call.
pub prepare_sock_exit : ℕ → ConnResources → ℤ → ℤ → Locals → Option (ℕ × ConnResources)
prepare_sock_exit rc conn_res sd_xch sd_rdma l =
    if rc == 0
    then (do
      _ ← free l.res
      some (
        0,
        record {
          sd_xch = sd_xch;
          sd_rdma = sd_rdma;
          res_client_xch = l.client_res;
          res_server_xch = l.server_res;
        },
      ))
    else (do _ ← free l.client_res; _ ← free l.server_res; _ ← free l.res; some (rc, conn_res))

abbrev pub unset : Locals
unset = record { res = none; client_res = none; server_res = none }

-- The last part: the addresses of the parties.
pub resolve_parties : Net → ConnResources → ℤ → ℤ → Locals → Option (ℕ × ConnResources)
resolve_parties net conn_res sd_xch sd_rdma l =
    if net.resolves client_xch
    then (if net.resolves server_xch
        then prepare_sock_exit 0 conn_res sd_xch sd_rdma
            (record l { client_res = some client_xch; server_res = some server_xch })
        else prepare_sock_exit 1 conn_res sd_xch sd_rdma
            (record l { client_res = some client_xch }))
    else prepare_sock_exit 1 conn_res sd_xch sd_rdma l

-- The socket for the traffic. `res` dangles from its `freeaddrinfo` on until it is set again.
pub prepare_rdma : Net → ConnResources → ℤ → Option (ℕ × ConnResources)
prepare_rdma net conn_res sd_xch =
    if net.resolves proxy_rdma
    then (let l = record unset { res = some proxy_rdma } in
        if is_negative net.socket_rdma
        then prepare_sock_exit 1 conn_res sd_xch net.socket_rdma l
        else if net.bind_rdma
        then resolve_parties net conn_res sd_xch net.socket_rdma l
        else prepare_sock_exit 1 conn_res sd_xch net.socket_rdma l)
    else prepare_sock_exit 1 conn_res sd_xch (negsuc 0) unset

unfoldable pub prepare_conn_resources : Net → ConnResources → Option (ℕ × ConnResources)
unfolding prepare_sock_exit resolve_parties prepare_rdma free
prepare_conn_resources net conn_res =
    if net.resolves proxy_xch
    then (let l = record unset { res = some proxy_xch } in
        if is_negative net.socket_xch
        then prepare_sock_exit 1 conn_res net.socket_xch (negsuc 0) l
        else if net.bind_xch
        then (free l.res >>= λ _. prepare_rdma net conn_res net.socket_xch)
        else prepare_sock_exit 1 conn_res net.socket_xch (negsuc 0) l)
    else prepare_sock_exit 1 conn_res (negsuc 0) (negsuc 0) unset

-- What `recvfrom` meets: an error, or a datagram, cut to the 4096 bytes of the buffer, with the
-- text of its sender's address.
pub data Recv : Type 0 where
  failed : Recv
  datagram : List ℕ → List ℕ → Recv

-- `strncmp(a, b, strlen(a)) == 0`
pub starts_with : List ℕ → List ℕ → Bool
starts_with [] b = true
starts_with (x ∷ a) [] = false
starts_with (x ∷ a) (y ∷ b) = x == y && starts_with a b

-- A datagram sent: where to, and its bytes.
abbrev pub Sent : Type 0
Sent = Option Address × List ℕ

-- What `sendto` sends: nothing with the length -1 of a failed receipt.
pub sendto : Option Address → Option (List ℕ) → List Sent
sendto to none = []
sendto to (some payload) = (to, payload) ∷ []

-- One round: the counter and the datagrams sent. `host` is the text of the last sender, `payload`
-- what was received.
pub fwd_round : ConnResources → List ℕ → Option (List ℕ) → ℕ → ℕ × List Sent
fwd_round conn_res host payload i =
    if starts_with config.client_address host
    then (i + 1, sendto conn_res.res_server_xch payload)
    else if starts_with config.server_address host
    then (i + 1, sendto conn_res.res_server_xch payload)
    else (i, [])

-- What a round sent, in front of what the later ones send.
pub in_front : List Sent → Option (ℕ × List Sent) → Option (ℕ × List Sent)
in_front sent none = none
in_front sent (some (i, later)) = some (i, sent ++ later)

-- The loop over what arrives, from the counter and the last sender. The result is the counter and
-- what was sent; the use of a sender before the first datagram is undefined. With a counter below
-- 2 and nothing left to arrive, the loop stays in `recvfrom`.
pub fwd_loop : ConnResources → ℕ → Option (List ℕ) → List Recv → Option (ℕ × List Sent)
unfolding in_front
fwd_loop conn_res i sender [] = some (i, [])
fwd_loop conn_res i sender (datagram host payload ∷ rest) =
    let (i', sent) = fwd_round conn_res host (some payload) i in
    let more = in_front sent (fwd_loop conn_res i' (some host) rest) in
    if ltb i 2 then more else some (i, [])
fwd_loop conn_res i none (failed ∷ rest) = if ltb i 2 then none else some (i, [])
fwd_loop conn_res i (some host) (failed ∷ rest) =
    let (i', sent) = fwd_round conn_res host none i in
    let more = in_front sent (fwd_loop conn_res i' (some host) rest) in
    if ltb i 2 then more else some (i, [])

-- How far `fwd_exchange_data` is: it has returned and left resources behind, or it stays in
-- `recvfrom` with its socket open.
pub data Progress : Type 0 where
  returned : ConnResources → Progress
  receiving : ConnResources → Progress

-- The whole function, on what arrives: how far it comes, and what was sent.
unfoldable pub fwd_exchange_data : ConnResources → List Recv → Option (Progress × List Sent)
unfolding fwd_loop fwd_round sendto starts_with
fwd_exchange_data conn_res arriving = fwd_loop conn_res 0 none arriving >>= λ (i, sent).
    if ltb i 2
    then some (receiving conn_res, sent)
    else some (returned (record conn_res { sd_xch = negsuc 0 }), sent)

-- The exit status behind `fwd_exchange_data`; `none` while it has not returned.
pub status : Progress → Option ℕ
status (returned conn_res) = some 0
status (receiving conn_res) = none

-- `main`: the exit status, if it ends, and what was sent.
unfoldable pub relay : Net → List Recv → Option (Option ℕ × List Sent)
unfolding init_conn_resources prepare_conn_resources fwd_exchange_data status
relay net arriving = prepare_conn_resources net init_conn_resources >>= λ (rc, conn_res).
    if rc == 0
    then (fwd_exchange_data conn_res arriving >>= λ (progress, sent). some (status progress, sent))
    else some (some 1, [])
