-- ===== src/Exchange/Session.antt =====
-- `xch_conn_inf_server` and `xch_conn_inf_client` of
-- programs/rdma-progs/client-server/xch-qpn.c: the calls that each makes of the network, in
-- order, with the jumps to err1, err2 and err3. How the calls turn out is a parameter.
pub mod Laws
pub mod Both
use fuzzing_rdma.Base.{
  ℕ, Bool, true, false, Option, none, some, List, [], ◌∷◌, ◌++◌, length, overwrite, ◌>>=◌, ℤ, pos,
  negsuc, if◌then◌else◌, ◌==◌, zeros,
}
use fuzzing_rdma.Exchange.{ConnInf, prepare_msg, parse_conn_inf}

-- the two sockets, `sd` and `sd_partner`
pub data Socket : Type 0 where
  sd : Socket
  sd_partner : Socket

-- A call that has an effect: an address is resolved into `res`, or `res` is freed; a socket is
-- made or shut down; a message is sent to the partner, or awaited.
pub data Call : Type 0 where
  getaddrinfo : Call
  freeaddrinfo : Call
  socket : Socket → Call
  bind : Call
  sendto : Socket → List ℕ → Call
  recvfrom : Call
  shutdown : Socket → Call

-- How the calls turn out. `received` is the datagram that `recvfrom` copies, cut to the 100 bytes
-- of `msg_recv`, or `none` for its error.
pub record Net : Type 0 where
  pub own_address : Bool
  pub own_socket : Bool
  pub bound : Bool
  pub partner_address : Bool
  pub partner_socket : Bool
  pub received : Option (List ℕ)

-- The status, the partner's record behind the call, and the calls made.
abbrev pub Result : Type 0 → Type 0
Result A = ℕ × A × List Call

abbrev pub err1 : {A : Type 0} → A → List Call → Result A
err1 cinf calls = (1, cinf, calls)

abbrev pub err2 : {A : Type 0} → A → List Call → Result A
err2 cinf calls = err1 cinf (calls ++ (freeaddrinfo ∷ []))

abbrev pub err3 : {A : Type 0} → A → List Call → Result A
err3 cinf calls = err2 cinf (calls ++ (shutdown sd ∷ []))

-- `recvfrom(sd, &msg_recv, sizeof msg_recv, …)` into the cleared buffer
pub receive : Option (List ℕ) → Option (List ℕ × ℤ)
receive none = some (zeros 100, negsuc 0)
receive (some m) = overwrite (zeros 100) m >>= λ msg. some (msg, pos (length m))

-- The common end: the message is parsed, and the socket and the address are given back.
pub finish : List ℕ × ℤ → ConnInf → List Call → Option (Result ConnInf)
finish (msg_recv, received_len) cinf calls =
    parse_conn_inf msg_recv received_len cinf >>= λ (status, cinf'). some (
      if status == 0
      then (0, cinf', calls ++ (shutdown sd ∷ freeaddrinfo ∷ []))
      else err3 cinf' calls)

-- The common beginning: `k` goes on with the calls made so far.
unfoldable pub connect :
    {A : Type 0} → Net → A → (List Call → Option (Result A)) → Option (Result A)
connect net cinf k =
    if net.own_address
    then if net.own_socket
      then if net.bound
        then if net.partner_address
          then if net.partner_socket
            then k (
                getaddrinfo
                ∷ socket sd
                ∷ bind
                ∷ freeaddrinfo
                ∷ getaddrinfo
                ∷ socket sd_partner
                ∷ [])
            else some (err2 cinf (getaddrinfo ∷ socket sd ∷ bind ∷ freeaddrinfo ∷ getaddrinfo ∷ []))
          else some (err1 cinf (getaddrinfo ∷ socket sd ∷ bind ∷ freeaddrinfo ∷ []))
        else some (err3 cinf (getaddrinfo ∷ socket sd ∷ []))
      else some (err2 cinf (getaddrinfo ∷ []))
    else some (err1 cinf [])

-- The exchange of the two messages, once both sockets are there. `msg_send` is not initialised:
-- its content is the first argument.
pub serve : List ℕ → Net → List ℕ → List ℕ → ConnInf → List Call → Option (Result ConnInf)
serve msg_send net qpn gid cinf calls = do
  received ← receive net.received
  (status, sent) ← prepare_msg qpn gid msg_send
  if status == 0
      then finish received cinf (calls ++ (recvfrom ∷ sendto sd sent ∷ []))
      else some (err3 cinf (calls ++ (recvfrom ∷ [])))

pub ask : List ℕ → Net → List ℕ → List ℕ → ConnInf → List Call → Option (Result ConnInf)
ask msg_send net qpn gid cinf calls = do
  (status, sent) ← prepare_msg qpn gid msg_send
  if status == 0
      then (do
        received ← receive net.received
        finish received cinf (calls ++ (sendto sd_partner sent ∷ recvfrom ∷ [])))
      else some (err3 cinf calls)

unfoldable pub xch_conn_inf_server :
    List ℕ → Net → List ℕ → List ℕ → ConnInf → Option (Result ConnInf)
xch_conn_inf_server msg_send net qpn gid cinf = connect net cinf (serve msg_send net qpn gid cinf)

unfoldable pub xch_conn_inf_client :
    List ℕ → Net → List ℕ → List ℕ → ConnInf → Option (Result ConnInf)
xch_conn_inf_client msg_send net qpn gid cinf = connect net cinf (ask msg_send net qpn gid cinf)
