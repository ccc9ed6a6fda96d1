-- ===== src/Exchange/First.antt =====
-- programs/rdma-progs/xch-qpn/xch-qpn.c: the first version of the exchange, which sends the
-- number and the identifier as texts and hands the text of the partner over as it comes. Its two
-- functions begin as those of programs/rdma-progs/client-server/xch-qpn.c.
pub mod Text
pub mod Laws
use fuzzing_rdma.Base.{
  ℕ, zero, suc, Option, none, some, List, [], ◌∷◌, ◌++◌, overwrite, zeros, ◌>>=◌,
}
use fuzzing_rdma.Exchange.Session.{
  sd, sd_partner, Call, freeaddrinfo, sendto, recvfrom, Net, Result, connect,
}

-- What `sprintf` prints: "qpn:%s giud:%s"
abbrev pub first_text : List ℕ → List ℕ → List ℕ
first_text qpn guid =
    b'q' ∷ b'p' ∷ b'n' ∷ b':' ∷ (qpn ++ (b' ' ∷ b'g' ∷ b'i' ∷ b'u' ∷ b'd' ∷ b':' ∷ guid))

-- `sprintf` into `msg`, which is not initialised: `none` is a text that is too long.
abbrev pub print_msg : List ℕ → List ℕ → List ℕ → Option (List ℕ)
print_msg msg qpn guid = overwrite msg (first_text qpn guid ++ (0 ∷ []))

-- The bytes that `strncpy` writes: as many characters, then zeros.
pub padded_text : ℕ → List ℕ → Option (List ℕ)
padded_text zero buf = some []
padded_text (suc n) [] = none
padded_text (suc n) (zero ∷ buf) = some (zeros (suc n))
padded_text (suc n) (suc b ∷ buf) = padded_text n buf >>= λ t. some (suc b ∷ t)

-- `strncpy(conn_inf, buf, ci_len)`
unfoldable pub strncpy : List ℕ → List ℕ → ℕ → Option (List ℕ)
strncpy conn_inf buf ci_len = padded_text ci_len buf >>= λ t. overwrite conn_inf t

-- `recvfrom` into the cleared `buf`, whose result is not looked at
abbrev pub receive : Option (List ℕ) → Option (List ℕ)
receive none = some (zeros 500)
receive (some m) = overwrite (zeros 500) m

-- The end of the server's side. Its message goes out by the socket that listens, up to its zero.
unfoldable pub serve :
    List ℕ → Net → List ℕ → List ℕ → List ℕ → ℕ → List Call → Option (Result (List ℕ))
unfolding strncpy
serve msg net qpn guid conn_inf ci_len calls = do
  buf ← receive net.received
  conn_inf' ← strncpy conn_inf buf ci_len
  sent ← print_msg msg qpn guid
  some (0, conn_inf', calls ++ (recvfrom ∷ sendto sd (first_text qpn guid) ∷ freeaddrinfo ∷ []))

-- The end of the client's side, which sends the whole of `msg`.
unfoldable pub ask :
    List ℕ → Net → List ℕ → List ℕ → List ℕ → ℕ → List Call → Option (Result (List ℕ))
unfolding strncpy
ask msg net qpn guid conn_inf ci_len calls = do
  sent ← print_msg msg qpn guid
  buf ← receive net.received
  conn_inf' ← strncpy conn_inf buf ci_len
  some (0, conn_inf', calls ++ (sendto sd_partner sent ∷ recvfrom ∷ freeaddrinfo ∷ []))

-- `conn_inf` is the buffer of the caller, and `ci_len` is no negative number.
unfoldable pub xch_conn_inf_server :
    List ℕ → Net → List ℕ → List ℕ → List ℕ → ℕ → Option (Result (List ℕ))
unfolding serve connect
xch_conn_inf_server msg net qpn guid conn_inf ci_len =
    connect net conn_inf (serve msg net qpn guid conn_inf ci_len)

unfoldable pub xch_conn_inf_client :
    List ℕ → Net → List ℕ → List ℕ → List ℕ → ℕ → Option (Result (List ℕ))
unfolding ask connect
xch_conn_inf_client msg net qpn guid conn_inf ci_len =
    connect net conn_inf (ask msg net qpn guid conn_inf ci_len)
