-- ===== src/Exchange.antt =====
-- The exchange of connection information, programs/rdma-progs/client-server/xch-qpn.c: the
-- message with the GID and the number of the queue pair, and the parser for it. `none` is an
-- access out of bounds.
pub mod Decimal
pub mod RoundTrip
pub mod Session
pub mod First
mod Tests
use Decimal.{scan_int}
use fuzzing_rdma.Base.{
  ℕ, zero, suc, Option, none, some, List, [], ◌∷◌, ◌++◌, length, drop, overwrite, fill, ltb,
  if◌then◌else◌, ◌>>=◌, ℤ, pos, negsuc, ltb_ℕ,
}

-- GID_RAW_SIZE
abbrev pub gid_raw_size : ℕ
gid_raw_size = 16

-- `struct conn_inf`
pub record ConnInf : Type 0 where
  pub gid : List ℕ
  pub qpn : ℤ

-- The bytes that `memcpy` or a copying loop reads from an object.
pub read_bytes : ℕ → List ℕ → Option (List ℕ)
read_bytes zero p = some []
read_bytes (suc n) [] = none
read_bytes (suc n) (b ∷ p) = read_bytes n p >>= λ q. some (b ∷ q)

-- The status, and the object `msg` behind the call; `msg_size` is its size.
unfoldable pub prepare_msg : List ℕ → List ℕ → List ℕ → Option (ℕ × List ℕ)
unfolding read_bytes
prepare_msg qpn gid msg = if ltb (length msg) 20 then some (1, msg) else do
  cleared ← fill msg (length msg) 0
  raw ← read_bytes gid_raw_size gid
  written ← overwrite cleared (raw ++ (qpn ++ 0 ∷ []))
  some (0, written)

-- `sscanf(msg_c, "%d", &(cinf->qpn))` leaves the number alone if there is none in the text.
unfoldable pub set_qpn : List ℕ → ConnInf → Option ConnInf
set_qpn msg_c cinf =
    scan_int msg_c >>= λ found. some (elim found [ none ↦ cinf | some n ↦ record cinf { qpn = n } ])

-- The status, and `cinf` behind the call.
unfoldable pub parse_conn_inf : List ℕ → ℤ → ConnInf → Option (ℕ × ConnInf)
unfolding read_bytes
parse_conn_inf msg msg_size cinf = if ltb_ℕ msg_size 18 then some (1, cinf) else do
  raw ← read_bytes gid_raw_size msg
  parsed ← set_qpn (drop gid_raw_size msg) (record cinf { gid = raw })
  some (0, parsed)
