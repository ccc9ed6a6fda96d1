-- ===== src/Relay/First.antt =====
-- programs/udp-proxy/proxy.c: the first relay, which sends every datagram on to one address. Its
-- child process prints and relays; the other process ends. `ib_bth` is read as in
-- ib_proxy_two.c.
pub mod Laws
use fuzzing_rdma.Base.{
  ℕ, ◌+◌, ◌-◌, Option, none, some, List, [], ◌∷◌, drop, overwrite, fill, zeros, c_string, leb, ◌==◌,
  if◌then◌else◌, ◌>>=◌, Bool, ℤ, pos, negsuc, suc, zero,
}
use fuzzing_rdma.Relay.Ports.{is_minus_one}
use fuzzing_rdma.Relay.Header.{IbBth, sizeof_ib_bth, read_header, rounds, copy}

-- `buffer_len - (sizeof(ib_header) + padding_bytes)`: a negative length becomes a size that no
-- `malloc` gives.
pub payload_len : ℕ → ℤ → Option ℕ
payload_len buffer_len (pos n) =
    let overhead = sizeof_ib_bth + n in
    if leb overhead buffer_len then some (buffer_len - overhead) else none
payload_len buffer_len (negsuc n) =
    let overhead = sizeof_ib_bth - suc n in
    if leb overhead buffer_len then some (buffer_len - overhead) else none

unfoldable pub deserialize_ib_pkt : List ℕ → ℕ → Option (IbBth × List ℕ)
unfolding payload_len
deserialize_ib_pkt buffer buffer_len = do
  header ← read_header buffer
  len ← payload_len buffer_len header.pad_count
  payload ← copy len (drop (rounds header.pad_count) (drop sizeof_ib_bth buffer))
  some (header, payload)

-- How the calls of the start turn out.
pub record Net : Type 0 where
  pub argc : ℕ
  pub own_address : Bool
  pub socket_listen : ℤ
  pub binds : Bool
  pub forward_address : Bool
  pub socket_forward : ℤ

-- `sd_listen` and `sd_forward`; `none` is the exit with status 1. The test behind the second
-- socket is one of `sd_listen`.
unfoldable pub open_sockets : Net → Option (ℤ × ℤ)
open_sockets net =
    if net.argc == 3
    then if net.own_address
      then if is_minus_one net.socket_listen
        then none
        else if net.binds
        then if net.forward_address
          then (if is_minus_one net.socket_listen
              then none
              else some (net.socket_listen, net.socket_forward))
          else none
        else none
      else none
    else none

-- What a round prints and what it sends, if it sends anything.
abbrev pub Round : Type 0
Round = List ℕ × Option (List ℕ)

-- What `sendto` sends: nothing on the descriptor -1 of a failed `socket`.
pub sendto : ℤ → List ℕ → Option (List ℕ)
sendto (pos sd) buf = some buf
sendto (negsuc n) buf = none

-- A round of the loop: the bytes up to the first zero are printed, and `sizeof buf` bytes are
-- given to `sendto`, whose result is not looked at; `none` is an access beyond the buffer.
unfoldable pub step : ℤ → List ℕ → List ℕ → Option (List ℕ × Round)
unfolding sendto
step sd_forward buf payload = do
  received ← overwrite buf payload
  printed ← c_string received
  cleared ← fill received 1024 0
  some (cleared, (printed, sendto sd_forward received))

-- The loop on the datagrams that arrive, up to the first error of `recvfrom`.
unfoldable pub run : ℤ → List ℕ → List (List ℕ) → Option (List Round)
unfolding step
run sd_forward buf [] = some []
run sd_forward buf (d ∷ rest) = do
  (buf', round) ← step sd_forward buf d
  later ← run sd_forward buf' rest
  some (round ∷ later)

-- What follows the sockets: `pid` is what `fork` returns.
unfoldable pub relay : ℤ → ℤ → List (List ℕ) → Option (List Round)
unfolding run
relay sd_forward (pos zero) datagrams = run sd_forward (zeros 1024) datagrams
relay sd_forward pid datagrams = some []

-- The status and the rounds of a run; the outer `none` is an access beyond the buffer.
unfoldable pub exit_with : Option (ℤ × ℤ) → ℤ → List (List ℕ) → Option (ℕ × List Round)
unfolding relay
exit_with none pid datagrams = some (1, [])
exit_with (some (sd_listen, sd_forward)) pid datagrams =
    relay sd_forward pid datagrams >>= λ rounds. some (0, rounds)

unfoldable pub main : Net → ℤ → List (List ℕ) → Option (ℕ × List Round)
unfolding exit_with open_sockets
main net pid datagrams = exit_with (open_sockets net) pid datagrams
