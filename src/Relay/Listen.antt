-- ===== src/Relay/Listen.antt =====
-- programs/udp-proxy/test.c: a listener that prints each datagram and its sender, and then calls
-- `sendto` with a socket that was never made and an address that is freed.
pub mod Laws
use fuzzing_rdma.Base.{
  ℕ, Option, none, some, List, [], ◌∷◌, overwrite, fill, zeros, c_string, ◌==◌, if◌then◌else◌,
  ◌>>=◌, Bool, ℤ,
}
use fuzzing_rdma.Relay.Ports.{is_minus_one}

-- How the calls of the start turn out.
pub record Net : Type 0 where
  pub argc : ℕ
  pub own_address : Bool
  pub socket_listen : ℤ
  pub binds : Bool

-- The variables of `main` that the loop reads: `none` is one that was never set, or a pointer to
-- memory that was freed.
pub record Locals : Type 0 where
  pub sd_listen : ℤ
  pub sd_forward : Option ℤ
  pub res : Option ℕ

-- `none` is the exit with status 1. The address is resolved, used for the socket, and freed.
unfoldable pub open_listener : Net → Option Locals
open_listener net =
    if net.argc == 2
    then if net.own_address
      then if is_minus_one net.socket_listen
        then none
        else if net.binds
        then some (record { sd_listen = net.socket_listen; sd_forward = none; res = none })
        else none
      else none
    else none

-- `sendto` reads the socket and the address: here `none` is the use of one that is not there.
unfoldable pub sendto : Locals → List ℕ → Option (List ℕ)
sendto locals buf = do fd ← locals.sd_forward; address ← locals.res; some buf

-- A round: the buffer behind it, and what is printed of the datagram.
unfoldable pub step : Locals → List ℕ → List ℕ → Option (List ℕ × List ℕ)
unfolding sendto
step locals buf payload = do
  received ← overwrite buf payload
  printed ← c_string received
  sent ← sendto locals received
  cleared ← fill received 1024 0
  some (cleared, printed)

-- The loop on the datagrams that arrive, up to the first error of `recvfrom`.
unfoldable pub run : Locals → List ℕ → List (List ℕ) → Option (List (List ℕ))
unfolding step
run locals buf [] = some []
run locals buf (d ∷ rest) = do
  (buf', printed) ← step locals buf d
  later ← run locals buf' rest
  some (printed ∷ later)

unfoldable pub exit_with : Option Locals → List (List ℕ) → Option (ℕ × List (List ℕ))
unfolding run
exit_with none datagrams = some (1, [])
exit_with (some locals) datagrams = run locals (zeros 1024) datagrams >>= λ out. some (0, out)

-- The status, and what is printed.
unfoldable pub main : Net → List (List ℕ) → Option (ℕ × List (List ℕ))
unfolding exit_with open_listener
main net datagrams = exit_with (open_listener net) datagrams
