-- ===== src/Tap/Plain.antt =====
-- programs/proxy-fuzzer/tunnelnofuzz.c: the tunnel without its fuzzer. `tun_alloc`,
-- `check_buffer_type` and the server's channel are word for word those of proxy-f.c, so these
-- definitions call the ones of Fuzz.
pub mod Laws
use fuzzing_rdma.Base.{ℕ, zero, Option, none, some, List, [], ◌∷◌, fill, ◌>>=◌, ℤ, pos, size_t}
use fuzzing_rdma.Fuzz.Classify.{check_buffer_type}
use fuzzing_rdma.Fuzz.Tunnel.{Read, read, write, server_run, cleared}
use fuzzing_rdma.Fuzz.Main.{carry}
use fuzzing_rdma.Fuzz.Startup.{Kernel, Exit, goes_on, exits, open_devices}

-- "tap2" and "tap3"
abbrev pub client_tap : List ℕ
client_tap = b't' ∷ b'a' ∷ b'p' ∷ b'2' ∷ []

abbrev pub server_tap : List ℕ
server_tap = b't' ∷ b'a' ∷ b'p' ∷ b'3' ∷ []

-- A round of the client's channel: the type of the buffer only chooses what is printed.
unfoldable pub client_step : List ℕ → Read → Option (List ℕ × Option (List ℕ))
client_step buffer_client rd = do
  (buffer, nread_from_client) ← read buffer_client rd
  buf_type ← check_buffer_type buffer nread_from_client
  let out = write buffer nread_from_client
  buffer' ← fill buffer (size_t nread_from_client) 0
  some (buffer', out)

unfoldable pub client_run : List ℕ → List Read → Option (List ℕ × List (Option (List ℕ)))
unfolding client_step
client_run buffer [] = some (buffer, [])
client_run buffer (rd ∷ rds) = do
  (buffer', out) ← client_step buffer rd
  (buffer'', outs) ← client_run buffer' rds
  some (buffer'', out ∷ outs)

-- `if (pid)`: the parent carries the frames of the server, and so does a process whose `fork`
-- failed.
unfoldable pub channel : ℤ → List Read → Option (List ℕ × List (Option (List ℕ)))
unfolding client_run
channel (pos zero) rds = client_run cleared rds
channel pid rds = server_run cleared rds

-- `pid` is what `fork` returns, and the frames are those of the device that the process reads;
-- `iff_tap` is the flag IFF_TAP, and the two kernels answer for the two devices.
unfoldable pub main :
    ℕ → Kernel → Kernel → ℤ → List Read → Exit (Option (List ℕ × List (Option (List ℕ))))
unfolding carry channel
main iff_tap k k' pid rds =
    carry (open_devices iff_tap k k' (goes_on (client_tap, server_tap))) (channel pid rds)
