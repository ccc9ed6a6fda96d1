-- ===== src/Fuzz/Main.antt =====
-- `main` of programs/proxy-fuzzer/proxy-f.c as a whole, for one of the two processes behind
-- `fork`: the start, and the channel that the process is given.
pub mod Laws
pub mod Faults
pub mod Transparent
use fuzzing_rdma.Base.{ℕ, zero, Option, some, List, ◌>>=◌, ℤ, pos}
use fuzzing_rdma.Fuzz.Startup.{Kernel, Opt, Exit, goes_on, exits, start}
use fuzzing_rdma.Fuzz.Tunnel.{Read, cleared, server_run, client_run}

-- What follows the start, if it does not exit.
unfoldable pub carry : {A : Type 0} → Exit (ℤ × ℤ) → A → Exit A
carry (exits code) out = exits code
carry (goes_on fds) out = goes_on out

module _ {R : Type 0} (rand : R → ℕ × R) where
  -- `if (pid)`: what the process hands to `write`. The child fuzzes; the parent does not, and
  -- neither does a process whose `fork` failed.
  unfoldable pub channel : ℤ → R → List Read → Option (List (Option (List ℕ)))
  unfolding server_run
  channel (pos zero) r rds = client_run rand cleared r rds >>= λ (buffer, r', outs). some outs
  channel pid r rds = server_run cleared rds >>= λ (buffer, outs). some outs

  -- `pid` is what `fork` returns, and the frames are those of the device that the process reads.
  unfoldable pub main :
      ℕ → Kernel → Kernel → List Opt → ℤ → R → List Read → Exit (Option (List (Option (List ℕ))))
  unfolding carry channel start
  main iff_tap k k' opts pid r rds = carry (start iff_tap k k' opts) (channel pid r rds)
