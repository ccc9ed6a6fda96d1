-- ===== src/Tap/Mutated.antt =====
-- programs/tapdev/taptunnel.c: the tunnel with the first fuzzer, which has no extension headers.
-- `tun_alloc`, `check_buffer_type`, the `switch` of the fuzzer and the server's channel are word
-- for word those of proxy-f.c, so these definitions call the ones of Fuzz.
pub mod Narrow
pub mod Laws
pub mod Versions
use fuzzing_rdma.Base.{
  ℕ, zero, suc, ◌-◌, ◌%◌, Option, none, some, List, [], ◌∷◌, fill, ◌>>=◌, ℤ, pos, size_t,
}
use fuzzing_rdma.Fuzz.Offsets.{ib_bth_offset, ib_pseud_payload_offset}
use fuzzing_rdma.Fuzz.Classify.{BufferType, ip_pkt, udp_seg, ib_traffic, other, check_buffer_type}
use fuzzing_rdma.Fuzz.Bth.{header_offset, fuzz_field}
use fuzzing_rdma.Fuzz.Tunnel.{Read, read, write, server_run, cleared}
use fuzzing_rdma.Fuzz.Startup.{Kernel, Exit, goes_on, exits, open_devices}
use fuzzing_rdma.Fuzz.Main.{carry}
use fuzzing_rdma.Tap.Plain.{client_tap, server_tap}

module _ {R : Type 0} (rand : R → ℕ × R) where
  -- One round of the loop. `at` stands for the pointer `ib_bth`.
  unfoldable pub fuzz_round : List ℕ → ℕ → ℕ → R → Option (List ℕ × R)
  unfolding fuzz_field
  fuzz_round p at bth_size r =
      let (x, r') = rand r in
      let (y, r'') = rand r' in
      fuzz_field p at (header_offset (x % bth_size)) (y % 256) >>= λ q. some (q, r'')

  -- The loop: `rounds` are the rounds that are left.
  unfoldable pub fuzz_ib_bth : List ℕ → ℕ → ℕ → ℕ → R → Option (List ℕ × R)
  unfolding fuzz_round
  fuzz_ib_bth p at bth_size zero r = some (p, r)
  fuzz_ib_bth p at bth_size (suc rounds) r =
      fuzz_round p at bth_size r >>= λ (q, r'). fuzz_ib_bth q at bth_size rounds r'

  -- the `switch` on the type of the buffer
  unfoldable pub fuzz_buffer : BufferType → List ℕ → R → Option (List ℕ × R)
  unfolding fuzz_ib_bth
  fuzz_buffer ib_traffic buffer r =
      fuzz_ib_bth buffer ib_bth_offset (ib_pseud_payload_offset - ib_bth_offset) 1 r
  fuzz_buffer ip_pkt buffer r = some (buffer, r)
  fuzz_buffer udp_seg buffer r = some (buffer, r)
  fuzz_buffer other buffer r = some (buffer, r)

  -- A round of the client's channel.
  unfoldable pub client_step : List ℕ → R → Read → Option (List ℕ × R × Option (List ℕ))
  unfolding fuzz_buffer
  client_step buffer_client r rd = do
    (buffer, nread_from_client) ← read buffer_client rd
    buf_type ← check_buffer_type buffer nread_from_client
    (fuzzed, r') ← fuzz_buffer buf_type buffer r
    let out = write fuzzed nread_from_client
    buffer' ← fill fuzzed (size_t nread_from_client) 0
    some (buffer', r', out)

  unfoldable pub client_run : List ℕ → R → List Read → Option (List ℕ × R × List (Option (List ℕ)))
  unfolding client_step
  client_run buffer r [] = some (buffer, r, [])
  client_run buffer r (rd ∷ rds) = do
    (buffer', r', out) ← client_step buffer r rd
    (buffer'', r'', outs) ← client_run buffer' r' rds
    some (buffer'', r'', out ∷ outs)

  -- What a channel hands to `write`: the child's if `fork` returns 0, else the parent's.
  unfoldable pub channel : ℤ → R → List Read → Option (List (Option (List ℕ)))
  unfolding client_run
  channel (pos zero) r rds = client_run cleared r rds >>= λ (buffer, r', outs). some outs
  channel pid r rds = server_run cleared rds >>= λ (buffer, outs). some outs

  -- `main`, which waits for a number on its input before it opens the devices.
  unfoldable pub main :
      ℕ → Kernel → Kernel → ℤ → R → List Read → Exit (Option (List (Option (List ℕ))))
  unfolding carry channel
  main iff_tap k k' pid r rds =
      carry (open_devices iff_tap k k' (goes_on (client_tap, server_tap))) (channel pid r rds)
