-- ===== src/Fuzz/Tunnel.antt =====
-- The two endless loops of `main` in programs/proxy-fuzzer/proxy-f.c, one round at a time. The
-- devices are files: what `read` returns comes from outside, and what is handed to `write` is the
-- round's output.
pub mod Server
pub mod Client
pub mod Replay
pub mod Transparent
pub mod Reached
pub mod Faults
use fuzzing_rdma.Base.{
  zeros, ℕ, zero, suc, ◌-◌, Option, none, some, List, [], ◌∷◌, length, take, overwrite, fill,
  replicate, leb, if◌then◌else◌, ◌>>=◌, ℤ, pos, negsuc, size_t,
}
use fuzzing_rdma.Fuzz.Offsets.{ib_bth_offset, ib_pseud_payload_offset}
use fuzzing_rdma.Fuzz.Classify.{BufferType, ip_pkt, udp_seg, ib_traffic, other, check_buffer_type}
use fuzzing_rdma.Fuzz.Bth.{fuzz_ib_bth}

-- MAX_ETH_LEN, the size of both buffers
abbrev pub max_eth_len : ℕ
max_eth_len = 1542

-- `memset(buffer, 0, MAX_ETH_LEN)`
abbrev pub cleared : List ℕ
cleared = zeros max_eth_len

-- What a call of `read` meets: an error, or a frame of the device, which the kernel cuts to the
-- size of the buffer.
pub data Read : Type 0 where
  error : Read
  frame : List ℕ → Read

-- `read(fd, buffer, sizeof(buffer))`: the buffer, and -1 or the bytes read.
unfoldable pub read : List ℕ → Read → Option (List ℕ × ℤ)
read buffer error = some (buffer, negsuc 0)
read buffer (frame xs) = overwrite buffer xs >>= λ b. some (b, pos (length xs))

-- `write(fd, buffer, nread)`: the bytes handed over; `none` is a count beyond the buffer, as that
-- of -1, which the kernel refuses. The code ignores the result.
unfoldable pub write : List ℕ → ℤ → Option (List ℕ)
write buffer nread =
    if leb (size_t nread) (length buffer) then some (take (size_t nread) buffer) else none

-- A round of the server's channel. The result is the buffer and what was written; `none` is a
-- write out of the bounds of the buffer.
unfoldable pub server_step : List ℕ → Read → Option (List ℕ × Option (List ℕ))
server_step buffer_server rd = do
  (buffer, nread_from_server) ← read buffer_server rd
  let out = write buffer nread_from_server
  buffer' ← fill buffer (size_t nread_from_server) 0
  some (buffer', out)

unfoldable pub server_run : List ℕ → List Read → Option (List ℕ × List (Option (List ℕ)))
server_run buffer [] = some (buffer, [])
server_run buffer (rd ∷ rds) = do
  (buffer', out) ← server_step buffer rd
  (buffer'', outs) ← server_run buffer' rds
  some (buffer'', out ∷ outs)

module _ {R : Type 0} (rand : R → ℕ × R) where
  -- the `switch` on the type of the buffer
  unfoldable pub fuzz_buffer : BufferType → List ℕ → R → Option (List ℕ × R)
  fuzz_buffer ib_traffic buffer r =
      fuzz_ib_bth rand buffer ib_bth_offset (ib_pseud_payload_offset - ib_bth_offset) 1 r
  fuzz_buffer ip_pkt buffer r = some (buffer, r)
  fuzz_buffer udp_seg buffer r = some (buffer, r)
  fuzz_buffer other buffer r = some (buffer, r)

  -- A round of the client's channel.
  unfoldable pub client_step : List ℕ → R → Read → Option (List ℕ × R × Option (List ℕ))
  client_step buffer_client r rd = do
    (buffer, nread_from_client) ← read buffer_client rd
    buf_type ← check_buffer_type buffer nread_from_client
    (fuzzed, r') ← fuzz_buffer buf_type buffer r
    let out = write fuzzed nread_from_client
    buffer' ← fill fuzzed (size_t nread_from_client) 0
    some (buffer', r', out)

  unfoldable pub client_run : List ℕ → R → List Read → Option (List ℕ × R × List (Option (List ℕ)))
  client_run buffer r [] = some (buffer, r, [])
  client_run buffer r (rd ∷ rds) = do
    (buffer', r', out) ← client_step buffer r rd
    (buffer'', r'', outs) ← client_run buffer' r' rds
    some (buffer'', r'', out ∷ outs)
