-- ===== src/Fuzz/Tests.antt =====
-- Runs of the fuzzer's code on frames at hand.
use fuzzing_rdma.Base.{
  drop, ℤ, map, ◌≤◌, IsBytes-of_AllBytes, ◌↔◌, IsBytes, take, length-zeros, pos, ℕ, ◌≡◌, refl,
  Option, none, some, List, [], ◌∷◌, ◌++◌, length, arith,
}
use fuzzing_rdma.Fuzz.Startup.{Kernel, goes_on}
use fuzzing_rdma.Fuzz.Startup as Startup
use fuzzing_rdma.Fuzz.Main.{main}
use fuzzing_rdma.Fuzz.Main.Laws.{Forwards, main-Forwards}
use fuzzing_rdma.Fuzz.Main.Faults.{main_faults_iff}
use fuzzing_rdma.Fuzz.Tunnel.Faults.{HasError}
use fuzzing_rdma.Fuzz.Offsets.{ib_bth_offset, ib_pseud_payload_offset}
use fuzzing_rdma.Fuzz.Tunnel.{client_run, cleared, max_eth_len, frame, error, client_step}
use fuzzing_rdma.Relay.Header.{IbBth}
use fuzzing_rdma.Relay.Header.Fuzzed.{Parses, SameTarget, client_step-Parses}
use fuzzing_rdma.Fuzz.Tunnel.Client.{IsFuzzed}
use fuzzing_rdma.Fuzz.Tunnel.Replay.{fresh_run, client_run-eq-fresh_run}
use fuzzing_rdma.Fuzz.Main.Transparent.{Passes, main-Passes}
use fuzzing_rdma.Fuzz.Classify.Laws.{check_buffer_type_iff, IsRoce}
use fuzzing_rdma.Fuzz.Classify.{ib_traffic, check_buffer_type}

-- a source of random numbers: the numbers to come
abbrev draw : List ℕ → ℕ × List ℕ
draw [] = (0, [])
draw (x ∷ xs) = (x, xs)

-- The first 46 bytes of a RoCE frame, then an atomic request with its extension header.
abbrev headers : List ℕ
headers =
    0 ∷ 0 ∷ 8 ∷ 0 ∷ 0xde ∷ 0xad ∷ 0xbe ∷ 0xef ∷ 0x97 ∷ 0x56 ∷ 0xde ∷ 0xad ∷ 0xbe ∷ 0xef ∷ 0x7e
    ∷ 0xa2 ∷ 8 ∷ 0 ∷ 0x45 ∷ 0 ∷ 0 ∷ 0x2f ∷ 0x3e ∷ 4 ∷ 0x40 ∷ 0 ∷ 0x40 ∷ 0x11 ∷ 0xa4 ∷ 0x9a ∷ 0xac
    ∷ 0 ∷ 0 ∷ 0xf ∷ 0xac ∷ 0 ∷ 0 ∷ 0x10 ∷ 0xb2 ∷ 0xac ∷ 0x12 ∷ 0xb7 ∷ 0 ∷ 0x1b ∷ 0x6e ∷ 0xb7 ∷ []

abbrev atomic : List ℕ
atomic =
    0x13 ∷ 0x40 ∷ 0xff ∷ 0xff ∷ 0 ∷ 0 ∷ 0 ∷ 0x11 ∷ 0x80 ∷ 0 ∷ 0 ∷ 1 ∷ 1 ∷ 2 ∷ 3 ∷ 4 ∷ 5 ∷ 6 ∷ 7 ∷ 8
    ∷ []

abbrev sample : List ℕ
sample = headers ++ atomic

bth_offsets : (ib_bth_offset ≡ 46) × (ib_pseud_payload_offset ≡ 58)
bth_offsets = (refl, refl)

sample_is_ib : check_buffer_type sample (pos 66) ≡ some ib_traffic
unfolding check_buffer_type
sample_is_ib = refl

sample-IsBytes : IsBytes sample
sample-IsBytes = IsBytes-of_AllBytes sample (omega arith)

check_buffer_type_iff_example :
    (check_buffer_type sample (pos 66) ≡ some ib_traffic) ↔ ((46 ≤ 66) × IsRoce sample)
check_buffer_type_iff_example = check_buffer_type_iff sample 66 sample-IsBytes (omega arith)

client_run-eq-fresh_run_example :
    (d : List ℕ) × (r' : List ℕ) × (outs : List (Option (List ℕ))) × (client_run draw cleared
        (9 ∷ 0xff ∷ 3 ∷ 0x10 ∷ [])
        (frame sample ∷ frame (take 20 headers) ∷ [])
      ≡ some (d, r', outs))
    × (fresh_run draw (9 ∷ 0xff ∷ 3 ∷ 0x10 ∷ []) (sample ∷ take 20 headers ∷ []) ≡ some (r', outs))
client_run-eq-fresh_run_example =
    client_run-eq-fresh_run draw cleared (9 ∷ 0xff ∷ 3 ∷ 0x10 ∷ []) (sample ∷ take 20 headers ∷ [])
      (length-zeros max_eth_len) (omega arith) (omega arith)

abbrev answering : Kernel
answering = record {
  open_result = pos 5;
  tunsetiff_result = λ name flags. pos 0;
  interface_name = λ name flags. name;
}

main-Forwards_example : Forwards IsFuzzed (pos 0) (sample ∷ (1 ∷ 2 ∷ []) ∷ []) (
    main draw 2 answering answering []
      (pos 0)
      (9 ∷ 0xff ∷ 3 ∷ 0x10 ∷ [])
      (map frame (sample ∷ (1 ∷ 2 ∷ []) ∷ [])))
main-Forwards_example =
    main-Forwards draw 2 answering answering [] (pos 0) (9 ∷ 0xff ∷ 3 ∷ 0x10 ∷ [])
      (sample ∷ (1 ∷ 2 ∷ []) ∷ []) (omega arith)

main_faults_iff_example :
    (main draw 2 answering answering [] (pos 1) [] (frame headers ∷ error ∷ []) ≡ goes_on none) ↔ (
      ((fds : ℤ × ℤ) × (Startup.start 2 answering answering [] ≡ goes_on fds))
      × HasError (frame headers ∷ error ∷ []))
main_faults_iff_example =
    main_faults_iff draw 2 answering answering [] (pos 1) [] (frame headers ∷ error ∷ [])
      (omega arith)

-- A frame that ends in front of the headers of InfiniBand.
main-Passes_example :
    Passes
      (take 20 headers ∷ [])
      (main draw 2 answering answering [] (pos 0) [] (frame (take 20 headers) ∷ []))
main-Passes_example = main-Passes draw 2 answering answering [] (pos 0) [] (take 20 headers ∷ []) (
  omega arith,
  IsBytes-of_AllBytes (take 20 headers) (omega arith),
  (λ (k, _). absurd (omega (arith, k))),
  tt,
)

client_step-Parses_example :
    (buffer' out : List ℕ) × (r' : List ℕ) × (h h' : IbBth) × (payload payload' : List ℕ)
    × (client_step draw cleared (9 ∷ 0xff ∷ 3 ∷ 0x10 ∷ []) (frame sample)
        ≡ some (buffer', r', some out))
    × Parses sample h payload
    × Parses out h' payload'
    × SameTarget h h'
    × (length payload' ≡ length payload)
    × (drop 28 payload' ≡ drop 28 payload)
client_step-Parses_example =
    client_step-Parses draw cleared sample (9 ∷ 0xff ∷ 3 ∷ 0x10 ∷ []) (length-zeros max_eth_len)
      (omega arith) (omega arith)
