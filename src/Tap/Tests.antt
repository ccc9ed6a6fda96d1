-- ===== src/Tap/Tests.antt =====
-- Runs of the earlier tunnels at hand.
use fuzzing_rdma.Base.{
  zeros, ℕ, ◌≡◌, refl, Option, some, some_inj, List, [], ◌∷◌, map, pos, negsuc, arith, length-zeros,
}
use fuzzing_rdma.Fuzz.Tunnel.{read, write, cleared, error, frame, max_eth_len, server_run}
use fuzzing_rdma.Fuzz.Tunnel as Tunnel
use fuzzing_rdma.Fuzz.Classify.{check_buffer_type}
use fuzzing_rdma.Fuzz.Bth.{has_atomic_eth, has_rdma_eth, fuzz_field, xor_at, header_offset}
use fuzzing_rdma.Fuzz.Startup.{Kernel}
use fuzzing_rdma.Tap.Mutated.Versions.{AllPlain, client_run_versions}
use fuzzing_rdma.Tap.Plain as Plain
use fuzzing_rdma.Tap.Plain.Laws.{client_run-eq-server_run}
use fuzzing_rdma.Tap.Mutated as Mutated
use fuzzing_rdma.Tap.Device as Device
use fuzzing_rdma.Tap.Device.{tunsetiff, tungetiff}
use fuzzing_rdma.Fuzz.Main.Laws.{Forwards}
use fuzzing_rdma.Tap.Mutated.Laws.{IsMutated, main_first-Forwards}

abbrev working : Kernel
working = record {
  open_result = pos 5;
  tunsetiff_result = λ name flags. pos 0;
  interface_name = λ name flags. name;
}

-- a source of random numbers: the numbers to come
abbrev draw : List ℕ → ℕ × List ℕ
draw [] = (0, [])
draw (x ∷ xs) = (x, xs)

-- a short frame, and the headers of a RoCE frame
abbrev frames : List (List ℕ)
frames =
    (1 ∷ 2 ∷ [])
    ∷ (0 ∷ 0 ∷ 8 ∷ 0 ∷ 0xde ∷ 0xad ∷ 0xbe ∷ 0xef ∷ 0x97 ∷ 0x56 ∷ 0xde ∷ 0xad ∷ 0xbe ∷ 0xef ∷ 0x7e
        ∷ 0xa2 ∷ 8 ∷ 0 ∷ 0x45 ∷ 0 ∷ 0 ∷ 0x2f ∷ 0x3e ∷ 4 ∷ 0x40 ∷ 0 ∷ 0x40 ∷ 0x11 ∷ 0xa4 ∷ 0x9a
        ∷ 0xac ∷ 0 ∷ 0 ∷ 0xf ∷ 0xac ∷ 0 ∷ 0 ∷ 0x10 ∷ 0xb2 ∷ 0xac ∷ 0x12 ∷ 0xb7 ∷ 0 ∷ 0x1b ∷ 0x6e
        ∷ 0xb7 ∷ 0x13 ∷ 0x40 ∷ 0xff ∷ 0xff ∷ 0 ∷ 0 ∷ 0 ∷ 0x11 ∷ 0x80 ∷ 0 ∷ 0 ∷ 1 ∷ 9 ∷ [])
    ∷ []

client_run-eq-server_run_example :
    Plain.client_run cleared (frame (1 ∷ []) ∷ error ∷ [])
    ≡ server_run cleared (frame (1 ∷ []) ∷ error ∷ [])
client_run-eq-server_run_example =
    client_run-eq-server_run cleared (frame (1 ∷ []) ∷ error ∷ []) (length-zeros max_eth_len)

main_first-Forwards_example :
    Forwards IsMutated
      (pos 0)
      frames
      (Mutated.main draw 2 working working (pos 0) (9 ∷ 0xff ∷ []) (map frame frames))
main_first-Forwards_example =
    main_first-Forwards draw 2 working working (pos 0) (9 ∷ 0xff ∷ []) frames (omega arith)

-- The opcode of an atomic request becomes one that announces no extension header.
abbrev retyped : List (Option (List ℕ))
retyped =
    some (1 ∷ 2 ∷ [])
    ∷ some (
        0 ∷ 0 ∷ 8 ∷ 0 ∷ 0xde ∷ 0xad ∷ 0xbe ∷ 0xef ∷ 0x97 ∷ 0x56 ∷ 0xde ∷ 0xad ∷ 0xbe ∷ 0xef ∷ 0x7e
        ∷ 0xa2 ∷ 8 ∷ 0 ∷ 0x45 ∷ 0 ∷ 0 ∷ 0x2f ∷ 0x3e ∷ 4 ∷ 0x40 ∷ 0 ∷ 0x40 ∷ 0x11 ∷ 0xa4 ∷ 0x9a
        ∷ 0xac ∷ 0 ∷ 0 ∷ 0xf ∷ 0xac ∷ 0 ∷ 0 ∷ 0x10 ∷ 0xb2 ∷ 0xac ∷ 0x12 ∷ 0xb7 ∷ 0 ∷ 0x1b ∷ 0x6e
        ∷ 0xb7 ∷ 0x04 ∷ 0x40 ∷ 0xff ∷ 0xff ∷ 0 ∷ 0 ∷ 0 ∷ 0x11 ∷ 0x80 ∷ 0 ∷ 0 ∷ 1 ∷ 9 ∷ [])
    ∷ []

run_retyped :
    Mutated.client_run draw cleared (0 ∷ 0x17 ∷ []) (map frame frames) ≡ some (cleared, [], retyped)
unfolding Mutated.client_run Mutated.client_step Mutated.fuzz_buffer Mutated.fuzz_ib_bth
    Mutated.fuzz_round fuzz_field xor_at header_offset read write check_buffer_type zeros
run_retyped = refl

retyped-AllPlain : AllPlain retyped
unfolding has_atomic_eth has_rdma_eth
retyped-AllPlain = (
  (λ e. absurd (omega (arith, e)), λ op e. absurd (cc)),
  ((λ e. absurd (omega (arith, e)), λ op e. rw (← some_inj e) (refl, refl)), tt),
)

client_run_versions_example :
    Tunnel.client_run draw cleared (0 ∷ 0x17 ∷ []) (map frame frames) ≡ some (cleared, [], retyped)
client_run_versions_example =
    client_run_versions draw cleared (0 ∷ 0x17 ∷ []) frames cleared [] retyped
      (length-zeros max_eth_len) (omega arith) run_retyped retyped-AllPlain

-- A kernel that sets up a device, and tells of none.
abbrev setting : Device.Kernel
setting = record {
  open_result = pos 5;
  ioctl_result = λ request name flags. elim request [ tunsetiff ↦ pos 0 | tungetiff ↦ negsuc 76 ];
  interface_name = λ request name flags. name;
}
