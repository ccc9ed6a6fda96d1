-- ===== src/Qp/Tests.antt =====
-- Runs of both sides at hand.
use fuzzing_rdma.Base.{
  false, Bool, if◌then◌else◌, none, ℕ, ◌≡◌, refl, some, List, [], ◌∷◌, ◌++◌, map, replicate, arith,
  true,
}
use fuzzing_rdma.Exchange.Session.Both.{delivering}
use fuzzing_rdma.Qp.Devices.{main_server, d}
use fuzzing_rdma.Qp.Devices.Laws.{IsRun, main_server-IsRun}
use fuzzing_rdma.Exchange.Decimal.{print_int}
use fuzzing_rdma.Exchange.RoundTrip.{message}
use fuzzing_rdma.Qp.Transitions.Laws.{transitions}
use fuzzing_rdma.Qp.DevInfo as DevInfo
use fuzzing_rdma.Qp.DevInfo.Laws.{allowed, Refuses, main-fails}
use fuzzing_rdma.Qp.Transitions.{init, rts, reset, state_flag, attr_zero}
use fuzzing_rdma.Qp.Live.{succeeding, run_client_lem}
use fuzzing_rdma.Qp.Setup.{Verbs, waiting}
use fuzzing_rdma.Qp.Client.{run_client, send_loop}
use fuzzing_rdma.Qp.Client.Laws.{posted_at_once, Carry}
use fuzzing_rdma.Qp.Server.{listen_loop}
use fuzzing_rdma.Qp.Server.Laws.{arrival, listen_loop-send_loop}

abbrev working : Verbs
working = record {
  open_device = true;
  query_gid = some (replicate 16 7);
  alloc_pd = true;
  create_cq = true;
  create_qp = some 17;
  modify_qp = λ attr mask. 0;
  query_port = 0;
  reg_mr = true;
}

-- the message of a partner
abbrev partner : List ℕ
partner = replicate 16 9 ++ (b'4' ∷ b'2' ∷ 0 ∷ [])

abbrev words : List (List ℕ)
words = (b'h' ∷ b'i' ∷ []) ∷ (b'o' ∷ []) ∷ []

abbrev letter : List ℕ
letter = b'h' ∷ 0 ∷ replicate 254 1

listen_loop-send_loop_example :
    listen_loop
      (replicate 256 2)
      (replicate 256 0)
      (map (arrival 2) (send_loop (replicate 256 1) (map posted_at_once words)).0)
    ≡ (words, waiting)
listen_loop-send_loop_example =
    listen_loop-send_loop 2 (replicate 256 1) (replicate 256 2) (replicate 256 0) words refl refl
      refl (omega arith)

-- two devices of one name
abbrev devices : List (List ℕ)
devices = (b'a' ∷ []) ∷ (b'b' ∷ []) ∷ (b'a' ∷ []) ∷ []

main_server-IsRun_example :
    IsRun
      (b'a' ∷ [])
      (some devices)
      (main_server ([] ∷ (b'a' ∷ []) ∷ []) (d (b'f' ∷ []) ∷ []) (some devices))
main_server-IsRun_example =
    main_server-IsRun [] (b'a' ∷ []) [] (d (b'f' ∷ []) ∷ []) (some devices) (omega arith)
      (omega arith)

run_client_lem_example :
    (posted : List (List ℕ)) × (run_client
        (succeeding (replicate 16 7) 17)
        (delivering (message (replicate 16 9) (print_int 1027) 100))
        (replicate 100 5)
        3
        (replicate 256 1)
        (map posted_at_once words)
      ≡ record {
        modified = transitions (replicate 16 9) 1027 3;
        messages = posted;
        ended = waiting;
      })
    × Carry posted words
run_client_lem_example =
    run_client_lem (replicate 16 7) (replicate 16 9) 17 1027 (replicate 100 5) (replicate 256 1) 3
      refl refl (omega arith) (omega arith) refl refl words (omega arith)

-- The step back to RESET with the state alone is documented, one from there to RTS is not.
reset_is_allowed : allowed init attr_zero (state_flag ∷ []) ≡ true
reset_is_allowed = refl

no_step_to_rts : allowed reset (record attr_zero { qp_state = rts }) (state_flag ∷ []) ≡ false
no_step_to_rts = refl

-- A library that refuses exactly what is not documented.
abbrev strict : DevInfo.Calls
strict = record {
  query_port = 0;
  query_gid = some (replicate 16 7);
  alloc_pd = true;
  create_cq = true;
  create_qp = true;
  modify_qp = λ from attr mask. if allowed from attr mask then 0 else 22;
  reg_mr = true;
  post_recv = 0;
  dereg_mr = 0;
}

strict-Refuses : Refuses strict
strict-Refuses from attr mask e = λ z. refused (allowed from attr mask) e z
  where
    refused : (b : Bool) → b ≡ false → ◌≡◌ {A = ℕ} (if b then 0 else 22) 0 → ⊥
    refused true e z = absurd (cc)
    refused false e z = omega (arith, z)

abbrev strict_device : DevInfo.Device
strict_device = record { name = b'a' ∷ []; opens = true; calls = strict; close = 0 }

main-fails_example :
    (DevInfo.main none attr_zero 1027 ≡ ([], some 1))
    × (DevInfo.main (some []) attr_zero 1027 ≡ ([], none))
    × (DevInfo.main (some (strict_device ∷ [])) attr_zero 1027 ≡ ((b'a' ∷ []) ∷ [], some 1))
main-fails_example = main-fails strict_device [] attr_zero 1027 (strict-Refuses, tt)
