-- ===== src/Keyed/Improved/Laws.antt =====
-- The runs of key_based_improved: orderly on every outcome of the calls, and complete when the
-- calls succeed.
use fuzzing_rdma.Base.{ℕ, ◌≡◌, refl, some, Option, List, [], ◌∷◌, map, length, zeros, length-zeros}
use fuzzing_rdma.Qp.Transitions.{reset, rts, qp_reset_to_init, qp_init_to_rtr, qp_rtr_to_rts}
use fuzzing_rdma.Qp.Transitions.Laws.{Modify, call, transitions, walk, walk-transitions}
use fuzzing_rdma.Qp.Setup.{Verbs, crashed, exited, waiting, Trace, modify}
use fuzzing_rdma.Qp.Live.{succeeding}
use fuzzing_rdma.Qp.Client.{Input, send_all}
use fuzzing_rdma.Qp.Client.Laws.{AreWords, posted_at_once, send_loop-Carry}
use fuzzing_rdma.Qp.Server.{Round, listen_all}
use fuzzing_rdma.Qp.Server.Laws.{arrival, listen_loop_lem}
use fuzzing_rdma.Qp.Devices.{Main, exits, overflows, runs, ServerOption, main_client, main_server}
use fuzzing_rdma.Keyed.Setup.{prepare, check_port, prepare_lem}
use fuzzing_rdma.Keyed.Orderly.{
  IsOrderly, stopped-IsOrderly, modify-modify-IsOrderly, send_all-IsOrderly, listen_all-IsOrderly,
}
use fuzzing_rdma.Keyed.Improved.{go_live, run_client, run_server, start, client_main, server_main}

module _ (dest_qp destination_local_id : ℕ) where
  abbrev steps : List ℕ → List Modify
  steps gid = transitions gid dest_qp destination_local_id

  documented : (gid : List ℕ) → walk reset (steps gid) ≡ some rts
  documented gid = walk-transitions gid dest_qp destination_local_id

  go_live-IsOrderly :
      (v : Verbs) (k : List Modify → Trace)
      → ((gid : List ℕ) → IsOrderly steps (k (steps gid)))
      → (gid : List ℕ)
      → IsOrderly steps
          (go_live v dest_qp destination_local_id k (qp_reset_to_init call 1 ∷ []) gid)
  unfolding go_live
  go_live-IsOrderly v k h gid =
      modify-modify-IsOrderly steps documented v (qp_reset_to_init call 1 ∷ [])
        (qp_init_to_rtr call gid dest_qp destination_local_id 1) (qp_rtr_to_rts call) k (h gid)

  run_client-IsOrderly :
      (v : Verbs) (mem : List ℕ) (inputs : List Input)
      → IsOrderly steps (run_client v dest_qp destination_local_id mem inputs)
  unfolding run_client
  run_client-IsOrderly v mem inputs =
      prepare_lem (IsOrderly steps) (stopped-IsOrderly steps documented) v (qp_reset_to_init call 1)
        (go_live v dest_qp destination_local_id (send_all v mem inputs))
        (go_live-IsOrderly v (send_all v mem inputs)
          (λ gid. send_all-IsOrderly steps documented v mem inputs gid))

  run_server-IsOrderly :
      (v : Verbs) (mem : List ℕ) (rounds : List Round)
      → IsOrderly steps (run_server v dest_qp destination_local_id mem rounds)
  unfolding run_server
  run_server-IsOrderly v mem rounds =
      prepare_lem (IsOrderly steps) (stopped-IsOrderly steps documented) v (qp_reset_to_init call 1)
        (go_live v dest_qp destination_local_id (listen_all v mem rounds))
        (go_live-IsOrderly v (listen_all v mem rounds)
          (λ gid. listen_all-IsOrderly steps documented v mem rounds gid))

  start-IsOrderly :
      (m : Main) (run : ℕ → Trace)
      → ((i : ℕ) → IsOrderly steps (run i))
      → IsOrderly steps (start m run)
  unfolding start
  start-IsOrderly exits run h = stopped-IsOrderly steps documented exited []
  start-IsOrderly overflows run h = stopped-IsOrderly steps documented crashed []
  start-IsOrderly (runs i db_file) run h = h i

  -- Whatever the arguments, the devices and the outcome of the calls, neither program sends or
  -- prints anything but behind three calls that lead its queue pair from RESET to RTS by
  -- documented steps, towards the number and the identifier that were entered.
  mains-IsOrderly :
      (argv : List (List ℕ)) (opts : List ServerOption) (device_list : Option (List (List ℕ)))
      (devices : ℕ → Verbs) (mem : List ℕ) (inputs : List Input) (rounds : List Round)
      → IsOrderly steps
          (client_main argv device_list devices dest_qp destination_local_id mem inputs)
        × IsOrderly steps
            (server_main argv opts device_list devices dest_qp destination_local_id mem rounds)
  unfolding client_main server_main
  mains-IsOrderly argv opts device_list devices mem inputs rounds = (
    start-IsOrderly (main_client argv device_list) _
        (λ i. run_client-IsOrderly (devices i) mem inputs),
    start-IsOrderly (main_server argv opts device_list) _
        (λ i. run_server-IsOrderly (devices i) mem rounds),
  )

-- With memories of 256 bytes, and words of at most 50 characters, none of them zero: when every
-- call succeeds and what the client posts arrives, both queue pairs are led to RTS, each towards
-- its own GID and the number and identifier that were entered, the client posts a message for each
-- word that it reads, and the server prints these words in order; both wait for more.
pub conversation_lem :
    (gid gid' : List ℕ) (n n' dest_qp dest_qp' lid lid' idle : ℕ) (mem mem' : List ℕ)
    (words : List (List ℕ))
    → length mem ≡ 256
    → length mem' ≡ 256
    → AreWords words
    → (posted : List (List ℕ)) × (run_client
          (succeeding gid n)
          dest_qp
          lid
          mem
          (map posted_at_once words)
        ≡ record { modified = transitions gid dest_qp lid; messages = posted; ended = waiting })
      × (run_server (succeeding gid' n') dest_qp' lid' mem' (map (arrival idle) posted)
          ≡ record { modified = transitions gid' dest_qp' lid'; messages = words; ended = waiting })
unfolding run_client run_server prepare check_port modify go_live send_all listen_all
conversation_lem gid gid' n n' dest_qp dest_qp' lid lid' idle mem mem' words l l' h =
    let (posted, e, c) = send_loop-Carry mem words l h in
    (
      posted,
      rw e refl,
      rw (listen_loop_lem idle mem' (zeros 256) posted words l' (length-zeros 256) c) refl,
    )
