-- ===== src/Keyed/Improved.antt =====
-- vagrant-environment/key_based_improved: client.c and server.c. Their transitions, loops and
-- searches for a device are word for word those of programs/rdma-progs/client-server, so these
-- definitions call the ones of Qp; there is no exchange, and the partner is what `scanf` reads.
pub mod Laws
use fuzzing_rdma.Base.{ℕ, Option, List, [], ◌∷◌}
use fuzzing_rdma.Qp.Transitions.{qp_reset_to_init, qp_init_to_rtr, qp_rtr_to_rts}
use fuzzing_rdma.Qp.Transitions.Laws.{Modify, call}
use fuzzing_rdma.Qp.Setup.{Verbs, exited, crashed, Trace, stopped, modify}
use fuzzing_rdma.Qp.Client.{Input, send_all}
use fuzzing_rdma.Qp.Server.{Round, listen_all}
use fuzzing_rdma.Qp.Devices.{Main, exits, overflows, runs, ServerOption, main_client, main_server}
use fuzzing_rdma.Keyed.Setup.{prepare}

-- The transitions to RTR and RTS, towards the own GID.
unfoldable pub go_live : Verbs → ℕ → ℕ → (List Modify → Trace) → List Modify → List ℕ → Trace
unfolding modify
go_live v dest_qp destination_local_id k log gid =
    modify v log (qp_init_to_rtr call gid dest_qp destination_local_id 1)
      (λ log'. modify v log' (qp_rtr_to_rts call) k)

-- `dest_qp` and `destination_local_id` are what `scanf` leaves in the two variables.
unfoldable pub run_client : Verbs → ℕ → ℕ → List ℕ → List Input → Trace
unfolding prepare go_live send_all
run_client v dest_qp destination_local_id mem inputs =
    prepare v (qp_reset_to_init call 1)
      (go_live v dest_qp destination_local_id (send_all v mem inputs))

unfoldable pub run_server : Verbs → ℕ → ℕ → List ℕ → List Round → Trace
unfolding prepare go_live listen_all
run_server v dest_qp destination_local_id mem rounds =
    prepare v (qp_reset_to_init call 1)
      (go_live v dest_qp destination_local_id (listen_all v mem rounds))

-- What follows the search for a device: the run of the device found.
unfoldable pub start : Main → (ℕ → Trace) → Trace
start exits run = stopped exited []
start overflows run = stopped crashed []
start (runs i db_file) run = run i

-- `main` of the client; `devices` are the verbs of the devices in the list.
unfoldable pub client_main :
    List (List ℕ) → Option (List (List ℕ)) → (ℕ → Verbs) → ℕ → ℕ → List ℕ → List Input → Trace
unfolding main_client start run_client
client_main argv device_list devices dest_qp destination_local_id mem inputs =
    start (main_client argv device_list)
      (λ i. run_client (devices i) dest_qp destination_local_id mem inputs)

unfoldable pub server_main :
    List (List ℕ)
    → List ServerOption
    → Option (List (List ℕ))
    → (ℕ → Verbs)
    → ℕ
    → ℕ
    → List ℕ
    → List Round
    → Trace
unfolding main_server start run_server
server_main argv opts device_list devices dest_qp destination_local_id mem rounds =
    start (main_server argv opts device_list)
      (λ i. run_server (devices i) dest_qp destination_local_id mem rounds)
