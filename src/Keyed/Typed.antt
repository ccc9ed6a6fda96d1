-- ===== src/Keyed/Typed.antt =====
-- The six programs that connect a queue pair, those of programs/rdma-progs/client-server and those
-- of the two key based directories of vagrant-environment: all follow the protocol of the queue
-- pair.
pub mod Steps
pub mod Laws
use fuzzing_rdma.Base.{
  arith, Option-cases, ℕ, ◌≡◌, refl, Bool-cases, inl, inr, some, none, Option, List, [], ◌∷◌, ◌++◌,
  overwrite, is_negative, ◌==◌,
}
use fuzzing_rdma.Exchange.{ConnInf}
use fuzzing_rdma.Exchange.Session as Session
use fuzzing_rdma.Exchange.Session.{xch_conn_inf_client, xch_conn_inf_server}
use fuzzing_rdma.Qp.Transitions.{
  reset, init, rtr, rts, qp_reset_to_init, qp_init_to_rtr, qp_rtr_to_rts,
}
use fuzzing_rdma.Qp.Transitions.Laws.{Modify, call, transitions, walk-transitions}
use fuzzing_rdma.Qp.Setup as Qp
use fuzzing_rdma.Qp.Setup.{Verbs, exited, crashed, Trace}
use fuzzing_rdma.Qp.Typestate.{
  IsPath, IsTyped, IsPath-of_walk, stopped-IsTyped, IsTyped-of_modified, modify-modify-IsTyped,
}
use fuzzing_rdma.Qp.Client as Client
use fuzzing_rdma.Qp.Client.{Input, uint32, conn_inf_zero, send_all}
use fuzzing_rdma.Qp.Server as Server
use fuzzing_rdma.Qp.Server.{Round, poll_cq, listen_all}
use fuzzing_rdma.Qp.Devices.{Main, exits, overflows, runs, ServerOption, main_client, main_server}
use fuzzing_rdma.Keyed.Setup.{prepare, prepare_known}
use fuzzing_rdma.Keyed.Improved as Improved
use fuzzing_rdma.Keyed.Improved.{start}
use fuzzing_rdma.Keyed.Storage as Storage
use fuzzing_rdma.Keyed.Storage.{init_call, rtr_call}
use fuzzing_rdma.Keyed.Storage.Client as StorageClient
use fuzzing_rdma.Keyed.Storage.Client.{hello_object, send_one}
use fuzzing_rdma.Keyed.Storage.Server as StorageServer
use fuzzing_rdma.Keyed.Storage.Server.{received_text, receive_one}

-- A program with all that comes to it from outside: its arguments, the devices and the outcomes of
-- their calls, the network, what is entered, and memory that is not initialised.
pub data Program : Type 0 where
  client :
      (argv : List (List ℕ)) (device_list : Option (List (List ℕ))) (devices : ℕ → Verbs)
      (net : Session.Net) (msg_send : List ℕ) (destination_local_id : ℕ) (mem : List ℕ)
      (inputs : List Input)
      → Program
  server :
      (argv : List (List ℕ)) (opts : List ServerOption) (device_list : Option (List (List ℕ)))
      (devices : ℕ → Verbs) (net : Session.Net) (msg_send : List ℕ)
      (dest_qp destination_local_id : ℕ) (mem : List ℕ) (rounds : List Round)
      → Program
  improved_client :
      (argv : List (List ℕ)) (device_list : Option (List (List ℕ))) (devices : ℕ → Verbs)
      (dest_qp destination_local_id : ℕ) (mem : List ℕ) (inputs : List Input)
      → Program
  improved_server :
      (argv : List (List ℕ)) (opts : List ServerOption) (device_list : Option (List (List ℕ)))
      (devices : ℕ → Verbs) (dest_qp destination_local_id : ℕ) (mem : List ℕ) (rounds : List Round)
      → Program
  storage_client :
      (devices : Option (List Verbs)) (dest_qp destination_local_id post_send : ℕ) (mem : List ℕ)
      → Program
  storage_server :
      (devices : Option (List Verbs)) (dest_qp destination_local_id : ℕ) (r : Round) (dereg_mr : ℕ)
      (mem : List ℕ)
      → Program

-- `main` of the program.
pub run : Program → Trace
unfolding start Storage.main
run (client argv device_list devices net msg_send destination_local_id mem inputs) =
    start (main_client argv device_list)
      (λ i. Client.run_client (devices i) net msg_send destination_local_id mem inputs)
run (server argv opts device_list devices net msg_send dest_qp destination_local_id mem rounds) =
    start (main_server argv opts device_list)
      (λ i. Server.run_server (devices i) net msg_send dest_qp destination_local_id mem rounds)
run (improved_client argv device_list devices dest_qp destination_local_id mem inputs) =
    Improved.client_main argv device_list devices dest_qp destination_local_id mem inputs
run (improved_server argv opts device_list devices dest_qp destination_local_id mem rounds) =
    Improved.server_main argv opts device_list devices dest_qp destination_local_id mem rounds
run (storage_client devices dest_qp destination_local_id post_send mem) =
    Storage.main devices
      (λ v. StorageClient.run_server v dest_qp destination_local_id post_send mem)
run (storage_server devices dest_qp destination_local_id r dereg_mr mem) =
    Storage.main devices
      (λ v. StorageServer.run_server v dest_qp destination_local_id r dereg_mr mem)
