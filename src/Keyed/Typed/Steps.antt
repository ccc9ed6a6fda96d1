-- ===== src/Keyed/Typed/Steps.antt =====
-- The parts of the six programs that call `ibv_modify_qp`: each keeps to the protocol of the queue pair.
use fuzzing_rdma.Base.{arith, ℕ, ◌≡◌, refl, some, none, Option, List, [], ◌∷◌}
use fuzzing_rdma.Exchange.{ConnInf}
use fuzzing_rdma.Exchange.Session as Session
use fuzzing_rdma.Exchange.Session.{xch_conn_inf_client, xch_conn_inf_server}
use fuzzing_rdma.Qp.Transitions.{
  reset, init, rtr, rts, qp_reset_to_init, qp_init_to_rtr, qp_rtr_to_rts,
}
use fuzzing_rdma.Qp.Transitions.Laws.{Modify, call, transitions}
use fuzzing_rdma.Qp.Setup as Qp
use fuzzing_rdma.Qp.Setup.{Verbs, exited, crashed, Trace}
use fuzzing_rdma.Qp.Typestate.{
  IsPath, IsTyped, IsPath-of_walk, stopped-IsTyped, IsTyped-of_modified, modify-modify-IsTyped,
}
use fuzzing_rdma.Qp.Client as Client
use fuzzing_rdma.Qp.Client.{Input, uint32, conn_inf_zero, send_all}
use fuzzing_rdma.Qp.Server as Server
use fuzzing_rdma.Qp.Server.{Round, poll_cq, listen_all}
use fuzzing_rdma.Qp.Devices.{Main, exits, overflows, runs}
use fuzzing_rdma.Keyed.Setup.{prepare, prepare_known}
use fuzzing_rdma.Keyed.Improved.{start}
use fuzzing_rdma.Keyed.Storage as Storage
use fuzzing_rdma.Keyed.Storage.Laws as Laws
use fuzzing_rdma.Keyed.Storage.{init_call, rtr_call}
use fuzzing_rdma.Keyed.Storage.Client.{send_one}
use fuzzing_rdma.Keyed.Storage.Server.{receive_one}

-- What follows RTS makes no further call.
module _ (v : Verbs) (mem : List ℕ) (log : List Modify) where
  pub modified-send_all : (inputs : List Input) → (send_all v mem inputs log).modified ≡ log
  unfolding send_all
  modified-send_all inputs = ground arith

  pub modified-listen_all : (rounds : List Round) → (listen_all v mem rounds log).modified ≡ log
  unfolding listen_all
  modified-listen_all rounds = ground arith

  pub modified-send_one : (post_send : ℕ) → (send_one v post_send mem log).modified ≡ log
  unfolding send_one
  modified-send_one post_send = ground arith

  pub modified-receive_one :
      (r : Round) (dereg_mr : ℕ) → (receive_one v r dereg_mr mem log).modified ≡ log
  unfolding receive_one
  modified-receive_one r dereg_mr = ground arith

-- The two calls to RTR and RTS behind the one to INIT, and what follows them and makes no further
-- call.
module _ (v : Verbs) (k : List Modify → Trace) (same : (log : List Modify) → (k log).modified ≡ log)
    (gid : List ℕ) (dest_qp destination_local_id : ℕ) where
  pub connect-IsTyped : IsTyped (
      Qp.modify v
        (qp_reset_to_init call 1 ∷ [])
        (qp_init_to_rtr call gid dest_qp destination_local_id 1)
        (λ log. Qp.modify v log (qp_rtr_to_rts call) k))
  connect-IsTyped =
      modify-modify-IsTyped v _ _ _ k (IsPath-of_walk _ rtr refl) (IsPath-of_walk _ rts refl)
        (IsTyped-of_modified (k calls) calls refl (same calls))
    where
      calls : List Modify
      calls = transitions gid dest_qp destination_local_id

  pub connect_storage-IsTyped : IsTyped (
      Qp.modify v
        (init_call ∷ [])
        (rtr_call gid dest_qp destination_local_id)
        (λ log. Qp.modify v log (qp_rtr_to_rts call) k))
  connect_storage-IsTyped =
      modify-modify-IsTyped v _ _ _ k (IsPath-of_walk _ rtr refl) (IsPath-of_walk _ rts refl)
        (IsTyped-of_modified (k calls) calls refl (same calls))
    where
      calls : List Modify
      calls = Laws.transitions gid dest_qp destination_local_id

pub start-IsTyped : (m : Main) (go : ℕ → Trace) → ((i : ℕ) → IsTyped (go i)) → IsTyped (start m go)
unfolding start
start-IsTyped exits go h = stopped-IsTyped exited [] (IsPath-of_walk [] reset refl)
start-IsTyped overflows go h = stopped-IsTyped crashed [] (IsPath-of_walk [] reset refl)
start-IsTyped (runs i db_file) go h = h i

pub main-IsTyped :
    (devices : Option (List Verbs)) (go : Verbs → Trace)
    → ((v : Verbs) → IsTyped (go v))
    → IsTyped (Storage.main devices go)
unfolding Storage.main
main-IsTyped none go h = stopped-IsTyped exited [] (IsPath-of_walk [] reset refl)
main-IsTyped (some []) go h = stopped-IsTyped crashed [] (IsPath-of_walk [] reset refl)
main-IsTyped (some (v ∷ vs)) go h = h v

-- The start up to INIT, in the two forms of the programs.
module _ (v : Verbs) where
  pub prepare_exchange-IsTyped :
      (k : List Modify → List ℕ → List ℕ → Trace)
      → ((gid qpn : List ℕ) → IsTyped (k (qp_reset_to_init call 1 ∷ []) gid qpn))
      → IsTyped (Qp.prepare v k)
  prepare_exchange-IsTyped k =
      Qp.prepare_known IsPath IsTyped stopped-IsTyped v k (IsPath-of_walk [] reset refl)
        (IsPath-of_walk _ init refl)

  pub prepare-IsTyped :
      (m : Modify) (k : List Modify → List ℕ → Trace)
      → IsPath (m ∷ [])
      → ((gid : List ℕ) → IsTyped (k (m ∷ []) gid))
      → IsTyped (prepare v m k)
  prepare-IsTyped m k =
      prepare_known IsPath IsTyped stopped-IsTyped v m k (IsPath-of_walk [] reset refl)

  pub client_go_live-IsTyped :
      (lid : ℕ) (k : List Modify → Trace) (o : Option (Session.Result ConnInf))
      → ((log : List Modify) → (k log).modified ≡ log)
      → IsTyped (Client.go_live v lid k (qp_reset_to_init call 1 ∷ []) o)
  unfolding Client.go_live
  client_go_live-IsTyped lid k none same = stopped-IsTyped crashed _ (IsPath-of_walk _ init refl)
  client_go_live-IsTyped lid k (some (status, cinf, calls)) same =
      connect-IsTyped v k same cinf.gid (uint32 cinf.qpn) lid

  pub server_go_live-IsTyped :
      (gid : List ℕ) (dest_qp lid : ℕ) (k : List Modify → Trace)
      (o : Option (Session.Result ConnInf))
      → ((log : List Modify) → (k log).modified ≡ log)
      → IsTyped (Server.go_live v gid dest_qp lid k (qp_reset_to_init call 1 ∷ []) o)
  unfolding Server.go_live
  server_go_live-IsTyped gid dest_qp lid k none same =
      stopped-IsTyped crashed _ (IsPath-of_walk _ init refl)
  server_go_live-IsTyped gid dest_qp lid k (some result) same =
      connect-IsTyped v k same gid dest_qp lid
