-- ===== src/Keyed/Storage.antt =====
-- vagrant-environment/key_based_storage: client.c and server.c, which both name their function
-- `run_server`. The attributes are set in place.
pub mod Client
pub mod Server
pub mod Laws
use fuzzing_rdma.Base.{ℕ, Option, none, some, List, [], ◌∷◌}
use fuzzing_rdma.Qp.Transitions.{
  init, rtr, QpAttr, attr_zero, AttrMask, state_flag, pkey_index_flag, port_flag, access_flags_flag,
  av_flag, path_mtu_flag, dest_qpn_flag, rq_psn_flag, max_dest_rd_atomic_flag, min_rnr_timer_flag,
  mtu_1024, local_write, remote_read, remote_write, qp_rtr_to_rts,
}
use fuzzing_rdma.Qp.Transitions.Laws.{Modify, call}
use fuzzing_rdma.Qp.Setup.{Verbs, exited, crashed, Trace, stopped, modify}

abbrev pub init_call : Modify
init_call = (
  record attr_zero {
    qp_state = init;
    port_num = 1;
    pkey_index = 0;
    qp_access_flags = local_write ∷ remote_read ∷ remote_write ∷ [];
  },
  state_flag ∷ pkey_index_flag ∷ port_flag ∷ access_flags_flag ∷ [],
)

abbrev pub rtr_call : List ℕ → ℕ → ℕ → Modify
rtr_call gid dest_qp destination_local_id = (
  record attr_zero {
    qp_state = rtr;
    path_mtu = mtu_1024;
    rq_psn = 0;
    max_dest_rd_atomic = 1;
    min_rnr_timer = 0x12;
    dest_qp_num = dest_qp;
    ah_attr = record {
      is_global = 1;
      dgid = gid;
      sl = 0;
      src_path_bits = 0;
      ah_port_num = 1;
      dlid = destination_local_id;
    };
  },
  state_flag ∷ av_flag ∷ path_mtu_flag ∷ dest_qpn_flag ∷ rq_psn_flag ∷ max_dest_rd_atomic_flag
      ∷ min_rnr_timer_flag ∷ [],
)

-- The transitions to RTR and RTS, towards the own GID. The attributes for RTS are those of
-- `qp_rtr_to_rts`.
unfoldable pub go_live : Verbs → ℕ → ℕ → (List Modify → Trace) → List Modify → List ℕ → Trace
unfolding modify
go_live v dest_qp destination_local_id k log gid =
    modify v log (rtr_call gid dest_qp destination_local_id)
      (λ log'. modify v log' (qp_rtr_to_rts call) k)

-- `main`, which runs the first device. A null pointer ends the list: in an empty one it is opened.
unfoldable pub main : Option (List Verbs) → (Verbs → Trace) → Trace
main none run = stopped exited []
main (some []) run = stopped crashed []
main (some (v ∷ vs)) run = run v
