-- ===== src/Qp/DevInfo.antt =====
-- `run_server` of vagrant-environment/dev_info/dev_info.c, with the verbs library as a parameter.
-- `qp_attr` is not initialised: it is an argument, as is the number that `scanf` reads.
pub mod Laws
use fuzzing_rdma.Base.{map, ℕ, Bool, Option, none, some, List, [], ◌∷◌, ◌==◌, if◌then◌else◌}
use fuzzing_rdma.Qp.Transitions.{
  QpState, reset, init, rtr, rts, AttrMask, state_flag, pkey_index_flag, port_flag,
  access_flags_flag, av_flag, path_mtu_flag, dest_qpn_flag, rq_psn_flag, sq_psn_flag,
  max_qp_rd_atomic_flag, retry_cnt_flag, rnr_retry_flag, timeout_flag, mtu_cleared, mtu_256, AhAttr,
  QpAttr,
}

-- How the calls turn out; `ibv_modify_qp` answers by the state that the queue pair is in.
pub record Calls : Type 0 where
  pub query_port : ℕ
  pub query_gid : Option (List ℕ)
  pub alloc_pd : Bool
  pub create_cq : Bool
  pub create_qp : Bool
  pub modify_qp : QpState → QpAttr → List AttrMask → ℕ
  pub reg_mr : Bool
  pub post_recv : ℕ
  pub dereg_mr : ℕ

-- The attributes of the first call.
abbrev pub init_attr : QpAttr → QpAttr
init_attr qp_attr = record qp_attr {
  qp_state = init;
  pkey_index = 0;
  port_num = 1;
  qp_access_flags = [];
}

-- `memset(&qp_attr, 0, sizeof(qp_attr.ah_attr))`: the 32 bytes are the first fields of
-- `struct ibv_qp_attr` in the verbs library, up to and with `dest_qp_num`.
abbrev pub clear_head : QpAttr → QpAttr
clear_head qp_attr = record qp_attr {
  qp_state = reset;
  path_mtu = mtu_cleared;
  rq_psn = 0;
  sq_psn = 0;
  dest_qp_num = 0;
}

-- The attributes of the second call.
abbrev pub rtr_attr : QpAttr → List ℕ → ℕ → QpAttr
rtr_attr qp_attr gid dest_qpn =
    let set = record qp_attr {
      qp_state = rtr;
      pkey_index = 0;
      path_mtu = mtu_256;
      dest_qp_num = dest_qpn;
      rq_psn = 0;
    } in
    let cleared = clear_head set in
    record cleared {
      ah_attr = record cleared.ah_attr { dgid = gid; is_global = 1; ah_port_num = 1 };
    }

-- The attributes of the third call.
abbrev pub rts_attr : QpAttr → QpAttr
rts_attr qp_attr = record qp_attr {
  qp_state = rts;
  sq_psn = 0;
  max_rd_atomic = 0;
  retry_cnt = 7;
  rnr_retry = 7;
  timeout = 18;
}

-- The memory region and the receive request: the status of the whole function.
pub post : Calls → ℕ
post calls =
    if calls.reg_mr
    then (if calls.post_recv == 0 then (if calls.dereg_mr == 0 then 0 else 1) else 1)
    else 1

-- The three calls of `ibv_modify_qp`, and what follows: the exit status, or the result 0.
pub modify_all : Calls → QpAttr → List ℕ → ℕ → ℕ
modify_all calls qp_attr gid dest_qpn =
    let attr = init_attr qp_attr in
    let attr' = rtr_attr attr gid dest_qpn in
    let attr'' = rts_attr attr' in
    if calls.modify_qp reset attr
        (state_flag ∷ pkey_index_flag ∷ port_flag ∷ access_flags_flag ∷ [])
      == 0
    then (if calls.modify_qp attr.qp_state attr'
            (state_flag ∷ av_flag ∷ path_mtu_flag ∷ dest_qpn_flag ∷ rq_psn_flag ∷ [])
          == 0
        then (if calls.modify_qp attr'.qp_state attr'' (
                state_flag ∷ sq_psn_flag ∷ max_qp_rd_atomic_flag ∷ retry_cnt_flag ∷ rnr_retry_flag
                ∷ timeout_flag ∷ [])
              == 0
            then post calls
            else 1)
        else 1)
    else 1

unfoldable pub run_server : Calls → QpAttr → ℕ → ℕ
unfolding modify_all
run_server calls qp_attr dest_qpn =
    if calls.query_port == 0
    then elim calls.query_gid [
      | none ↦ 1
      | some gid ↦
          if calls.alloc_pd
          then if calls.create_cq
            then if calls.create_qp then modify_all calls qp_attr gid dest_qpn else 1
            else 1
          else 1
    ]
    else 1

-- A device of the list: its name, whether it opens, the calls on it, and the result of closing it.
pub record Device : Type 0 where
  pub name : List ℕ
  pub opens : Bool
  pub calls : Calls
  pub close : ℕ

-- What `main` does with the first device: its status. A null pointer ends the list, and `none` is
-- its use.
unfoldable pub run_first : List Device → QpAttr → ℕ → Option ℕ
unfolding run_server
run_first [] qp_attr dest_qpn = none
run_first (device ∷ rest) qp_attr dest_qpn =
    if device.opens
    then if run_server device.calls qp_attr dest_qpn == 0
      then if device.close == 0 then some 0 else some 1
      else some 1
    else some 1

-- The names that `main` prints, and its status.
unfoldable pub main : Option (List Device) → QpAttr → ℕ → List (List ℕ) × Option ℕ
unfolding run_first
main none qp_attr dest_qpn = ([], some 1)
main (some device_list) qp_attr dest_qpn =
    (map (λ device. device.name) device_list, run_first device_list qp_attr dest_qpn)
