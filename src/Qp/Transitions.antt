-- ===== src/Qp/Transitions.antt =====
-- programs/rdma-progs/client-server/qp_transitions.c: the attributes and masks that are given to
-- `ibv_modify_qp`, which is a parameter. The constants of the verbs library are constructors; the
-- flags of a mask are a list.
pub mod Laws
use fuzzing_rdma.Base.{ℕ, List, [], ◌∷◌}

-- `enum ibv_qp_state`, as far as the program uses it
pub data QpState : Type 0 where
  reset : QpState
  init : QpState
  rtr : QpState
  rts : QpState

-- the flags of `enum ibv_qp_attr_mask`
pub data AttrMask : Type 0 where
  state_flag : AttrMask
  pkey_index_flag : AttrMask
  port_flag : AttrMask
  access_flags_flag : AttrMask
  av_flag : AttrMask
  path_mtu_flag : AttrMask
  dest_qpn_flag : AttrMask
  rq_psn_flag : AttrMask
  max_dest_rd_atomic_flag : AttrMask
  min_rnr_timer_flag : AttrMask
  sq_psn_flag : AttrMask
  max_qp_rd_atomic_flag : AttrMask
  retry_cnt_flag : AttrMask
  rnr_retry_flag : AttrMask
  timeout_flag : AttrMask

pub data Access : Type 0 where
  local_write : Access
  remote_read : Access
  remote_write : Access

-- `enum ibv_mtu`; a cleared field is no constant of it.
pub data Mtu : Type 0 where
  mtu_cleared : Mtu
  mtu_256 : Mtu
  mtu_1024 : Mtu
  mtu_4096 : Mtu

-- the fields of `struct ibv_ah_attr` that are set
pub record AhAttr : Type 0 where
  pub is_global : ℕ
  pub dgid : List ℕ
  pub sl : ℕ
  pub src_path_bits : ℕ
  pub ah_port_num : ℕ
  pub dlid : ℕ

-- the fields of `struct ibv_qp_attr` that are set
pub record QpAttr : Type 0 where
  pub qp_state : QpState
  pub port_num : ℕ
  pub pkey_index : ℕ
  pub qp_access_flags : List Access
  pub path_mtu : Mtu
  pub rq_psn : ℕ
  pub max_dest_rd_atomic : ℕ
  pub min_rnr_timer : ℕ
  pub dest_qp_num : ℕ
  pub ah_attr : AhAttr
  pub sq_psn : ℕ
  pub max_rd_atomic : ℕ
  pub retry_cnt : ℕ
  pub rnr_retry : ℕ
  pub timeout : ℕ

-- A union `ibv_gid` of zeros.
abbrev pub gid_zero : List ℕ
gid_zero = 0 ∷ 0 ∷ 0 ∷ 0 ∷ 0 ∷ 0 ∷ 0 ∷ 0 ∷ 0 ∷ 0 ∷ 0 ∷ 0 ∷ 0 ∷ 0 ∷ 0 ∷ 0 ∷ []

-- `memset` of the whole struct: IBV_QPS_RESET is 0.
abbrev pub attr_zero : QpAttr
attr_zero = record {
  qp_state = reset;
  port_num = 0;
  pkey_index = 0;
  qp_access_flags = [];
  path_mtu = mtu_cleared;
  rq_psn = 0;
  max_dest_rd_atomic = 0;
  min_rnr_timer = 0;
  dest_qp_num = 0;
  ah_attr = record {
    is_global = 0;
    dgid = gid_zero;
    sl = 0;
    src_path_bits = 0;
    ah_port_num = 0;
    dlid = 0;
  };
  sq_psn = 0;
  max_rd_atomic = 0;
  retry_cnt = 0;
  rnr_retry = 0;
  timeout = 0;
}

module _ {ℓ} {R : Type ℓ} (ibv_modify_qp : QpAttr → List AttrMask → R) where
  abbrev pub qp_reset_to_init : ℕ → R
  qp_reset_to_init port_num =
      ibv_modify_qp
        (record attr_zero {
          qp_state = init;
          port_num = port_num;
          pkey_index = 0;
          qp_access_flags = local_write ∷ remote_read ∷ remote_write ∷ [];
        })
        (state_flag ∷ pkey_index_flag ∷ port_flag ∷ access_flags_flag ∷ [])

  abbrev pub qp_init_to_rtr : List ℕ → ℕ → ℕ → ℕ → R
  qp_init_to_rtr gid dest_qp destination_local_id port_num =
      ibv_modify_qp
        (record attr_zero {
          qp_state = rtr;
          path_mtu = mtu_4096;
          rq_psn = 0;
          max_dest_rd_atomic = 1;
          min_rnr_timer = 0x12;
          dest_qp_num = dest_qp;
          ah_attr = record {
            is_global = 1;
            dgid = gid;
            sl = 0;
            src_path_bits = 0;
            ah_port_num = port_num;
            dlid = destination_local_id;
          };
        })
        (state_flag ∷ av_flag ∷ path_mtu_flag ∷ dest_qpn_flag ∷ rq_psn_flag
          ∷ max_dest_rd_atomic_flag ∷ min_rnr_timer_flag ∷ [])

  abbrev pub qp_rtr_to_rts : R
  qp_rtr_to_rts =
      ibv_modify_qp
        (record attr_zero {
          qp_state = rts;
          sq_psn = 0;
          max_rd_atomic = 0;
          retry_cnt = 7;
          rnr_retry = 7;
          timeout = 18;
        })
        (state_flag ∷ sq_psn_flag ∷ max_qp_rd_atomic_flag ∷ retry_cnt_flag ∷ rnr_retry_flag
          ∷ timeout_flag ∷ [])
