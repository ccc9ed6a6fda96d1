-- ===== src/Qp/Transitions/Laws.antt =====
-- The transitions that the verbs library documents for a queue pair of a reliable connection: the
-- next state, and the attributes that have to be given; and what the three calls to RTS are to be.
use fuzzing_rdma.Base.{
  ℕ, Bool, true, false, Option, none, some, List, [], ◌∷◌, ◌&&◌, ◌||◌, ◌==◌, if◌then◌else◌, ◌≡◌,
  refl,
}
use fuzzing_rdma.Qp.Transitions.{
  QpState, reset, init, rtr, rts, AttrMask, state_flag, pkey_index_flag, port_flag,
  access_flags_flag, av_flag, path_mtu_flag, dest_qpn_flag, rq_psn_flag, max_dest_rd_atomic_flag,
  min_rnr_timer_flag, sq_psn_flag, max_qp_rd_atomic_flag, retry_cnt_flag, rnr_retry_flag,
  timeout_flag, QpAttr, Mtu, mtu_cleared, mtu_4096, local_write, remote_read, remote_write,
}

-- A call of `ibv_modify_qp`.
abbrev pub Modify : Type 0
Modify = QpAttr × List AttrMask

abbrev pub call : QpAttr → List AttrMask → Modify
call attr mask = (attr, mask)

abbrev pub flag_number : AttrMask → ℕ
flag_number state_flag = 0
flag_number pkey_index_flag = 1
flag_number port_flag = 2
flag_number access_flags_flag = 3
flag_number av_flag = 4
flag_number path_mtu_flag = 5
flag_number dest_qpn_flag = 6
flag_number rq_psn_flag = 7
flag_number max_dest_rd_atomic_flag = 8
flag_number min_rnr_timer_flag = 9
flag_number sq_psn_flag = 10
flag_number max_qp_rd_atomic_flag = 11
flag_number retry_cnt_flag = 12
flag_number rnr_retry_flag = 13
flag_number timeout_flag = 14

abbrev pub has : List AttrMask → AttrMask → Bool
has [] f = false
has (g ∷ mask) f = (flag_number g == flag_number f) || has mask f

abbrev pub has_all : List AttrMask → List AttrMask → Bool
has_all mask [] = true
has_all mask (f ∷ fs) = has mask f && has_all mask fs

-- the attributes required for the step from one state to the next
abbrev pub required : QpState → QpState → Option (List AttrMask)
required reset init = some (state_flag ∷ pkey_index_flag ∷ port_flag ∷ access_flags_flag ∷ [])
required init rtr = some (
    state_flag ∷ av_flag ∷ path_mtu_flag ∷ dest_qpn_flag ∷ rq_psn_flag ∷ max_dest_rd_atomic_flag
    ∷ min_rnr_timer_flag ∷ [])
required rtr rts = some (
    state_flag ∷ sq_psn_flag ∷ timeout_flag ∷ retry_cnt_flag ∷ rnr_retry_flag
    ∷ max_qp_rd_atomic_flag ∷ [])
required from to = none

-- One call: the next state, if it is one that is documented and all it requires is given.
abbrev pub accept : QpState → Modify → Option QpState
accept from (attr, mask) = elim (required from attr.qp_state) [
  | none ↦ none
  | some flags ↦ if has_all mask flags then some attr.qp_state else none
]

-- The state behind a sequence of calls.
abbrev pub walk : QpState → List Modify → Option QpState
walk from [] = some from
walk from (m ∷ ms) = elim (accept from m) [ none ↦ none | some to ↦ walk to ms ]

-- An object with every attribute zero.
abbrev no_attributes : QpAttr
no_attributes = record {
  qp_state = reset;
  port_num = 0;
  pkey_index = 0;
  qp_access_flags = [];
  path_mtu = mtu_cleared;
  rq_psn = 0;
  max_dest_rd_atomic = 0;
  min_rnr_timer = 0;
  dest_qp_num = 0;
  ah_attr = record {
    is_global = 0;
    dgid = 0 ∷ 0 ∷ 0 ∷ 0 ∷ 0 ∷ 0 ∷ 0 ∷ 0 ∷ 0 ∷ 0 ∷ 0 ∷ 0 ∷ 0 ∷ 0 ∷ 0 ∷ 0 ∷ [];
    sl = 0;
    src_path_bits = 0;
    ah_port_num = 0;
    dlid = 0;
  };
  sq_psn = 0;
  max_rd_atomic = 0;
  retry_cnt = 0;
  rnr_retry = 0;
  timeout = 0;
}

-- What the call to INIT is to be: port 1, with local writes and remote reads and writes.
abbrev to_init : Modify
to_init = (
  record no_attributes {
    qp_state = init;
    port_num = 1;
    qp_access_flags = local_write ∷ remote_read ∷ remote_write ∷ [];
  },
  state_flag ∷ pkey_index_flag ∷ port_flag ∷ access_flags_flag ∷ [],
)

-- The call to RTR, towards a queue pair with its GID, number and local identifier, through port 1.
abbrev to_rtr : Mtu → List ℕ → ℕ → ℕ → Modify
to_rtr mtu gid dest_qp destination_local_id = (
  record no_attributes {
    qp_state = rtr;
    path_mtu = mtu;
    max_dest_rd_atomic = 1;
    min_rnr_timer = 18;
    dest_qp_num = dest_qp;
    ah_attr = record {
      is_global = 1;
      dgid = gid;
      sl = 0;
      src_path_bits = 0;
      ah_port_num = 1;
      dlid = destination_local_id;
    };
  },
  state_flag ∷ av_flag ∷ path_mtu_flag ∷ dest_qpn_flag ∷ rq_psn_flag ∷ max_dest_rd_atomic_flag
      ∷ min_rnr_timer_flag ∷ [],
)

-- The call to RTS, with seven retries and the timeout 18.
abbrev to_rts : Modify
to_rts = (
  record no_attributes { qp_state = rts; retry_cnt = 7; rnr_retry = 7; timeout = 18 },
  state_flag ∷ sq_psn_flag ∷ max_qp_rd_atomic_flag ∷ retry_cnt_flag ∷ rnr_retry_flag ∷ timeout_flag
      ∷ [],
)

-- The three calls that lead a queue pair to RTS, every attribute written out.
abbrev pub calls_to_rts : Mtu → List ℕ → ℕ → ℕ → List Modify
calls_to_rts mtu gid dest_qp destination_local_id =
    to_init ∷ to_rtr mtu gid dest_qp destination_local_id ∷ to_rts ∷ []

-- those of the programs that use qp_transitions.c
abbrev pub transitions : List ℕ → ℕ → ℕ → List Modify
transitions = calls_to_rts mtu_4096

pub walk-transitions :
    (gid : List ℕ) (dest_qp destination_local_id : ℕ)
    → walk reset (transitions gid dest_qp destination_local_id) ≡ some rts
walk-transitions gid dest_qp destination_local_id = refl
