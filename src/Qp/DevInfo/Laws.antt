-- ===== src/Qp/DevInfo/Laws.antt =====
-- Why `run_server` of dev_info.c never gets a queue pair to RTS: its second call asks for RESET in
-- place of RTR, and from RESET its third call has no documented step.
use fuzzing_rdma.Base.{
  ◌||◌, ◌&&◌, inr, inl, Bool-cases, map, ℕ, ◌≡◌, ◌≢◌, refl, Bool, true, false, Option, none, some,
  List, [], ◌∷◌, ◌==◌, if◌then◌else◌, arith,
}
use fuzzing_rdma.Qp.Transitions.{
  QpState, reset, init, rtr, rts, AttrMask, state_flag, timeout_flag, rnr_retry_flag,
  retry_cnt_flag, max_qp_rd_atomic_flag, sq_psn_flag, QpAttr,
}
use fuzzing_rdma.Qp.Transitions.Laws.{has, accept}
use fuzzing_rdma.Qp.DevInfo.{
  rts_attr, run_first, Device, main, Calls, init_attr, rtr_attr, modify_all, run_server,
}

-- The states, numbered.
abbrev state_number : QpState → ℕ
state_number reset = 0
state_number init = 1
state_number rtr = 2
state_number rts = 3

-- The calls that ask for RESET: from every state, they need the state alone.
abbrev to_reset : QpAttr → List AttrMask → Bool
to_reset attr mask = state_number attr.qp_state == 0 && has mask state_flag

-- The calls that ask for the state that the queue pair is in.
abbrev stays : QpState → QpAttr → Bool
stays from attr = state_number from == state_number attr.qp_state

-- The calls that the documentation of the verbs library allows: a step to RESET from any state, one
-- on the way from RESET to RTS with all the attributes that it requires, or none to another state.
abbrev pub allowed : QpState → QpAttr → List AttrMask → Bool
allowed from attr mask = elim (accept from (attr, mask)) [
  | some to ↦ true
  | none ↦ to_reset attr mask || stays from attr
]

-- A verbs library that refuses the calls that its documentation does not allow. Whether it accepts
-- the others is left open.
abbrev pub Refuses : Calls → Type 0
Refuses calls =
    (from : QpState) (attr : QpAttr) (mask : List AttrMask)
    → allowed from attr mask ≡ false
    → calls.modify_qp from attr mask ≢ 0

nonzero : (n : ℕ) → n ≢ 0 → (n == 0) ≡ false
nonzero n h = ground arith

if_one : (b : Bool) (x : ℕ) → x ≡ 1 → (if b then x else 1) ≡ 1
if_one true x e = e
if_one false x e = refl

if_refused : (b : Bool) (x : ℕ) → b ≡ false → (if b then x else 1) ≡ 1
if_refused true x e = absurd (cc)
if_refused false x e = refl

-- The mask of the third call.
abbrev rts_mask : List AttrMask
rts_mask =
    state_flag ∷ sq_psn_flag ∷ max_qp_rd_atomic_flag ∷ retry_cnt_flag ∷ rnr_retry_flag
    ∷ timeout_flag ∷ []

module _ (calls : Calls) (refuses : Refuses calls) where
  modify_all_lem :
      (qp_attr : QpAttr) (gid : List ℕ) (dest_qpn : ℕ) → modify_all calls qp_attr gid dest_qpn ≡ 1
  unfolding modify_all
  modify_all_lem qp_attr gid dest_qpn =
      let third =
        nonzero _
          (refuses reset (rts_attr (rtr_attr (init_attr qp_attr) gid dest_qpn)) rts_mask refl) in
      if_one _ _ (if_one _ _ (if_refused _ _ third))

  -- With a verbs library that refuses what its documentation does not allow, the function ends
  -- with status 1, whatever the attributes held before and whatever number is entered: the
  -- second call has cleared the state that it asks for, so that the queue pair, if the call is
  -- accepted, is in RESET when the third one asks for RTS.
  pub run_server-fails : (qp_attr : QpAttr) (dest_qpn : ℕ) → run_server calls qp_attr dest_qpn ≡ 1
  unfolding run_server
  run_server-fails qp_attr dest_qpn = if_one _ _ (with_gid calls.query_gid)
    where
      with_gid :
          (o : Option (List ℕ))
          → ◌≡◌ {A = ℕ}
              (elim o [
                | none ↦ 1
                | some gid ↦
                    if calls.alloc_pd
                    then if calls.create_cq
                      then if calls.create_qp then modify_all calls qp_attr gid dest_qpn else 1
                      else 1
                    else 1
              ])
              1
      with_gid none = refl
      with_gid (some gid) = if_one calls.alloc_pd (if calls.create_cq then with_cq else 1) (
          if_one calls.create_cq with_cq (
            if_one calls.create_qp (modify_all calls qp_attr gid dest_qpn)
              (modify_all_lem qp_attr gid dest_qpn)))
        where
          with_cq : ℕ
          with_cq = if calls.create_qp then modify_all calls qp_attr gid dest_qpn else 1

-- Every device refuses what the documentation does not allow.
abbrev pub AllRefuse : List Device → Type 0
AllRefuse [] = Unit {0}
AllRefuse (device ∷ devices) = Refuses device.calls × AllRefuse devices

-- With devices that refuse every call of `ibv_modify_qp` but the documented ones, which are those
-- to RESET that give the state, those that stay in a state, and the steps from RESET to RTS with
-- what they require, the program never ends with status 0: it prints the names of all devices and
-- ends with status 1, or, if there is none, opens a null pointer.
pub main-fails :
    (device : Device) (rest : List Device) (qp_attr : QpAttr) (dest_qpn : ℕ)
    → AllRefuse (device ∷ rest)
    → (main none qp_attr dest_qpn ≡ ([], some 1))
      × (main (some []) qp_attr dest_qpn ≡ ([], none))
      × (main (some (device ∷ rest)) qp_attr dest_qpn
          ≡ (device.name ∷ map (λ d. d.name) rest, some 1))
unfolding main run_first
main-fails device rest qp_attr dest_qpn (h, k) =
    let failed = run_server-fails device.calls h qp_attr dest_qpn in
    (refl, refl, elim (Bool-cases device.opens) [ inl e ↦ rw (e, failed) refl | inr e ↦ rw e refl ])
