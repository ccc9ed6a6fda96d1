-- ===== src/Qp/Setup.antt =====
-- What `run_client` (client.c) and `run_server` (server.c of programs/rdma-progs/client-server)
-- share: the calls of the verbs library, whose results are parameters, from the device to the
-- exchange, and the C strings of the two loops.
use fuzzing_rdma.Base.{
  Option-cases, ℕ, Bool, Option, none, some, List, [], ◌∷◌, ◌++◌, length, ◌==◌, leb, if◌then◌else◌,
  inl, inr, Bool-cases,
}
use fuzzing_rdma.Exchange.Decimal.{print_int}
use fuzzing_rdma.Qp.Transitions.{QpAttr, AttrMask, qp_reset_to_init}
use fuzzing_rdma.Qp.Transitions.Laws.{Modify, call}

-- How the calls turn out: whether a pointer is not null, the GID, the number of the queue pair,
-- and what `ibv_modify_qp` and `ibv_query_port` return.
pub record Verbs : Type 0 where
  pub open_device : Bool
  pub query_gid : Option (List ℕ)
  pub alloc_pd : Bool
  pub create_cq : Bool
  pub create_qp : Option ℕ
  pub modify_qp : QpAttr → List AttrMask → ℕ
  pub query_port : ℕ
  pub reg_mr : Bool

-- How a run ends: with exit(1); in undefined behaviour; waiting for the next input; by a return.
pub data End : Type 0 where
  exited : End
  crashed : End
  waiting : End
  returned : End

-- A run: the calls of `ibv_modify_qp`, the messages sent or printed, and the end.
pub record Trace : Type 0 where
  pub modified : List Modify
  pub messages : List (List ℕ)
  pub ended : End

-- A run that ends before its loop.
abbrev pub stopped : End → List Modify → Trace
stopped ended log = record { modified = log; messages = []; ended = ended }

-- A transition, with the exit if it fails; `log` are the calls of `ibv_modify_qp` so far.
unfoldable pub modify : Verbs → List Modify → Modify → (List Modify → Trace) → Trace
modify v log (attr, mask) k =
    let log' = log ++ (call attr mask ∷ []) in
    if v.modify_qp attr mask == 0 then k log' else stopped exited log'

-- `ibv_query_port` and the text of the own number, in `char qpn[10]`.
unfoldable pub name_qp :
    Verbs → (List Modify → List ℕ → List ℕ → Trace) → List ℕ → ℕ → List Modify → Trace
name_qp v k gid qp_num log =
    if v.query_port == 0
    then (if leb (length (print_int qp_num)) 9
        then k log gid (print_int qp_num)
        else stopped crashed log)
    else stopped exited log

-- From `ibv_open_device` to the text of the own number, which has 10 bytes: `k` goes on with the
-- calls so far, the GID and the text.
unfoldable pub prepare : Verbs → (List Modify → List ℕ → List ℕ → Trace) → Trace
prepare v k =
    if v.open_device
    then elim v.query_gid [
      | none ↦ stopped exited []
      | some gid ↦
          if v.alloc_pd
          then if v.create_cq
            then elim v.create_qp [
              | none ↦ stopped exited []
              | some qp_num ↦ modify v [] (qp_reset_to_init call 1) (λ log.
                  if v.query_port == 0
                  then (if leb (length (print_int qp_num)) 9
                      then k log gid (print_int qp_num)
                      else stopped crashed log)
                  else stopped exited log)
            ]
            else stopped exited []
          else stopped exited []
    ]
    else stopped exited []

module _ (Known : List Modify → Type 0) (Good : Trace → Type 0)
    (stops : (e : End) (log : List Modify) → Known log → Good (stopped e log)) where
  -- What holds of every run that stops early behind known calls, and of what follows, holds of the
  -- run.
  pub modify_known :
      (v : Verbs) (log : List Modify) (m : Modify) (k : List Modify → Trace)
      → Known (log ++ (m ∷ []))
      → Good (k (log ++ (m ∷ [])))
      → Good (modify v log m k)
  unfolding modify
  modify_known v log (attr, mask) k c h = elim (Bool-cases (v.modify_qp attr mask == 0)) [
    | inl e ↦ rw e h
    | inr e ↦ rw e (stops exited _ c)
  ]

  name_qp_known :
      (v : Verbs) (k : List Modify → List ℕ → List ℕ → Trace) (gid : List ℕ) (qp_num : ℕ)
      (log : List Modify)
      → Known log
      → Good (k log gid (print_int qp_num))
      → Good (name_qp v k gid qp_num log)
  unfolding name_qp
  name_qp_known v k gid qp_num log c h = elim (Bool-cases (v.query_port == 0)) [
    | inr e ↦ rw e (stops exited log c)
    | inl e ↦ elim (Bool-cases (leb (length (print_int qp_num)) 9)) [
      | inr f ↦ rw (e, f) (stops crashed log c)
      | inl f ↦ rw (e, f) h
    ]
  ]

  pub prepare_known :
      (v : Verbs) (k : List Modify → List ℕ → List ℕ → Trace)
      → Known []
      → Known (qp_reset_to_init call 1 ∷ [])
      → ((gid qpn : List ℕ) → Good (k (qp_reset_to_init call 1 ∷ []) gid qpn))
      → Good (prepare v k)
  unfolding prepare name_qp
  prepare_known v k c d h = elim (Bool-cases v.open_device) [
    | inr e ↦ rw e (stops exited [] c)
    | inl e ↦ elim (Option-cases v.query_gid) [
      | inl f ↦ rw (e, f) (stops exited [] c)
      | inr (gid, f) ↦ elim (Bool-cases v.alloc_pd) [
        | inr g ↦ rw (e, f, g) (stops exited [] c)
        | inl g ↦ elim (Bool-cases v.create_cq) [
          | inr i ↦ rw (e, f, g, i) (stops exited [] c)
          | inl i ↦ elim (Option-cases v.create_qp) [
            | inl j ↦ rw (e, f, g, i, j) (stops exited [] c)
            | inr (n, j) ↦
                rw (e, f, g, i, j)
                  (modify_known v [] (qp_reset_to_init call 1) (name_qp v k gid n) d
                    (name_qp_known v k gid n _ d (h gid (print_int n))))
          ]
        ]
      ]
    ]
  ]

-- All calls are known.
abbrev pub Any : List Modify → Type 0
Any log = Unit {0}

module _ (Good : Trace → Type 0)
    (stops : (e : End) (log : List Modify) → Good (stopped e log)) where
  -- What holds of every run that stops early, and of what follows, holds of the run.
  pub modify_lem :
      (v : Verbs) (log : List Modify) (m : Modify) (k : List Modify → Trace)
      → Good (k (log ++ (m ∷ [])))
      → Good (modify v log m k)
  modify_lem v log m k = modify_known Any Good (λ e l any. stops e l) v log m k tt

  pub prepare_lem :
      (v : Verbs) (k : List Modify → List ℕ → List ℕ → Trace)
      → ((gid qpn : List ℕ) → Good (k (qp_reset_to_init call 1 ∷ []) gid qpn))
      → Good (prepare v k)
  prepare_lem v k = prepare_known Any Good (λ e l any. stops e l) v k tt tt
