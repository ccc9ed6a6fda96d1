-- ===== src/Keyed/Setup.antt =====
-- What the four programs do first: the calls of the verbs library from the device to the query of
-- the port, with the transition to INIT between them.
use fuzzing_rdma.Base.{
  Option-cases, ℕ, none, some, List, [], ◌∷◌, ◌==◌, if◌then◌else◌, Bool-cases, inl, inr,
}
use fuzzing_rdma.Qp.Transitions.Laws.{Modify}
use fuzzing_rdma.Qp.Setup.{Verbs, End, exited, Trace, stopped, modify, modify_known, Any}

-- `ibv_query_port`
unfoldable pub check_port : Verbs → (List Modify → Trace) → List Modify → Trace
check_port v k log = if v.query_port == 0 then k log else stopped exited log

-- From `ibv_open_device` on; `init_call` is the call that leads to INIT, and `k` goes on with the
-- calls so far and the GID.
unfoldable pub prepare : Verbs → Modify → (List Modify → List ℕ → Trace) → Trace
unfolding modify check_port
prepare v init_call k =
    if v.open_device
    then elim v.query_gid [
      | none ↦ stopped exited []
      | some gid ↦
          if v.alloc_pd
          then if v.create_cq
            then elim v.create_qp [
              | none ↦ stopped exited []
              | some qp_num ↦ modify v [] init_call (check_port v (λ log. k log gid))
            ]
            else stopped exited []
          else stopped exited []
    ]
    else stopped exited []

module _ (Known : List Modify → Type 0) (Good : Trace → Type 0)
    (stops : (e : End) (log : List Modify) → Known log → Good (stopped e log)) where
  check_port_known :
      (v : Verbs) (k : List Modify → Trace) (log : List Modify)
      → Known log
      → Good (k log)
      → Good (check_port v k log)
  unfolding check_port
  check_port_known v k log c h = elim (Bool-cases (v.query_port == 0)) [
    | inr e ↦ rw e (stops exited log c)
    | inl e ↦ rw e h
  ]

  -- What holds of every run that stops early behind known calls, and of what follows, holds of the
  -- run.
  pub prepare_known :
      (v : Verbs) (init_call : Modify) (k : List Modify → List ℕ → Trace)
      → Known []
      → Known (init_call ∷ [])
      → ((gid : List ℕ) → Good (k (init_call ∷ []) gid))
      → Good (prepare v init_call k)
  unfolding prepare
  prepare_known v init_call k c d h = elim (Bool-cases v.open_device) [
    | inr e ↦ rw e (stops exited [] c)
    | inl e ↦ elim (Option-cases v.query_gid) [
      | inl f ↦ rw (e, f) (stops exited [] c)
      | inr (gid, f) ↦ elim (Bool-cases v.alloc_pd) [
        | inr g ↦ rw (e, f, g) (stops exited [] c)
        | inl g ↦ elim (Bool-cases v.create_cq) [
          | inr i ↦ rw (e, f, g, i) (stops exited [] c)
          | inl i ↦ elim (Option-cases v.create_qp) [
            | inl j ↦ rw (e, f, g, i, j) (stops exited [] c)
            | inr (n, j) ↦
                rw (e, f, g, i, j)
                  (modify_known Known Good stops v [] init_call (check_port v (λ log. k log gid)) d
                    (check_port_known v (λ log. k log gid) (init_call ∷ []) d (h gid)))
          ]
        ]
      ]
    ]
  ]

-- What holds of every run that stops early, and of what follows, holds of the run.
pub prepare_lem :
    (Good : Trace → Type 0)
    → ((e : End) (log : List Modify) → Good (stopped e log))
    → (v : Verbs) (init_call : Modify) (k : List Modify → List ℕ → Trace)
    → ((gid : List ℕ) → Good (k (init_call ∷ []) gid))
    → Good (prepare v init_call k)
prepare_lem Good stops v init_call k =
    prepare_known Any Good (λ e l any. stops e l) v init_call k tt tt
