-- ===== src/Keyed/Orderly.antt =====
-- What all runs of the four programs keep, however the calls turn out.
use fuzzing_rdma.Base.{ℕ, ◌≡◌, refl, ◌⊎◌, inl, inr, Bool-cases, some, List, [], ◌∷◌, ◌++◌}
use fuzzing_rdma.Qp.Transitions.{reset, rts}
use fuzzing_rdma.Qp.Transitions.Laws.{Modify, walk}
use fuzzing_rdma.Qp.Setup.{End, Trace, stopped, Verbs, modify, modify_lem}
use fuzzing_rdma.Qp.Client.{Input, send_all}
use fuzzing_rdma.Qp.Server.{Round, listen_all}

-- Nothing is sent or printed, or the queue pair was led to RTS by the given calls, for a GID.
abbrev pub IsOrderly : (List ℕ → List Modify) → Trace → Type 0
IsOrderly calls t =
    (t.messages ≡ [])
    ⊎ ((gid : List ℕ) × (t.modified ≡ calls gid) × (walk reset t.modified ≡ some rts))

module _ (calls : List ℕ → List Modify)
    (documented : (gid : List ℕ) → walk reset (calls gid) ≡ some rts) where
  pub stopped-IsOrderly : (e : End) (log : List Modify) → IsOrderly calls (stopped e log)
  stopped-IsOrderly e log = inl refl

  -- Two transitions, and what follows them.
  pub modify-modify-IsOrderly :
      (v : Verbs) (log : List Modify) (m m' : Modify) (k : List Modify → Trace)
      → IsOrderly calls (k ((log ++ (m ∷ [])) ++ (m' ∷ [])))
      → IsOrderly calls (modify v log m (λ log'. modify v log' m' k))
  modify-modify-IsOrderly v log m m' k h =
      modify_lem (IsOrderly calls) stopped-IsOrderly v log m (λ log'. modify v log' m' k)
        (modify_lem (IsOrderly calls) stopped-IsOrderly v (log ++ (m ∷ [])) m' k h)

  pub send_all-IsOrderly :
      (v : Verbs) (mem : List ℕ) (inputs : List Input) (gid : List ℕ)
      → IsOrderly calls (send_all v mem inputs (calls gid))
  unfolding send_all
  send_all-IsOrderly v mem inputs gid = elim (Bool-cases v.reg_mr) [
    | inr f ↦ rw f (inl refl)
    | inl f ↦ rw f (inr (gid, refl, documented gid))
  ]

  pub listen_all-IsOrderly :
      (v : Verbs) (mem : List ℕ) (rounds : List Round) (gid : List ℕ)
      → IsOrderly calls (listen_all v mem rounds (calls gid))
  unfolding listen_all
  listen_all-IsOrderly v mem rounds gid = elim (Bool-cases v.reg_mr) [
    | inr f ↦ rw f (inl refl)
    | inl f ↦ rw f (inr (gid, refl, documented gid))
  ]
