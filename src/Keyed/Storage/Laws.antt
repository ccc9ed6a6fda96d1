-- ===== src/Keyed/Storage/Laws.antt =====
-- The runs of key_based_storage: orderly on every outcome of the calls, and complete when the
-- calls succeed.
use fuzzing_rdma.Base.{
  Option-cases, ℕ, ◌≡◌, refl, Bool-cases, inl, inr, some, List, [], ◌∷◌, ◌++◌, length, drop,
  overwrite, overwrite_lem, length-drop, is_negative, ◌==◌, arith,
}
use fuzzing_rdma.Qp.Transitions.{mtu_1024, qp_rtr_to_rts, reset, rts}
use fuzzing_rdma.Qp.Transitions.Laws.{Modify, calls_to_rts, call, walk}
use fuzzing_rdma.Qp.Setup.{Verbs, returned, Trace, modify}
use fuzzing_rdma.Qp.Live.{succeeding}
use fuzzing_rdma.Qp.Server.{Round, poll_cq}
use fuzzing_rdma.Qp.Server.Laws.{arrival, poll_cq_lem}
use fuzzing_rdma.Keyed.Setup.{prepare, check_port, prepare_lem}
use fuzzing_rdma.Keyed.Orderly.{IsOrderly, stopped-IsOrderly, modify-modify-IsOrderly}
use fuzzing_rdma.Keyed.Storage.{init_call, rtr_call, go_live, main}
use fuzzing_rdma.Keyed.Storage.Client as Client
use fuzzing_rdma.Keyed.Storage.Client.{hello, hello_object, send_one}
use fuzzing_rdma.Keyed.Storage.Server as Server
use fuzzing_rdma.Keyed.Storage.Server.{received_text, receive_one}

-- the three calls of a run, every attribute written out
abbrev pub transitions : List ℕ → ℕ → ℕ → List Modify
transitions = calls_to_rts mtu_1024

module _ (dest_qp destination_local_id : ℕ) where
  abbrev steps : List ℕ → List Modify
  steps gid = transitions gid dest_qp destination_local_id

  documented : (gid : List ℕ) → walk reset (transitions gid dest_qp destination_local_id) ≡ some rts
  documented gid = refl

  go_live-IsOrderly :
      (v : Verbs) (k : List Modify → Trace)
      → ((gid : List ℕ) → IsOrderly steps (k (steps gid)))
      → (gid : List ℕ)
      → IsOrderly steps (go_live v dest_qp destination_local_id k (init_call ∷ []) gid)
  unfolding go_live
  go_live-IsOrderly v k h gid =
      modify-modify-IsOrderly steps documented v (init_call ∷ [])
        (rtr_call gid dest_qp destination_local_id) (qp_rtr_to_rts call) k (h gid)

  send_one-IsOrderly :
      (v : Verbs) (post_send : ℕ) (mem : List ℕ) (gid : List ℕ)
      → IsOrderly steps (send_one v post_send mem (steps gid))
  unfolding send_one
  send_one-IsOrderly v post_send mem gid = elim (Option-cases (overwrite mem hello_object)) [
    | inl e ↦ rw e (inl refl)
    | inr (mem', e) ↦ elim (Bool-cases v.reg_mr) [
      | inr f ↦ rw (e, f) (inl refl)
      | inl f ↦ rw (e, f) (inr (gid, refl, documented gid))
    ]
  ]

  receive_one-IsOrderly :
      (v : Verbs) (r : Round) (dereg_mr : ℕ) (mem : List ℕ) (gid : List ℕ)
      → IsOrderly steps (receive_one v r dereg_mr mem (steps gid))
  unfolding receive_one
  receive_one-IsOrderly v r dereg_mr mem gid = elim (Bool-cases v.reg_mr) [
    | inr a ↦ rw a (inl refl)
    | inl a ↦ elim (Bool-cases (r.post_recv == 0)) [
      | inr b ↦ rw (a, b) (inl refl)
      | inl b ↦ elim (Option-cases (poll_cq r.polls)) [
        | inl c ↦ rw (a, b, c) (inl refl)
        | inr (ret, c) ↦ elim (Bool-cases (is_negative ret)) [
          | inl d ↦ rw (a, b, c, d) (inl refl)
          | inr d ↦ elim (Bool-cases r.success) [
            | inr e ↦ rw (a, b, c, d, e) (inl refl)
            | inl e ↦ elim (Option-cases (received_text mem r.message)) [
              | inl f ↦ rw (a, b, c, d, e, f) (inl refl)
              | inr (text, f) ↦ rw (a, b, c, d, e, f) (inr (gid, refl, documented gid))
            ]
          ]
        ]
      ]
    ]
  ]

  pub run_client-IsOrderly :
      (v : Verbs) (post_send : ℕ) (mem : List ℕ)
      → IsOrderly steps (Client.run_server v dest_qp destination_local_id post_send mem)
  unfolding Client.run_server
  run_client-IsOrderly v post_send mem =
      prepare_lem (IsOrderly steps) (stopped-IsOrderly steps documented) v init_call
        (go_live v dest_qp destination_local_id (send_one v post_send mem))
        (go_live-IsOrderly v (send_one v post_send mem) (send_one-IsOrderly v post_send mem))

  pub run_server-IsOrderly :
      (v : Verbs) (r : Round) (dereg_mr : ℕ) (mem : List ℕ)
      → IsOrderly steps (Server.run_server v dest_qp destination_local_id r dereg_mr mem)
  unfolding Server.run_server
  run_server-IsOrderly v r dereg_mr mem =
      prepare_lem (IsOrderly steps) (stopped-IsOrderly steps documented) v init_call
        (go_live v dest_qp destination_local_id (receive_one v r dereg_mr mem))
        (go_live-IsOrderly v (receive_one v r dereg_mr mem)
          (receive_one-IsOrderly v r dereg_mr mem))

-- With memories of 256 bytes, when every call succeeds and what the client posts arrives: both
-- queue pairs are led to RTS, each towards its own GID and the number and identifier that were
-- entered; the client posts one message of 256 bytes and returns, and the server prints "hello"
-- and returns.
pub hello_lem :
    (gid gid' : List ℕ) (n n' dest_qp dest_qp' lid lid' idle : ℕ) (mem mem' : List ℕ)
    → length mem ≡ 256
    → length mem' ≡ 256
    → (message : List ℕ) × (length message ≡ 256)
      × (main (some (succeeding gid n ∷ [])) (λ v. Client.run_server v dest_qp lid 0 mem) ≡ record {
        modified = transitions gid dest_qp lid;
        messages = message ∷ [];
        ended = returned;
      })
      × (main
            (some (succeeding gid' n' ∷ []))
            (λ v. Server.run_server v dest_qp' lid' (arrival idle message) 0 mem')
          ≡ record {
            modified = transitions gid' dest_qp' lid';
            messages = hello ∷ [];
            ended = returned;
          })
unfolding main Client.run_server Server.run_server prepare check_port modify go_live send_one
    receive_one
hello_lem gid gid' n n' dest_qp dest_qp' lid lid' idle mem mem' l l' =
    let long : length (drop 6 mem) ≡ 250 = omega (arith, length-drop 6 mem) in
    (
      hello_object ++ drop 6 mem,
      omega (arith, long),
      rw (overwrite_lem mem hello_object (omega (arith, l))) refl,
      rw
          (
            poll_cq_lem idle,
            overwrite_lem mem' (hello_object ++ drop 6 mem) (omega (arith, long, l')),
          )
          refl,
    )
