-- ===== src/Keyed/Storage/Client.antt =====
-- `run_server` of vagrant-environment/key_based_storage/client.c: one message is sent.
use fuzzing_rdma.Base.{ℕ, none, some, List, [], ◌∷◌, overwrite, ◌==◌, if◌then◌else◌}
use fuzzing_rdma.Qp.Transitions.Laws.{Modify}
use fuzzing_rdma.Qp.Setup.{Verbs, exited, crashed, returned, Trace, stopped}
use fuzzing_rdma.Keyed.Setup.{prepare}
use fuzzing_rdma.Keyed.Storage.{init_call, go_live}

-- "hello" with its zero
abbrev pub hello : List ℕ
hello = b'h' ∷ b'e' ∷ b'l' ∷ b'l' ∷ b'o' ∷ []

abbrev pub hello_object : List ℕ
hello_object = b'h' ∷ b'e' ∷ b'l' ∷ b'l' ∷ b'o' ∷ 0 ∷ []

-- The memory, its region, which is used before it is tested, and the request to send.
unfoldable pub send_one : Verbs → ℕ → List ℕ → List Modify → Trace
send_one v post_send mem log = elim (overwrite mem hello_object) [
  | none ↦ stopped crashed log
  | some mem' ↦
      if v.reg_mr
      then record {
        modified = log;
        messages = mem' ∷ [];
        ended = if post_send == 0 then returned else exited;
      }
      else stopped crashed log
]

-- `dest_qp` and `destination_local_id` are what `scanf` leaves in the two variables.
unfoldable pub run_server : Verbs → ℕ → ℕ → ℕ → List ℕ → Trace
unfolding prepare go_live send_one
run_server v dest_qp destination_local_id post_send mem =
    prepare v init_call (go_live v dest_qp destination_local_id (send_one v post_send mem))
