-- ===== src/Keyed/Storage/Server.antt =====
-- `run_server` of vagrant-environment/key_based_storage/server.c: one message is received.
use fuzzing_rdma.Base.{
  c_string, ℕ, Option, none, some, List, [], ◌∷◌, overwrite, ◌==◌, if◌then◌else◌, ◌>>=◌,
  is_negative,
}
use fuzzing_rdma.Qp.Transitions.Laws.{Modify}
use fuzzing_rdma.Qp.Setup.{Verbs, exited, crashed, waiting, returned, Trace, stopped}
use fuzzing_rdma.Qp.Server.{Round, poll_cq}
use fuzzing_rdma.Keyed.Setup.{prepare}
use fuzzing_rdma.Keyed.Storage.{init_call, go_live}

-- The text at `mem` behind the receipt; `none` is an access out of bounds.
abbrev pub received_text : List ℕ → List ℕ → Option (List ℕ)
received_text mem message = overwrite mem message >>= λ mem'. c_string mem'

-- The request to receive, the polls, the text printed, and the end of the region.
unfoldable pub receive_one : Verbs → Round → ℕ → List ℕ → List Modify → Trace
receive_one v r dereg_mr mem log =
    if v.reg_mr
    then if r.post_recv == 0
      then elim (poll_cq r.polls) [
        | none ↦ stopped waiting log
        | some ret ↦
            if is_negative ret
            then stopped exited log
            else if r.success
            then elim (received_text mem r.message) [
              | none ↦ stopped crashed log
              | some text ↦ record {
                modified = log;
                messages = text ∷ [];
                ended = if dereg_mr == 0 then returned else exited;
              }
            ]
            else stopped exited log
      ]
      else stopped exited log
    else stopped exited log

unfoldable pub run_server : Verbs → ℕ → ℕ → Round → ℕ → List ℕ → Trace
unfolding prepare go_live receive_one
run_server v dest_qp destination_local_id r dereg_mr mem =
    prepare v init_call (go_live v dest_qp destination_local_id (receive_one v r dereg_mr mem))
