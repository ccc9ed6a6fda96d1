-- ===== src/Qp/Server.antt =====
-- `run_server` of programs/rdma-progs/client-server/server.c, with the exchange that it calls.
-- Memory that is not initialised is an argument: the message buffer of the exchange, `mem`, and
-- the variables `dest_qp` and `destination_local_id`.
pub mod Laws
use fuzzing_rdma.Base.{
  c_string, ℕ, zero, suc, Bool, true, false, Option, none, some, List, [], ◌∷◌, ◌++◌, length, zeros,
  fill, overwrite, ◌==◌, if◌then◌else◌, ◌>>=◌, ℤ, pos, negsuc, is_negative,
}
use fuzzing_rdma.Exchange.{ConnInf}
use fuzzing_rdma.Exchange.Session.{xch_conn_inf_server}
use fuzzing_rdma.Exchange.Session as Session
use fuzzing_rdma.Qp.Transitions.{qp_init_to_rtr, qp_rtr_to_rts}
use fuzzing_rdma.Qp.Transitions.Laws.{Modify, call}
use fuzzing_rdma.Qp.Setup.{Verbs, End, exited, crashed, waiting, Trace, stopped, modify, prepare}
use fuzzing_rdma.Qp.Client.{conn_inf_zero}

-- A round of the loop: what `ibv_post_recv` returns, the results of `ibv_poll_cq`, whether the
-- completion's status is IBV_WC_SUCCESS, and the bytes that the adapter writes to `mem`.
pub record Round : Type 0 where
  pub post_recv : ℕ
  pub polls : List ℤ
  pub success : Bool
  pub message : List ℕ

-- `do { … } while (poll_cq_ret == 0)`: the first result that is not 0, if there is one.
abbrev pub poll_cq : List ℤ → Option ℤ
poll_cq [] = none
poll_cq (pos zero ∷ rest) = poll_cq rest
poll_cq (pos (suc n) ∷ rest) = some (pos (suc n))
poll_cq (negsuc n ∷ rest) = some (negsuc n)

-- The end of a round: the text printed, `mem` and `buffer`. `none` is an access out of bounds.
unfoldable pub take_message : List ℕ → List ℕ → List ℕ → Option (List ℕ × List ℕ × List ℕ)
take_message mem buffer message = do
  mem' ← overwrite mem message
  text ← c_string mem'
  buffer' ← overwrite buffer (text ++ 0 ∷ [])
  mem_cleared ← fill mem' 256 0
  buffer_cleared ← fill buffer' 256 0
  some (text, mem_cleared, buffer_cleared)

-- The listening loop: the texts printed, and the end.
unfoldable pub listen_loop : List ℕ → List ℕ → List Round → List (List ℕ) × End
listen_loop mem buffer [] = ([], waiting)
listen_loop mem buffer (r ∷ rest) =
    if r.post_recv == 0
    then elim (poll_cq r.polls) [
      | none ↦ ([], waiting)
      | some ret ↦
          if is_negative ret
          then ([], exited)
          else if r.success
          then elim (take_message mem buffer r.message) [
            | none ↦ ([], crashed)
            | some (text, mem', buffer') ↦
                let (texts, ended) = listen_loop mem' buffer' rest in (text ∷ texts, ended)
          ]
          else ([], exited)
    ]
    else ([], exited)

-- The memory region, and the loop.
unfoldable pub listen_all : Verbs → List ℕ → List Round → List Modify → Trace
unfolding listen_loop
listen_all v mem rounds log =
    let (texts, ended) = listen_loop mem (zeros 256) rounds in
    if v.reg_mr
    then record { modified = log; messages = texts; ended = ended }
    else stopped exited log

-- From the exchange to RTS: neither its status nor what it learnt is used.
unfoldable pub go_live :
    Verbs
    → List ℕ
    → ℕ
    → ℕ
    → (List Modify → Trace)
    → List Modify
    → Option (Session.Result ConnInf)
    → Trace
go_live v gid dest_qp destination_local_id k log none = stopped crashed log
go_live v gid dest_qp destination_local_id k log (some result) =
    modify v log (qp_init_to_rtr call gid dest_qp destination_local_id 1)
      (λ log'. modify v log' (qp_rtr_to_rts call) k)

unfoldable pub run_server : Verbs → Session.Net → List ℕ → ℕ → ℕ → List ℕ → List Round → Trace
unfolding prepare modify go_live listen_all
run_server v net msg_send dest_qp destination_local_id mem rounds = prepare v (λ log gid qpn.
    go_live v gid dest_qp destination_local_id (listen_all v mem rounds) log
      (xch_conn_inf_server msg_send net qpn gid conn_inf_zero))
