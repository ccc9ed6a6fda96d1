-- ===== src/Qp/Client.antt =====
-- `run_client` of programs/rdma-progs/client-server/client.c, with the exchange that it calls.
-- Memory that is not initialised is an argument: the message buffer of the exchange, `mem`, and
-- the identifier `destination_local_id`.
pub mod Laws
use fuzzing_rdma.Base.{
  c_string, ℕ, suc, ◌-◌, ◌%◌, ◌^◌, Bool, true, false, Option, none, some, List, [], ◌∷◌, ◌++◌, take,
  zeros, overwrite, ◌==◌, if◌then◌else◌, ◌>>=◌, ℤ, pos, negsuc,
}
use fuzzing_rdma.Exchange.{ConnInf}
use fuzzing_rdma.Exchange.Session.{xch_conn_inf_client}
use fuzzing_rdma.Exchange.Session as Session
use fuzzing_rdma.Qp.Transitions.{qp_init_to_rtr, qp_rtr_to_rts}
use fuzzing_rdma.Qp.Transitions.Laws.{Modify, call}
use fuzzing_rdma.Qp.Setup.{Verbs, End, exited, crashed, waiting, Trace, stopped, modify, prepare}

-- The conversion of `cinf.qpn` to `uint32_t`.
abbrev pub uint32 : ℤ → ℕ
uint32 (pos n) = n % 2 ^ 32
uint32 (negsuc n) = 2 ^ 32 - suc (n % 2 ^ 32)

-- `memset(&cinf, 0, sizeof cinf)`
abbrev pub conn_inf_zero : ConnInf
conn_inf_zero = record { gid = zeros 16; qpn = pos 0 }

-- A round of the loop: the word that `scanf` reads, and what `ibv_post_send` returns.
abbrev pub Input : Type 0
Input = List ℕ × ℕ

-- `mem` behind `scanf("%50s", input_buf)` and `strcpy(mem, input_buf)`
unfoldable pub fill_mem : List ℕ → List ℕ → Option (List ℕ)
fill_mem mem word = do
  input_buf ← overwrite (zeros 256) (take 50 word ++ 0 ∷ [])
  s ← c_string input_buf
  overwrite mem (s ++ 0 ∷ [])

-- The loop: what is posted, and the end.
unfoldable pub send_loop : List ℕ → List Input → List (List ℕ) × End
send_loop mem [] = ([], waiting)
send_loop mem ((word, ret) ∷ rest) = elim (fill_mem mem word) [
  | none ↦ ([], crashed)
  | some mem' ↦
      let (posted, ended) = send_loop mem' rest in
      if ret == 0 then (mem' ∷ posted, ended) else (mem' ∷ [], exited)
]

-- The memory region, and the loop. `mr` is used before it is tested.
unfoldable pub send_all : Verbs → List ℕ → List Input → List Modify → Trace
unfolding send_loop
send_all v mem inputs log =
    let (posted, ended) = send_loop mem inputs in
    if v.reg_mr
    then record { modified = log; messages = posted; ended = ended }
    else stopped crashed log

-- From the exchange to RTS; its status is not tested.
unfoldable pub go_live :
    Verbs → ℕ → (List Modify → Trace) → List Modify → Option (Session.Result ConnInf) → Trace
go_live v destination_local_id k log none = stopped crashed log
go_live v destination_local_id k log (some (status, cinf, calls)) =
    modify v log (qp_init_to_rtr call cinf.gid (uint32 cinf.qpn) destination_local_id 1)
      (λ log'. modify v log' (qp_rtr_to_rts call) k)

unfoldable pub run_client : Verbs → Session.Net → List ℕ → ℕ → List ℕ → List Input → Trace
unfolding prepare modify go_live send_all
run_client v net msg_send destination_local_id mem inputs = prepare v (λ log gid qpn.
    go_live v destination_local_id (send_all v mem inputs) log
      (xch_conn_inf_client msg_send net qpn gid conn_inf_zero))
