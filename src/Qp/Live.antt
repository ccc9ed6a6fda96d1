-- ===== src/Qp/Live.antt =====
-- Whole runs of the client and the server when every call succeeds.
use fuzzing_rdma.Base.{
  ℕ, ◌%◌, ◌^◌, ◌<◌, ◌≡◌, refl, true, some, List, map, length, le→leb, leb, zeros, length-zeros,
  arith,
}
use fuzzing_rdma.Exchange.Decimal.{print_int}
use fuzzing_rdma.Exchange.RoundTrip.{message}
use fuzzing_rdma.Exchange.Session.Both.{delivering, short, server_side, client_side}
use fuzzing_rdma.Qp.Transitions.Laws.{transitions}
use fuzzing_rdma.Qp.Setup.{Verbs, waiting, modify, name_qp, prepare}
use fuzzing_rdma.Qp.Client as Client
use fuzzing_rdma.Qp.Client.{conn_inf_zero, uint32, send_all, run_client}
use fuzzing_rdma.Qp.Client.Laws.{AreWords, Carry, posted_at_once, send_loop-Carry}
use fuzzing_rdma.Qp.Server as Server
use fuzzing_rdma.Qp.Server.{listen_all, run_server}
use fuzzing_rdma.Qp.Server.Laws.{arrival, listen_loop_lem}

-- A verbs library whose calls succeed, with a GID and the number of the queue pair.
abbrev pub succeeding : List ℕ → ℕ → Verbs
succeeding gid n = record {
  open_device = true;
  query_gid = some gid;
  alloc_pd = true;
  create_cq = true;
  create_qp = some n;
  modify_qp = λ attr mask. 0;
  query_port = 0;
  reg_mr = true;
}

module _ (gid gid' : List ℕ) (n n' : ℕ) (msg_send mem : List ℕ) (destination_local_id : ℕ)
    (g : length gid ≡ 16) (g' : length gid' ≡ 16) (k : n < 2 ^ 24) (k' : n' < 2 ^ 24)
    (l : length msg_send ≡ 100) (lm : length mem ≡ 256) where
  named : leb (length (print_int n)) 9 ≡ true
  named = le→leb (length (print_int n)) 9 (short gid n g k)

  wide : n' % 2 ^ 32 ≡ n'
  wide = omega arith

  -- If every call succeeds and the message of a partner arrives, the client takes its queue pair
  -- to RTS towards the GID and the number of that partner, then posts one message for each word
  -- that it reads, and waits for more. GIDs have 16 bytes, numbers 24 bits, and words at most 50
  -- characters, none of them zero.
  pub run_client_lem :
      (words : List (List ℕ))
      → AreWords words
      → (posted : List (List ℕ)) × (run_client
            (succeeding gid n)
            (delivering (message gid' (print_int n') 100))
            msg_send
            destination_local_id
            mem
            (map posted_at_once words)
          ≡ record {
            modified = transitions gid' n' destination_local_id;
            messages = posted;
            ended = waiting;
          })
        × Carry posted words
  unfolding run_client prepare name_qp modify Client.go_live send_all
  run_client_lem words h =
      let (posted, e, c) = send_loop-Carry mem words lm h in
      (
        posted,
        rw (named, client_side gid gid' n n' msg_send conn_inf_zero g g' k k' l, e, wide) refl,
        c,
      )

  -- If every call succeeds and the message of a partner arrives, the server takes its queue pair
  -- to RTS, though towards its own GID and the variables that were never set, then prints the
  -- text of each message of 256 bytes that arrives, and waits for more.
  pub run_server_lem :
      (dest_qp idle : ℕ) (messages texts : List (List ℕ))
      → Carry messages texts
      → run_server
          (succeeding gid n)
          (delivering (message gid' (print_int n') 100))
          msg_send
          dest_qp
          destination_local_id
          mem
          (map (arrival idle) messages)
        ≡ record {
          modified = transitions gid dest_qp destination_local_id;
          messages = texts;
          ended = waiting;
        }
  unfolding run_server prepare name_qp modify Server.go_live listen_all
  run_server_lem dest_qp idle messages texts c =
      rw
        (
          named,
          server_side gid gid' n n' msg_send conn_inf_zero g g' k k' l,
          listen_loop_lem idle mem (zeros 256) messages texts lm (length-zeros 256) c,
        )
        refl
