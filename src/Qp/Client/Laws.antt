-- ===== src/Qp/Client/Laws.antt =====
-- What the client asks of its queue pair before it sends, and what it sends.
use fuzzing_rdma.Base.{
  c_string, IsText, c_string_lem, ℕ, ◌+◌, ◌≤◌, ◌<◌, ◌≡◌, refl, ap, ◌∙◌, ◌⊎◌, some, List, [], ◌∷◌,
  ◌++◌, map, length, drop, length-drop, zeros, take_all, overwrite, overwrite_lem, length-append,
  length-zeros, arith,
}
use mathlib.Core.List.{append_assoc}
use fuzzing_rdma.Exchange.{ConnInf}
use fuzzing_rdma.Exchange.Session.{Call, xch_conn_inf_client}
use fuzzing_rdma.Exchange.Session as Session
use fuzzing_rdma.Qp.Transitions.{reset, rts}
use fuzzing_rdma.Qp.Transitions.Laws.{walk, transitions}
use fuzzing_rdma.Qp.Setup.{Verbs, waiting, Trace}
use fuzzing_rdma.Qp.Client.{uint32, conn_inf_zero, Input, fill_mem, send_loop}

module _ (v : Verbs) (net : Session.Net) (msg_send : List ℕ) (destination_local_id : ℕ)
    (mem : List ℕ) (inputs : List Input) where
  -- Nothing is sent, or the queue pair was led to RTS by three documented steps, towards the GID
  -- and the number that an exchange left in `cinf`.
  abbrev pub IsConnected : Trace → Type 0
  IsConnected t =
      (t.messages ≡ [])
      ⊎ ((gid qpn : List ℕ) × (status : ℕ) × (cinf : ConnInf) × (calls : List Call)
          × (xch_conn_inf_client msg_send net qpn gid conn_inf_zero ≡ some (status, cinf, calls))
          × (t.modified ≡ transitions cinf.gid (uint32 cinf.qpn) destination_local_id)
          × (walk reset t.modified ≡ some rts))

-- An object of `n` bytes with a text and its zero at the start.
pub overwrite_text :
    (ys text : List ℕ)
    → length text < length ys
    → overwrite ys (text ++ 0 ∷ []) ≡ some (text ++ 0 ∷ drop (length text + 1) ys)
overwrite_text ys text h =
    overwrite_lem ys (text ++ 0 ∷ []) (omega (arith, length-append text (0 ∷ [])))
    ∙ ap some (
        append_assoc text (0 ∷ []) (drop (length (text ++ 0 ∷ [])) ys)
        ∙ ap (λ t. text ++ 0 ∷ drop t ys) (length-append text (0 ∷ [])))

fill_mem_lem :
    (mem word : List ℕ)
    → length mem ≡ 256
    → length word ≤ 50
    → IsText word
    → fill_mem mem word ≡ some (word ++ 0 ∷ drop (length word + 1) mem)
unfolding fill_mem
fill_mem_lem mem word l h t =
    rw
      (
        take_all 50 word h,
        overwrite_text (zeros 256) word (omega (arith, length-zeros 256)),
        c_string_lem word (drop (length word + 1) (zeros 256)) t,
      )
      (overwrite_text mem word (omega (arith, l)))

-- Words that `scanf` reads whole.
abbrev pub AreWords : List (List ℕ) → Type 0
AreWords [] = Unit {0}
AreWords (word ∷ words) = (length word ≤ 50) × IsText word × AreWords words

-- The texts that the messages of 256 bytes hold, one each.
abbrev pub Carry : List (List ℕ) → List (List ℕ) → Type 0
Carry [] [] = Unit {0}
Carry [] (word ∷ words) = [] ≡ word ∷ words
Carry (m ∷ messages) [] = m ∷ messages ≡ []
Carry (m ∷ messages) (word ∷ words) =
    (length m ≡ 256) × (c_string m ≡ some word) × Carry messages words

abbrev pub posted_at_once : List ℕ → Input
posted_at_once word = (word, 0)

-- If every word has at most 50 characters and every call of `ibv_post_send` succeeds, one message
-- of 256 bytes is posted for each word, which holds the word as a C string, and the client waits
-- for more, whatever `mem` held before.
pub send_loop-Carry :
    (mem : List ℕ) (words : List (List ℕ))
    → length mem ≡ 256
    → AreWords words
    → (posted : List (List ℕ)) × (send_loop mem (map posted_at_once words) ≡ (posted, waiting))
      × Carry posted words
unfolding send_loop fill_mem
send_loop-Carry mem [] l h = ([], refl, tt)
send_loop-Carry mem (word ∷ words) l (h, t, k) =
    let mem' : List ℕ = word ++ 0 ∷ drop (length word + 1) mem in
    let l' : length mem' ≡ 256 = omega (
      arith,
      length-append word (0 ∷ drop (length word + 1) mem),
      length-drop (length word + 1) mem,
    ) in
    let (posted, e, c) = send_loop-Carry mem' words l' k in
    (
      mem' ∷ posted,
      rw (fill_mem_lem mem word l h t, e) refl,
      (l', c_string_lem word (drop (length word + 1) mem) t, c),
    )
