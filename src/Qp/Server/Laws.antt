-- ===== src/Qp/Server/Laws.antt =====
-- What the server asks of its queue pair before it listens, and what it prints.
use fuzzing_rdma.Base.{
  c_string, ℕ, zero, suc, ◌<◌, ◌≡◌, refl, sym, ap, ◌∙◌, ◌⊎◌, true, Option, none, some, List, [],
  ◌∷◌, ◌++◌, map, length, drop, zeros, replicate, clear_all, overwrite_lem, length-append,
  length-append-drop, length-zeros, arith, ◌>>=◌, pos, some_inj,
}
use fuzzing_rdma.Exchange.Session as Session
use fuzzing_rdma.Qp.Transitions.{reset, rts}
use fuzzing_rdma.Qp.Transitions.Laws.{walk, transitions}
use fuzzing_rdma.Qp.Setup.{Verbs, waiting, Trace}
use fuzzing_rdma.Qp.Client.{send_loop}
use fuzzing_rdma.Qp.Client.Laws.{AreWords, Carry, posted_at_once, send_loop-Carry}
use fuzzing_rdma.Qp.Server.{Round, poll_cq, take_message, listen_loop}

module _ (v : Verbs) (net : Session.Net) (msg_send : List ℕ) (dest_qp destination_local_id : ℕ)
    (mem : List ℕ) (rounds : List Round) where
  -- Nothing is printed, or the queue pair was led to RTS by three documented steps, towards the
  -- two variables that were never set.
  abbrev pub IsListening : Trace → Type 0
  IsListening t =
      (t.messages ≡ [])
      ⊎ ((gid : List ℕ) × (t.modified ≡ transitions gid dest_qp destination_local_id)
          × (walk reset t.modified ≡ some rts))

-- A round in which a message arrives after a number of polls that find nothing.
abbrev pub arrival : ℕ → List ℕ → Round
arrival idle message = record {
  post_recv = 0;
  polls = replicate idle (pos 0) ++ pos 1 ∷ [];
  success = true;
  message = message;
}

pub poll_cq_lem : (idle : ℕ) → poll_cq (replicate idle (pos 0) ++ pos 1 ∷ []) ≡ some (pos 1)
poll_cq_lem zero = refl
poll_cq_lem (suc idle) = poll_cq_lem idle

-- The texts of a message with a first byte that is not zero.
c_string-suc :
    (x : ℕ) (m text : List ℕ)
    → c_string (suc x ∷ m) ≡ some text
    → (text' : List ℕ) × (c_string m ≡ some text') × (text ≡ suc x ∷ text')
c_string-suc x m text h = go (c_string m) refl h
  where
    go :
        (o : Option (List ℕ))
        → c_string m ≡ o
        → (o >>= λ s. some (suc x ∷ s)) ≡ some text
        → (text' : List ℕ) × (c_string m ≡ some text') × (text ≡ suc x ∷ text')
    go none e f = absurd (cc)
    go (some text') e f = (text', e, sym (some_inj f))

c_string-append : (m rest text : List ℕ) → c_string m ≡ some text → c_string (m ++ rest) ≡ some text
c_string-append [] rest text h = absurd (cc)
c_string-append (zero ∷ m) rest text h = h
c_string-append (suc x ∷ m) rest text h =
    let (text', e, f) = c_string-suc x m text h in
    rw (c_string-append m rest text' e) (ap some (sym f))

length-c_string : (m text : List ℕ) → c_string m ≡ some text → length text < length m
length-c_string [] text h = absurd (cc)
length-c_string (zero ∷ m) text h = rw (← some_inj h) (omega arith)
length-c_string (suc x ∷ m) text h =
    let (text', e, f) = c_string-suc x m text h in rw f (omega (arith, length-c_string m text' e))

-- A message of 256 bytes that holds a text: it is printed, and both buffers are cleared.
take_message_lem :
    (mem buffer message text : List ℕ)
    → length mem ≡ 256
    → length buffer ≡ 256
    → length message ≡ 256
    → c_string message ≡ some text
    → take_message mem buffer message ≡ some (text, zeros 256, zeros 256)
unfolding take_message
take_message_lem mem buffer message text l b m c =
    let short = length-c_string message text c in
    rw
      (
        overwrite_lem mem message (omega (arith, l, m)),
        c_string-append message (drop (length message) mem) text c,
        overwrite_lem buffer (text ++ 0 ∷ [])
            (omega (arith, b, m, short, length-append text (0 ∷ []))),
        clear_all (message ++ drop (length message) mem) 256
            (length-append-drop message mem (omega (arith, l, m)) ∙ l),
        clear_all ((text ++ 0 ∷ []) ++ drop (length (text ++ 0 ∷ [])) buffer) 256 (
            length-append-drop (text ++ 0 ∷ []) buffer
              (omega (arith, b, m, short, length-append text (0 ∷ [])))
            ∙ b),
      )
      refl

-- If messages of 256 bytes arrive, each of which holds a text with its zero, the server prints
-- these texts in order and waits for more; nothing of an earlier message is left in a later text.
pub listen_loop_lem :
    (idle : ℕ) (mem buffer : List ℕ) (messages texts : List (List ℕ))
    → length mem ≡ 256
    → length buffer ≡ 256
    → Carry messages texts
    → listen_loop mem buffer (map (arrival idle) messages) ≡ (texts, waiting)
unfolding listen_loop
listen_loop_lem idle mem buffer [] [] l b h = refl
listen_loop_lem idle mem buffer [] (text ∷ texts) l b h = absurd (cc)
listen_loop_lem idle mem buffer (m ∷ messages) [] l b h = absurd (cc)
listen_loop_lem idle mem buffer (m ∷ messages) (text ∷ texts) l b (h, c, k) =
    rw
      (
        poll_cq_lem idle,
        take_message_lem mem buffer m text l b h c,
        listen_loop_lem idle (zeros 256) (zeros 256) messages texts (length-zeros 256)
            (length-zeros 256) k,
      )
      refl

-- The loops of both sides: the server prints the words that the client reads, if each has at most
-- 50 characters, the calls of the two sides succeed, and what the client posts arrives.
pub listen_loop-send_loop :
    (idle : ℕ) (mem mem' buffer : List ℕ) (words : List (List ℕ))
    → length mem ≡ 256
    → length mem' ≡ 256
    → length buffer ≡ 256
    → AreWords words
    → listen_loop mem' buffer (map (arrival idle) (send_loop mem (map posted_at_once words)).0)
      ≡ (words, waiting)
listen_loop-send_loop idle mem mem' buffer words l l' b h =
    let (posted, e, c) = send_loop-Carry mem words l h in
    rw e (listen_loop_lem idle mem' buffer posted words l' b c)
