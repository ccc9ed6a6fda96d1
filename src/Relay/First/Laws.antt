-- ===== src/Relay/First/Laws.antt =====
-- What the first relay sends on, when its printing ends inside the buffer, and where the payload
-- of its header is.
use fuzzing_rdma.Base.{
  ℕ, zero, suc, ◌-◌, ◌≤◌, ◌<◌, ◌≡◌, ◌⊎◌, ◌↔◌, inl, inr, refl, ap, ◌∙◌, Option, ℤ, none, some, List,
  [], ◌∷◌, ◌++◌, length, take, drop, zeros, overwrite_lem, clear_all, length-zeros, drop-zeros,
  length-append-drop, length-drop, c_string, IsText, le→leb, pos, negsuc, arith, true, false, ◌==◌,
}
use native.Mathlib.Decide.{dec_lt}
use fuzzing_rdma.Relay.Ports.{is_minus_one}
use fuzzing_rdma.Relay.Header.{IbBth, rounds, copy}
use fuzzing_rdma.Relay.Header.Laws.{FlagsAreZero, read_header_total}
use fuzzing_rdma.Relay.First.{
  Net, Round, sendto, payload_len, deserialize_ib_pkt, open_sockets, step, run, relay, exit_with,
  main,
}

-- A datagram as it is sent on: its bytes, then zeros up to the size of the buffer.
abbrev pub padded : List ℕ → List ℕ
padded d = d ++ drop (length d) (zeros 1024)

-- What comes of a datagram: it is sent on padded, unless the socket could not be made.
abbrev pub forwarded : ℤ → List ℕ → Option (List ℕ)
forwarded (pos n) d = some (padded d)
forwarded (negsuc n) d = none

sendto_lem : (sd : ℤ) (d : List ℕ) → sendto sd (padded d) ≡ forwarded sd d
unfolding sendto
sendto_lem (pos n) d = refl
sendto_lem (negsuc n) d = refl

c_string-text : (p ys : List ℕ) → IsText p → c_string ys ≡ none → c_string (p ++ ys) ≡ none
c_string-text [] ys h e = e
c_string-text (zero ∷ p) ys (h, t) e = absurd (omega arith)
c_string-text (suc x ∷ p) ys (h, t) e = rw (c_string-text p ys t e) refl

c_string-end :
    (p ys : List ℕ) → c_string ys ≡ some [] → (text : List ℕ) × (c_string (p ++ ys) ≡ some text)
c_string-end [] ys e = ([], e)
c_string-end (zero ∷ p) ys e = ([], refl)
c_string-end (suc x ∷ p) ys e = let (text, f) = c_string-end p ys e in (suc x ∷ text, rw f refl)

-- A text has no zero, or it is read as a C string whatever is behind it.
IsText-cases : (p ys : List ℕ) → IsText p ⊎ ((text : List ℕ) × (c_string (p ++ ys) ≡ some text))
IsText-cases [] ys = inl tt
IsText-cases (zero ∷ p) ys = inr ([], refl)
IsText-cases (suc x ∷ p) ys = elim (IsText-cases p ys) [
  | inl t ↦ inl (omega arith, t)
  | inr (text, e) ↦ inr (suc x ∷ text, rw e refl)
]

module _ (sd : ℤ) (d : List ℕ) (h : length d ≤ 1024) where
  fits : length d ≤ length (zeros 1024)
  fits = rw (length-zeros 1024) h

  length-padded : length (padded d) ≡ 1024
  length-padded = length-append-drop d (zeros 1024) fits ∙ length-zeros 1024

  step_printed :
      (text : List ℕ)
      → c_string (padded d) ≡ some text
      → step sd (zeros 1024) d ≡ some (zeros 1024, (text, forwarded sd d))
  unfolding step
  step_printed text e =
      rw (overwrite_lem (zeros 1024) d fits, e, clear_all (padded d) 1024 length-padded)
        (ap (λ o. some (zeros 1024, (text, o))) (sendto_lem sd d))

  step_unprinted : c_string (padded d) ≡ none → step sd (zeros 1024) d ≡ none
  unfolding step
  step_unprinted e = rw (overwrite_lem (zeros 1024) d fits, e) refl

  -- What is behind the datagram ends a text, unless nothing is.
  short_text : length d < 1024 → (text : List ℕ) × (c_string (padded d) ≡ some text)
  unfolding zeros
  short_text k =
      let n : 1024 - length d ≡ suc (1023 - length d) = omega arith in
      let e : c_string (drop (length d) (zeros 1024)) ≡ some [] =
        ap c_string (drop-zeros (length d) 1024 ∙ ap zeros n) in
      c_string-end d (drop (length d) (zeros 1024)) e

  full_text : 1024 ≤ length d → c_string (drop (length d) (zeros 1024)) ≡ none
  unfolding zeros
  full_text k =
      let n : 1024 - length d ≡ 0 = omega arith in
      ap c_string (drop-zeros (length d) 1024 ∙ ap zeros n)

  printed-cases :
      (IsText d × (1024 ≤ length d) × (c_string (padded d) ≡ none))
      ⊎ ((text : List ℕ) × (c_string (padded d) ≡ some text))
  printed-cases = elim (IsText-cases d (drop (length d) (zeros 1024))) [
    | inr found ↦ inr found
    | inl t ↦ elim (dec_lt (length d) 1024) [
      | yes k ↦ inr (short_text k)
      | no k ↦
          let full : 1024 ≤ length d = omega arith in
          inl (t, full, c_string-text d (drop (length d) (zeros 1024)) t (full_text full))
    ]
  ]

  -- On a datagram that fits the clear buffer, the loop that prints runs beyond the buffer exactly
  -- if the datagram fills it and has no zero; otherwise the round ends, sends the datagram padded
  -- with zeros unless the socket that forwards could not be made, and leaves a clear buffer.
  pub step_iff :
      ((step sd (zeros 1024) d ≡ none) ↔ (IsText d × (1024 ≤ length d)))
      × ((step sd (zeros 1024) d ≡ none)
          ⊎ ((text : List ℕ) × (step sd (zeros 1024) d
                ≡ some (zeros 1024, (text, forwarded sd d)))))
  step_iff = elim printed-cases [
    | inl (t, k, e) ↦ ((λ f. (t, k), λ p. step_unprinted e), inl (step_unprinted e))
    | inr (text, e) ↦
        let returns = step_printed text e in
        (
          (
            λ f. absurd (cc),
            λ (t, k).
                let stuck = c_string-text d (drop (length d) (zeros 1024)) t (full_text k) in
                absurd (cc),
          ),
          inr (text, returns),
        )
  ]

-- Every datagram is shorter than the buffer.
abbrev pub AllShort : List (List ℕ) → Type 0
AllShort [] = Unit {0}
AllShort (d ∷ ds) = (length d < 1024) × AllShort ds

-- Each datagram is printed as a C string, and sent on padded if the socket was made.
abbrev pub Relayed : ℤ → List (List ℕ) → List Round → Type 0
Relayed sd [] [] = Unit {0}
Relayed sd [] (r ∷ rounds) = ⊥
Relayed sd (d ∷ ds) [] = ⊥
Relayed sd (d ∷ ds) ((printed, sent) ∷ rounds) =
    (sent ≡ forwarded sd d) × (c_string (padded d) ≡ some printed) × Relayed sd ds rounds

run_lem :
    (sd : ℤ) (ds : List (List ℕ))
    → AllShort ds
    → (rounds : List Round) × (run sd (zeros 1024) ds ≡ some rounds) × Relayed sd ds rounds
unfolding run
run_lem sd [] h = ([], refl, tt)
run_lem sd (d ∷ ds) (h, t) =
    let (text, e) = short_text sd d (omega arith) h in
    let (rounds, f, k) = run_lem sd ds t in
    (
      (text, forwarded sd d) ∷ rounds,
      rw (step_printed sd d (omega arith) text e, f) refl,
      (refl, e, k),
    )

-- The program comes to `fork`.
abbrev pub Opens : Net → Type 0
Opens net =
    (net.argc == 3 ≡ true)
    × (net.own_address ≡ true)
    × (is_minus_one net.socket_listen ≡ false)
    × (net.binds ≡ true)
    × (net.forward_address ≡ true)

-- In a run that comes to `fork`, on datagrams of fewer than 1024 bytes: the child prints each up to
-- its first zero and, if the socket that forwards could be made, sends each on, in order, padded
-- with zeros to 1024; if that socket could not be made, it sends nothing, but receives and prints
-- as before. It returns 0 at the first error of `recvfrom`, in both cases; a process that is given
-- another result of `fork` returns 0 having relayed nothing.
pub first_main_lem :
    (net : Net) (ds : List (List ℕ)) (n : ℕ)
    → Opens net
    → AllShort ds
    → ((rounds : List Round) × (main net (pos 0) ds ≡ some (0, rounds))
        × Relayed net.socket_forward ds rounds)
      × (main net (pos (suc n)) ds ≡ some (0, []))
      × (main net (negsuc n) ds ≡ some (0, []))
unfolding main open_sockets exit_with relay
first_main_lem net ds n (a, b, c, e, f) h =
    let (rounds, g, k) = run_lem net.socket_forward ds h in
    ((rounds, rw (a, b, c, e, f, g) refl, k), rw (a, b, c, e, f) refl, rw (a, b, c, e, f) refl)

-- On a buffer that holds the given length, of at least 12 bytes, the parser of the first relay
-- returns, the fields of one bit and the pad count are 0 whatever was received, and the payload is
-- all that stands behind the twelve bytes of the header.
first_deserialize_lem :
    (buffer : List ℕ) (buffer_len : ℕ)
    → buffer_len ≤ length buffer
    → 12 ≤ buffer_len
    → (h : IbBth) × (deserialize_ib_pkt buffer buffer_len
        ≡ some (h, take (buffer_len - 12) (drop 12 buffer)))
      × FlagsAreZero h
unfolding deserialize_ib_pkt payload_len rounds copy
first_deserialize_lem buffer n l k =
    let (h, e, (se, mr, pc, ar)) = read_header_total buffer (omega arith) in
    let fits : n - 12 ≤ length (drop 12 buffer) = omega (arith, length-drop 12 buffer) in
    (
      h,
      rw (e, pc, le→leb 12 n k, le→leb (n - 12) (length (drop 12 buffer)) fits) refl,
      (se, mr, pc, ar),
    )
