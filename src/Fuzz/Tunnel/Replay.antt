-- ===== src/Fuzz/Tunnel/Replay.antt =====
-- The client's channel does not remember: what it forwards depends on the frame and the random
-- numbers, though it leaves bytes of earlier frames in its buffer.
use fuzzing_rdma.Base.{
  length-zeros, map, length-zeros-drop, clear_lem, arith, take-append, length-append-drop, pos, ℕ,
  ◌≤◌, ◌<◌, ◌≡◌, ◌≢◌, refl, sym, ◌∙◌, Option, some, List, [], ◌∷◌, ◌>>=◌, ◌++◌, length, take, drop,
  zeros,
}
use native.Mathlib.Decide.{dec_lt}
use fuzzing_rdma.Fuzz.Bth.Prefix.{AgreeOn, fuzz_ib_bth_agree}
use fuzzing_rdma.Fuzz.Classify.{BufferType, ip_pkt, udp_seg, ib_traffic, other, check_buffer_type}
use fuzzing_rdma.Fuzz.Classify.Laws.{
  check_buffer_type_short, check_buffer_type_agree, check_buffer_type_total,
}
use fuzzing_rdma.Fuzz.Tunnel.{max_eth_len, cleared, frame, fuzz_buffer, client_step, client_run}
use fuzzing_rdma.Fuzz.Tunnel.Server.{read_frame, write_lem, AllFit}
use fuzzing_rdma.Fuzz.Tunnel.Client.{loaded}

module _ {R : Type 0} (rand : R → ℕ × R) where
  fuzz_buffer_other :
      (n : ℕ) (p q : List ℕ) (r : R)
      → take n p ≡ take n q
      → AgreeOn rand n p q (fuzz_buffer rand other p r) (fuzz_buffer rand other q r)
  unfolding fuzz_buffer
  fuzz_buffer_other n p q r e = (p, q, r, refl, refl, e, refl, refl)

  fuzz_buffer_agree :
      (t : BufferType) (n : ℕ) (p q : List ℕ) (r : R)
      → 86 ≤ length p
      → 86 ≤ length q
      → 46 < n
      → take n p ≡ take n q
      → AgreeOn rand n p q (fuzz_buffer rand t p r) (fuzz_buffer rand t q r)
  unfolding fuzz_buffer
  fuzz_buffer_agree ib_traffic n p q r hp hq hn e =
      fuzz_ib_bth_agree rand 1 n p q 46 12 r hp hq hn e
  fuzz_buffer_agree ip_pkt n p q r hp hq hn e = (p, q, r, refl, refl, e, refl, refl)
  fuzz_buffer_agree udp_seg n p q r hp hq hn e = (p, q, r, refl, refl, e, refl, refl)
  fuzz_buffer_agree other n p q r hp hq hn e = (p, q, r, refl, refl, e, refl, refl)

  -- Two rounds that forward the same frame and leave the same random numbers.
  abbrev pub SameRound :
      Option (List ℕ × R × Option (List ℕ)) → Option (List ℕ × R × Option (List ℕ)) → Type 0
  SameRound o o' =
      (d : List ℕ) × (d' : List ℕ) × (r : R) × (out : List ℕ) × (o ≡ some (d, r, some out))
      × (o' ≡ some (d', r, some out))
      × (length d ≡ max_eth_len)

  -- A frame is forwarded alike whatever earlier frames left in the buffer. A frame of exactly 46
  -- bytes is not covered: its headers end before the opcode that the code reads.
  client_step_agree :
      (buffer buffer' xs : List ℕ) (r : R)
      → length buffer ≡ max_eth_len
      → length buffer' ≡ max_eth_len
      → length xs ≤ max_eth_len
      → length xs ≢ 46
      → SameRound (client_step rand buffer r (frame xs)) (client_step rand buffer' r (frame xs))
  unfolding client_step
  client_step_agree buffer buffer' xs r hb hb' hx ne = go agreed
    where
      n : ℕ
      n = length xs

      p : List ℕ
      p = loaded buffer xs

      q : List ℕ
      q = loaded buffer' xs

      p_length : length p ≡ max_eth_len
      p_length = length-append-drop xs buffer (rw hb hx) ∙ hb

      q_length : length q ≡ max_eth_len
      q_length = length-append-drop xs buffer' (rw hb' hx) ∙ hb'

      prefix : take n p ≡ take n q
      prefix = take-append xs (drop n buffer) ∙ sym (take-append xs (drop n buffer'))

      Fuzzed : Type 0
      Fuzzed =
          (t : BufferType) × (check_buffer_type p (pos n) ≡ some t)
          × AgreeOn rand n p q (fuzz_buffer rand t p r) (fuzz_buffer rand t q r)

      agreed : Fuzzed
      agreed = elim (dec_lt n 46) [
        | yes h ↦ (other, check_buffer_type_short p n h, fuzz_buffer_other n p q r prefix)
        | no h ↦
            let (t, e) = check_buffer_type_total p (pos n) (rw p_length (omega arith)) in
            (
              t,
              e,
              fuzz_buffer_agree t n p q r (rw p_length (omega arith)) (rw q_length (omega arith))
                  (omega arith) prefix,
            )
      ]

      go :
          Fuzzed
          → SameRound (client_step rand buffer r (frame xs)) (client_step rand buffer' r (frame xs))
      go (t, e, (s, s', r', f, f', h, k, k')) =
          let e' : check_buffer_type q (pos n) ≡ some t =
            sym (check_buffer_type_agree n p q prefix) ∙ e in
          let room : n ≤ length s = rw (k, p_length) hx in
          let room' : n ≤ length s' = rw (k', q_length) hx in
          (
            zeros n ++ drop n s,
            zeros n ++ drop n s',
            r',
            take n s,
            rw (read_frame buffer xs (rw hb hx), e, f, write_lem s n room, clear_lem s n room) refl,
            rw
                (
                  read_frame buffer' xs (rw hb' hx),
                  e',
                  f',
                  write_lem s' n room',
                  clear_lem s' n room',
                  h,
                )
                refl,
            length-zeros-drop n s room ∙ k ∙ p_length,
          )

-- No frame is of 46 bytes.
abbrev pub NoneCut : List (List ℕ) → Type 0
NoneCut [] = Unit {0}
NoneCut (x ∷ xs) = (length x ≢ 46) × NoneCut xs

module _ {R : Type 0} (rand : R → ℕ × R) where
  -- The specification: each frame is fuzzed in a clear buffer of its own.
  pub fresh_run : R → List (List ℕ) → Option (R × List (Option (List ℕ)))
  fresh_run r [] = some (r, [])
  fresh_run r (xs ∷ rest) = do
    (d, r', out) ← client_step rand cleared r (frame xs)
    (r'', outs) ← fresh_run r' rest
    some (r'', out ∷ outs)

  -- The frames that fit and are not of 46 bytes are forwarded by the loop as by the specification,
  -- whatever the buffer holds at the start, and with the same random numbers left.
  pub client_run-eq-fresh_run :
      (buffer : List ℕ) (r : R) (xs : List (List ℕ))
      → length buffer ≡ max_eth_len
      → AllFit xs
      → NoneCut xs
      → (d : List ℕ) × (r' : R) × (outs : List (Option (List ℕ))) × (client_run rand buffer r
            (map frame xs)
          ≡ some (d, r', outs))
        × (fresh_run r xs ≡ some (r', outs))
  unfolding client_run fresh_run
  client_run-eq-fresh_run buffer r [] hb h ne = (buffer, r, [], refl, refl)
  client_run-eq-fresh_run buffer r (x ∷ xs) hb h ne =
      let (d, d', r', out, e, e', k) =
        client_step_agree rand buffer cleared x r hb (length-zeros max_eth_len) h.0 ne.0 in
      let (d'', r'', outs, f, f') = client_run-eq-fresh_run d r' xs k h.1 ne.1 in
      (d'', r'', some out ∷ outs, rw (e, f) refl, rw (e', f') refl)
