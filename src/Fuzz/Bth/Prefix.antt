-- ===== src/Fuzz/Bth/Prefix.antt =====
-- What is mutated depends only on the bytes of the frame: two buffers that agree on the first `n`
-- bytes, the opcode among them, are mutated alike in those bytes, with the same random numbers.
use fuzzing_rdma.Base.{
  ℕ, zero, suc, ◌+◌, ◌%◌, ◌≤◌, ◌<◌, bit_and, bit_xor, ◌≡◌, refl, sym, ◌∙◌, Bool-cases, inl, inr,
  Option, none, some, List, get_elem?, get_elem?_of_lt, get_elem?-take, set, take, take-set,
  take-set_ge, length, length-set, arith,
}
use native.Mathlib.Decide.{dec_lt}
use fuzzing_rdma.Fuzz.Bth.{
  BthHeaderOffset, offset, header_offset, ib_smpt, ib_qp_b1, ib_qp_b2, ib_qp_b3, xor_at, fuzz_field,
  has_atomic_eth, has_rdma_eth, fuzz_atomic_eth, fuzz_rdma_eth, fuzz_extension, fuzz_round,
  fuzz_ib_bth,
}

-- Two results that agree: both there, with buffers that agree on `n` bytes and are as long as before.
abbrev Agree : ℕ → List ℕ → List ℕ → Option (List ℕ) → Option (List ℕ) → Type 0
Agree n p q o o' =
    (s : List ℕ) × (t : List ℕ) × (o ≡ some s)
    × (o' ≡ some t)
    × (take n s ≡ take n t)
    × (length s ≡ length p)
    × (length t ≡ length q)

xor_at-Agree :
    (n : ℕ) (p q : List ℕ) (i m : ℕ)
    → i < length p
    → i < length q
    → take n p ≡ take n q
    → Agree n p q (xor_at p i m) (xor_at q i m)
unfolding xor_at
xor_at-Agree n p q i m hp hq e = elim (dec_lt i n) [
  | yes h ↦
      let (b, f) = get_elem?_of_lt p i hp in
      (
        set p i (bit_xor b m),
        set q i (bit_xor b m),
        rw f refl,
        rw (sym (get_elem?-take n p q i e h) ∙ f) refl,
        take-set n p q i (bit_xor b m) e,
        length-set p i _,
        length-set q i _,
      )
  | no h ↦
      let (b, f) = get_elem?_of_lt p i hp in
      let (c, g) = get_elem?_of_lt q i hq in
      (
        set p i (bit_xor b m),
        set q i (bit_xor c m),
        rw f refl,
        rw g refl,
        take-set_ge n p i (bit_xor b m) (omega arith)
            ∙ e
            ∙ sym (take-set_ge n q i (bit_xor c m) (omega arith)),
        length-set p i _,
        length-set q i _,
      )
]

fuzz_field-Agree :
    (n : ℕ) (p q : List ℕ) (at : ℕ) (f : Option BthHeaderOffset) (m : ℕ)
    → at + 40 ≤ length p
    → at + 40 ≤ length q
    → take n p ≡ take n q
    → Agree n p q (fuzz_field p at f m) (fuzz_field q at f m)
unfolding fuzz_field
fuzz_field-Agree n p q at none m hp hq e = (p, q, refl, refl, e, refl, refl)
fuzz_field-Agree n p q at (some ib_smpt) m hp hq e =
    xor_at-Agree n p q (at + 1) (bit_and m 0xf0) (omega arith) (omega arith) e
fuzz_field-Agree n p q at (some ib_qp_b1) m hp hq e = (p, q, refl, refl, e, refl, refl)
fuzz_field-Agree n p q at (some ib_qp_b2) m hp hq e = (p, q, refl, refl, e, refl, refl)
fuzz_field-Agree n p q at (some ib_qp_b3) m hp hq e = (p, q, refl, refl, e, refl, refl)
fuzz_field-Agree n p q at (some f) m hp hq e =
    xor_at-Agree n p q (at + offset f) m (omega arith) (omega arith) e

module _ {R : Type 0} (rand : R → ℕ × R) where
  -- Two such results with the same state of the random numbers.
  abbrev pub AgreeOn : ℕ → List ℕ → List ℕ → Option (List ℕ × R) → Option (List ℕ × R) → Type 0
  AgreeOn n p q o o' =
      (s : List ℕ) × (t : List ℕ) × (r : R) × (o ≡ some (s, r))
      × (o' ≡ some (t, r))
      × (take n s ≡ take n t)
      × (length s ≡ length p)
      × (length t ≡ length q)

  fuzz_atomic_eth_agree :
      (n : ℕ) (p q : List ℕ) (i : ℕ) (r : R)
      → i + 28 ≤ length p
      → i + 28 ≤ length q
      → take n p ≡ take n q
      → AgreeOn n p q (fuzz_atomic_eth rand p i r) (fuzz_atomic_eth rand q i r)
  unfolding fuzz_atomic_eth
  fuzz_atomic_eth_agree n p q i r hp hq e =
      let (x, r') = rand r in
      let (y, r'') = rand r' in
      let (s, t, f, g, h, k, l) =
        xor_at-Agree n p q (i + x % 28) (y % 256) (omega arith) (omega arith) e in
      (s, t, r'', rw f refl, rw g refl, h, k, l)

  fuzz_rdma_eth_agree :
      (n : ℕ) (p q : List ℕ) (i : ℕ) (r : R)
      → i + 28 ≤ length p
      → i + 28 ≤ length q
      → take n p ≡ take n q
      → AgreeOn n p q (fuzz_rdma_eth rand p i r) (fuzz_rdma_eth rand q i r)
  unfolding fuzz_rdma_eth
  fuzz_rdma_eth_agree n p q i r hp hq e =
      let (x, r') = rand r in
      let (y, r'') = rand r' in
      let (s, t, f, g, h, k, l) =
        xor_at-Agree n p q (i + x % 16) (y % 256) (omega arith) (omega arith) e in
      (s, t, r'', rw f refl, rw g refl, h, k, l)

  fuzz_extension_agree :
      (n : ℕ) (p q : List ℕ) (at : ℕ) (r : R)
      → at + 40 ≤ length p
      → at + 40 ≤ length q
      → at < n
      → take n p ≡ take n q
      → AgreeOn n p q (fuzz_extension rand p at r) (fuzz_extension rand q at r)
  unfolding fuzz_extension
  fuzz_extension_agree n p q at r hp hq hn e =
      let (op, f) = get_elem?_of_lt p (at + 0) (omega arith) in
      let g : get_elem? q (at + 0) ≡ some op =
        sym (get_elem?-take n p q (at + 0) e (omega arith)) ∙ f in
      rw (f, g)
        (elim (Bool-cases (has_atomic_eth op)) [
          | inl a ↦ rw a (fuzz_atomic_eth_agree n p q (at + 11 + 1) r (omega arith) (omega arith) e)
          | inr na ↦ elim (Bool-cases (has_rdma_eth op)) [
            | inl b ↦
                rw (na, b) (fuzz_rdma_eth_agree n p q (at + 11 + 1) r (omega arith) (omega arith) e)
            | inr nb ↦ rw (na, nb) (p, q, r, refl, refl, e, refl, refl)
          ]
        ])

  fuzz_round_agree :
      (n : ℕ) (p q : List ℕ) (at size : ℕ) (r : R)
      → at + 40 ≤ length p
      → at + 40 ≤ length q
      → at < n
      → take n p ≡ take n q
      → AgreeOn n p q (fuzz_round rand p at size r) (fuzz_round rand q at size r)
  unfolding fuzz_round
  fuzz_round_agree n p q at size r hp hq hn e =
      let (x, r') = rand r in
      let (y, r'') = rand r' in
      let (s, t, f, g, h, k, l) =
        fuzz_field-Agree n p q at (header_offset (x % size)) (y % 256) hp hq e in
      let (s', t', u, f', g', h', k', l') =
        fuzz_extension_agree n s t at r'' (rw k hp) (rw l hq) hn h in
      (s', t', u, rw f f', rw g g', h', k' ∙ k, l' ∙ l)

  -- All the rounds, on two buffers that agree on a prefix that reaches past the opcode.
  pub fuzz_ib_bth_agree :
      (rounds n : ℕ) (p q : List ℕ) (at size : ℕ) (r : R)
      → at + 40 ≤ length p
      → at + 40 ≤ length q
      → at < n
      → take n p ≡ take n q
      → AgreeOn n p q (fuzz_ib_bth rand p at size rounds r) (fuzz_ib_bth rand q at size rounds r)
  unfolding fuzz_ib_bth
  fuzz_ib_bth_agree zero n p q at size r hp hq hn e = (p, q, r, refl, refl, e, refl, refl)
  fuzz_ib_bth_agree (suc rounds) n p q at size r hp hq hn e =
      let (s, t, u, f, g, h, k, l) = fuzz_round_agree n p q at size r hp hq hn e in
      let (s', t', u', f', g', h', k', l') =
        fuzz_ib_bth_agree rounds n s t at size u (rw k hp) (rw l hq) hn h in
      (s', t', u', rw f f', rw g g', h', k' ∙ k, l' ∙ l)
