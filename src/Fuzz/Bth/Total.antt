-- ===== src/Fuzz/Bth/Total.antt =====
-- The code of the mutation against its specification: every call returns, with no access out of
-- bounds, and what it returns is a mutation of the frame.
use fuzzing_rdma.Base.{
  ℕ, zero, suc, ◌+◌, ◌%◌, ◌≤◌, ◌<◌, bit_and, bit_xor, bit_and_high, ◌≡◌, inl, inr, refl, Bool-cases,
  Option, none, some, List, get_elem?_of_lt, set, length, arith,
}
use fuzzing_rdma.Fuzz.Bth.{
  BthHeaderOffset, offset, header_offset, ib_smpt, ib_qp_b1, ib_qp_b2, ib_qp_b3, xor_at, fuzz_field,
  has_atomic_eth, has_rdma_eth, fuzz_atomic_eth, fuzz_rdma_eth, fuzz_extension, fuzz_round,
  fuzz_ib_bth,
}
use fuzzing_rdma.Fuzz.Bth.Mutation.{
  MayChange, Change, same, xored, Mutation, done, after, Mutation-trans, length-Mutation,
}

xor_at_total :
    (at : ℕ) (p : List ℕ) (i m : ℕ)
    → i < length p
    → MayChange at i m
    → (q : List ℕ) × (xor_at p i m ≡ some q) × Change at p q
unfolding xor_at
xor_at_total at p i m h may =
    let (b, e) = get_elem?_of_lt p i h in (set p i (bit_xor b m), rw e refl, xored p i b m e may)

-- The `switch`, at every value of the random offset.
pub fuzz_field_total :
    (at : ℕ) (p : List ℕ) (f : Option BthHeaderOffset) (m : ℕ)
    → at + 40 ≤ length p
    → m < 256
    → (q : List ℕ) × (fuzz_field p at f m ≡ some q) × Change at p q
unfolding fuzz_field
fuzz_field_total at p none m h l = (p, refl, same p)
fuzz_field_total at p (some ib_smpt) m h l =
    xor_at_total at p (at + 1) (bit_and m 0xf0) (omega arith) (omega (arith, bit_and_high m))
fuzz_field_total at p (some ib_qp_b1) m h l = (p, refl, same p)
fuzz_field_total at p (some ib_qp_b2) m h l = (p, refl, same p)
fuzz_field_total at p (some ib_qp_b3) m h l = (p, refl, same p)
fuzz_field_total at p (some f) m h l =
    xor_at_total at p (at + offset f) m (omega arith) (omega arith)

module _ {R : Type 0} (rand : R → ℕ × R) where
  -- A result that is a mutation of the frame `p`.
  abbrev pub Returns : ℕ → List ℕ → Option (List ℕ × R) → Type 0
  Returns at p o = (q : List ℕ) × (r : R) × (o ≡ some (q, r)) × Mutation at p q

  fuzz_atomic_eth_total :
      (at : ℕ) (p : List ℕ) (r : R)
      → at + 40 ≤ length p
      → Returns at p (fuzz_atomic_eth rand p (at + 11 + 1) r)
  unfolding fuzz_atomic_eth
  fuzz_atomic_eth_total at p r h =
      let (x, r') = rand r in
      let (y, r'') = rand r' in
      let (q, e, c) =
        xor_at_total at p (at + 11 + 1 + x % 28) (y % 256) (omega arith) (ground arith) in
      (q, r'', rw e refl, after done c)

  fuzz_rdma_eth_total :
      (at : ℕ) (p : List ℕ) (r : R)
      → at + 40 ≤ length p
      → Returns at p (fuzz_rdma_eth rand p (at + 11 + 1) r)
  unfolding fuzz_rdma_eth
  fuzz_rdma_eth_total at p r h =
      let (x, r') = rand r in
      let (y, r'') = rand r' in
      let (q, e, c) =
        xor_at_total at p (at + 11 + 1 + x % 16) (y % 256) (omega arith) (ground arith) in
      (q, r'', rw e refl, after done c)

  fuzz_extension_total :
      (at : ℕ) (p : List ℕ) (r : R) → at + 40 ≤ length p → Returns at p (fuzz_extension rand p at r)
  unfolding fuzz_extension
  fuzz_extension_total at p r h =
      let (op, e) = get_elem?_of_lt p (at + 0) (omega arith) in
      rw e (elim (Bool-cases (has_atomic_eth op)) [
        | inl a ↦ rw a (fuzz_atomic_eth_total at p r h)
        | inr na ↦ elim (Bool-cases (has_rdma_eth op)) [
          | inl b ↦ rw (na, b) (fuzz_rdma_eth_total at p r h)
          | inr nb ↦ rw (na, nb) (p, r, refl, done)
        ]
      ])

  fuzz_round_total :
      (at : ℕ) (p : List ℕ) (size : ℕ) (r : R)
      → at + 40 ≤ length p
      → Returns at p (fuzz_round rand p at size r)
  unfolding fuzz_round
  fuzz_round_total at p size r h =
      let (x, r') = rand r in
      let (y, r'') = rand r' in
      let (q, e, c) = fuzz_field_total at p (header_offset (x % size)) (y % 256) h (omega arith) in
      let (s, t, e', n) = fuzz_extension_total at q r'' (rw (length-Mutation (after done c)) h) in
      (s, t, rw e e', Mutation-trans (after done c) n)

  -- If the buffer holds the longest headers, all rounds run to their end with no access out of
  -- bounds, and the result is a mutation of the frame.
  pub fuzz_ib_bth_total :
      (rounds at : ℕ) (p : List ℕ) (size : ℕ) (r : R)
      → at + 40 ≤ length p
      → Returns at p (fuzz_ib_bth rand p at size rounds r)
  unfolding fuzz_ib_bth
  fuzz_ib_bth_total zero at p size r h = (p, r, refl, done)
  fuzz_ib_bth_total (suc rounds) at p size r h =
      let (q, t, e, n) = fuzz_round_total at p size r h in
      let (s, u, e', n') = fuzz_ib_bth_total rounds at q size t (rw (length-Mutation n) h) in
      (s, u, rw e e', Mutation-trans n n')
