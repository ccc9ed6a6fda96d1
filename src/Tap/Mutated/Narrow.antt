-- ===== src/Tap/Mutated/Narrow.antt =====
-- The first fuzzer leaves all behind the twelve bytes of the InfiniBand header alone.
use fuzzing_rdma.Base.{
  ℕ, zero, suc, ◌+◌, ◌%◌, ◌≤◌, ◌<◌, bit_and, bit_xor, ◌≡◌, refl, sym, ap, ◌∙◌, Option, none, some,
  some_inj, List, get_elem?, get_elem?_of_lt, get_elem?-set_ne, length, arith, set,
}
use fuzzing_rdma.Fuzz.Bth.{
  BthHeaderOffset, offset, header_offset, ib_smpt, ib_qp_b1, ib_qp_b2, ib_qp_b3, xor_at, fuzz_field,
}
use fuzzing_rdma.Fuzz.Bth.Mutation.{Mutation, done, after, Mutation-trans, length-Mutation}
use fuzzing_rdma.Fuzz.Bth.Total.{fuzz_field_total}
use fuzzing_rdma.Tap.Mutated.{fuzz_round, fuzz_ib_bth}

-- No byte behind the header at index `at` is changed.
abbrev pub SamePayload : ℕ → List ℕ → List ℕ → Type 0
SamePayload at p q = (j : ℕ) → at + 12 ≤ j → get_elem? q j ≡ get_elem? p j

xor_at-SamePayload :
    (at i m : ℕ) (p q : List ℕ)
    → i < at + 12
    → i < length p
    → xor_at p i m ≡ some q
    → SamePayload at p q
unfolding xor_at
xor_at-SamePayload at i m p q h l e j k =
    let (b, f) = get_elem?_of_lt p i l in
    let g : xor_at p i m ≡ some (set p i (bit_xor b m)) = rw f refl in
    ap (λ t. get_elem? t j) (some_inj (sym e ∙ g))
    ∙ get_elem?-set_ne p i j (bit_xor b m) (omega arith)

fuzz_field-SamePayload :
    (at : ℕ) (p q : List ℕ) (f : Option BthHeaderOffset) (m : ℕ)
    → at + 40 ≤ length p
    → fuzz_field p at f m ≡ some q
    → SamePayload at p q
unfolding fuzz_field
fuzz_field-SamePayload at p q none m h e = λ j k. ap (λ t. get_elem? t j) (some_inj (sym e))
fuzz_field-SamePayload at p q (some ib_qp_b1) m h e =
    λ j k. ap (λ t. get_elem? t j) (some_inj (sym e))
fuzz_field-SamePayload at p q (some ib_qp_b2) m h e =
    λ j k. ap (λ t. get_elem? t j) (some_inj (sym e))
fuzz_field-SamePayload at p q (some ib_qp_b3) m h e =
    λ j k. ap (λ t. get_elem? t j) (some_inj (sym e))
fuzz_field-SamePayload at p q (some ib_smpt) m h e =
    xor_at-SamePayload at (at + 1) (bit_and m 0xf0) p q (omega arith) (omega arith) e
fuzz_field-SamePayload at p q (some f) m h e =
    xor_at-SamePayload at (at + offset f) m p q (omega arith) (omega arith) e

module _ {R : Type 0} (rand : R → ℕ × R) where
  -- A result that is a mutation of the frame `p` with the payload of `p`.
  abbrev pub Returns : ℕ → List ℕ → Option (List ℕ × R) → Type 0
  Returns at p o = (q : List ℕ) × (r : R) × (o ≡ some (q, r)) × Mutation at p q × SamePayload at p q

  fuzz_round_total :
      (at : ℕ) (p : List ℕ) (size : ℕ) (r : R)
      → at + 40 ≤ length p
      → Returns at p (fuzz_round rand p at size r)
  unfolding fuzz_round
  fuzz_round_total at p size r h =
      let (x, r') = rand r in
      let (y, r'') = rand r' in
      let (q, e, c) = fuzz_field_total at p (header_offset (x % size)) (y % 256) h (omega arith) in
      (
        q,
        r'',
        rw e refl,
        after done c,
        fuzz_field-SamePayload at p q (header_offset (x % size)) (y % 256) h e,
      )

  -- If the buffer holds the header, all rounds run to their end with no access out of bounds.
  pub fuzz_ib_bth_total :
      (rounds at : ℕ) (p : List ℕ) (size : ℕ) (r : R)
      → at + 40 ≤ length p
      → Returns at p (fuzz_ib_bth rand p at size rounds r)
  unfolding fuzz_ib_bth
  fuzz_ib_bth_total zero at p size r h = (p, r, refl, done, λ j k. refl)
  fuzz_ib_bth_total (suc rounds) at p size r h =
      let (q, t, e, n, s) = fuzz_round_total at p size r h in
      let (q', u, e', n', s') = fuzz_ib_bth_total rounds at q size t (rw (length-Mutation n) h) in
      (q', u, rw e e', Mutation-trans n n', λ j k. s' j k ∙ s j k)
