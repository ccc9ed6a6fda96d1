-- ===== src/Fuzz/Bth/Reached.antt =====
-- What one round of the mutation reaches: every byte of the header outside the destination queue
-- pair can take every value, the transport version kept.
use fuzzing_rdma.Base.{
  ℕ, ◌+◌, ◌%◌, ◌≤◌, ◌<◌, ◌≡◌, ◌⊎◌, refl, ap, false, true, inl, inr, some, List, get_elem?,
  get_elem?_of_lt, set, length, bit_and, bit_xor, bit_xor-mask, bit_and-mask, arith,
}
use fuzzing_rdma.Fuzz.Bth.{
  BthHeaderOffset, offset, header_offset, ib_opcode, ib_smpt, ib_qp_b1, ib_qp_b2, ib_qp_b3, xor_at,
  fuzz_field, has_atomic_eth, has_rdma_eth, fuzz_extension, fuzz_round, fuzz_ib_bth,
  fuzz_atomic_eth, fuzz_rdma_eth,
}

-- The opcode in the buffer announces neither extension header.
abbrev pub AnnouncesNone : List ℕ → Type 0
AnnouncesNone q =
    (op : ℕ) → get_elem? q 46 ≡ some op → (has_atomic_eth op ≡ false) × (has_rdma_eth op ≡ false)

-- A byte of the header and a new value for it: not of the destination queue pair, and with the
-- transport version kept.
pub record IsAllowed (f : BthHeaderOffset) (b v : ℕ) : Type 0 where
  pub not_qp : (offset f < 5) ⊎ (8 ≤ offset f)
  pub old_byte : b < 256
  pub new_byte : v < 256
  pub version : offset f ≡ 1 → v % 16 ≡ b % 16

-- A byte of the extension header that the opcode announces, of 28 or of 16 bytes, and a new value
-- for it.
pub record IsExtended (q : List ℕ) (j c w : ℕ) : Type 0 where
  pub op : ℕ
  pub opcode : get_elem? q (46 + 0) ≡ some op
  pub announced :
      ((has_atomic_eth op ≡ true) × (j < 28))
      ⊎ ((has_atomic_eth op ≡ false) × (has_rdma_eth op ≡ true) × (j < 16))
  pub old : get_elem? q (58 + j) ≡ some c
  pub old_byte : c < 256
  pub new_byte : w < 256

xor_at-set :
    (p : List ℕ) (i b m v : ℕ)
    → get_elem? p i ≡ some b
    → bit_xor b m ≡ v
    → xor_at p i m ≡ some (set p i v)
unfolding xor_at
xor_at-set p i b m v e h = rw e (ap (λ t. some (set p i t)) h)

fuzz_field-set :
    (p : List ℕ) (at : ℕ) (f : BthHeaderOffset) (b v : ℕ)
    → get_elem? p (at + offset f) ≡ some b
    → IsAllowed f b v
    → fuzz_field p at (some f) (bit_xor v b % 256) ≡ some (set p (at + offset f) v)
unfolding fuzz_field
fuzz_field-set p at ib_smpt b v e h =
    xor_at-set p (at + 1) b (bit_and (bit_xor v b % 256) 0xf0) v e
      (bit_and-mask v b h.new_byte h.old_byte (h.version refl))
fuzz_field-set p at ib_qp_b1 b v e h = absurd (omega (arith, h.not_qp))
fuzz_field-set p at ib_qp_b2 b v e h = absurd (omega (arith, h.not_qp))
fuzz_field-set p at ib_qp_b3 b v e h = absurd (omega (arith, h.not_qp))
fuzz_field-set p at f b v e h =
    xor_at-set p (at + offset f) b (bit_xor v b % 256) v e (bit_xor-mask v b h.new_byte h.old_byte)

header_offset-offset : (f : BthHeaderOffset) → header_offset (offset f % 12) ≡ some f
unfolding header_offset
header_offset-offset ib_opcode = refl
header_offset-offset f = refl

module _ {R : Type 0} (rand : R → ℕ × R) where
  pub fuzz_extension_none :
      (q : List ℕ) (r : R)
      → 86 ≤ length q
      → AnnouncesNone q
      → fuzz_extension rand q 46 r ≡ some (q, r)
  unfolding fuzz_extension
  fuzz_extension_none q r h quiet =
      let (op, e) = get_elem?_of_lt q 46 (omega arith) in
      let (a, b) = quiet op e in rw (e, a, b) refl

  -- The byte of the extension header that is named, with the mask between its values.
  pub fuzz_extension-set :
      (q : List ℕ) (j c w : ℕ) (r r' r'' : R)
      → IsExtended q j c w
      → rand r ≡ (j, r')
      → rand r' ≡ (bit_xor w c, r'')
      → fuzz_extension rand q 46 r ≡ some (set q (58 + j) w, r'')
  unfolding fuzz_extension fuzz_atomic_eth fuzz_rdma_eth
  fuzz_extension-set q j c w r r' r'' h x y =
      let written : xor_at q (58 + j) (bit_xor w c % 256) ≡ some (set q (58 + j) w) =
        xor_at-set q (58 + j) c (bit_xor w c % 256) w h.old
          (bit_xor-mask w c h.new_byte h.old_byte) in
      elim h.announced [
        | inl (a, l) ↦
            let small : j % 28 ≡ j = omega (arith, l) in rw (h.opcode, a, x, y, small, written) refl
        | inr (n, a, l) ↦
            let small : j % 16 ≡ j = omega (arith, l) in
            rw (h.opcode, n, a, x, y, small, written) refl
      ]

  -- One round, from what it makes of the extension header.
  pub fuzz_ib_bth-set :
      (p s : List ℕ) (f : BthHeaderOffset) (b v : ℕ) (r r' r'' u : R)
      → get_elem? p (46 + offset f) ≡ some b
      → IsAllowed f b v
      → rand r ≡ (offset f, r')
      → rand r' ≡ (bit_xor v b, r'')
      → fuzz_extension rand (set p (46 + offset f) v) 46 r'' ≡ some (s, u)
      → fuzz_ib_bth rand p 46 12 1 r ≡ some (s, u)
  unfolding fuzz_ib_bth fuzz_round
  fuzz_ib_bth-set p s f b v r r' r'' u e h x y g =
      rw (x, y, header_offset-offset f, fuzz_field-set p 46 f b v e h, g) refl
