-- ===== src/Fuzz/Bth.antt =====
-- The mutation of the InfiniBand headers in programs/proxy-fuzzer/proxy-f.c: `fuzz_ib_bth` and the
-- functions for the two extension headers. A pointer into the frame's buffer is an index; `rand`
-- of the C library is a parameter, a step on a state of its own.
pub mod Mutation
pub mod Total
pub mod Prefix
pub mod Reached
use fuzzing_rdma.Base.{
  ℕ, zero, suc, ◌+◌, ◌%◌, bit_and, bit_xor, Bool, ◌||◌, Option, none, some, List, [], ◌∷◌,
  get_elem?, set, ◌==◌, if◌then◌else◌, ◌>>=◌,
}

-- `enum bth_header_offsets`
pub data BthHeaderOffset : Type 0 where
  ib_opcode : BthHeaderOffset
  ib_smpt : BthHeaderOffset
  ib_pkey_b1 : BthHeaderOffset
  ib_pkey_b2 : BthHeaderOffset
  ib_fr_br_reserved : BthHeaderOffset
  ib_qp_b1 : BthHeaderOffset
  ib_qp_b2 : BthHeaderOffset
  ib_qp_b3 : BthHeaderOffset
  ib_ar : BthHeaderOffset
  ib_psn_b1 : BthHeaderOffset
  ib_psn_b2 : BthHeaderOffset
  ib_psn_b3 : BthHeaderOffset

-- the value of an enumerator
abbrev pub offset : BthHeaderOffset → ℕ
offset ib_opcode = 0
offset ib_smpt = 1
offset ib_pkey_b1 = 2
offset ib_pkey_b2 = 3
offset ib_fr_br_reserved = 4
offset ib_qp_b1 = 5
offset ib_qp_b2 = 6
offset ib_qp_b3 = 7
offset ib_ar = 8
offset ib_psn_b1 = 9
offset ib_psn_b2 = 10
offset ib_psn_b3 = 11

abbrev enumerators : List BthHeaderOffset
enumerators =
    ib_opcode ∷ ib_smpt ∷ ib_pkey_b1 ∷ ib_pkey_b2 ∷ ib_fr_br_reserved ∷ ib_qp_b1 ∷ ib_qp_b2
    ∷ ib_qp_b3 ∷ ib_ar ∷ ib_psn_b1 ∷ ib_psn_b2 ∷ ib_psn_b3 ∷ []

-- the enumerator of a value; `none` is a value that no `case` names
unfoldable pub header_offset : ℕ → Option BthHeaderOffset
header_offset n = get_elem? enumerators n

-- `p[i] = p[i] ^ v`; `none` is an access out of bounds.
unfoldable pub xor_at : List ℕ → ℕ → ℕ → Option (List ℕ)
xor_at p i v = get_elem? p i >>= λ b. some (set p i (bit_xor b v))

-- The `switch` on the random offset: `at` is the index of the header.
unfoldable pub fuzz_field : List ℕ → ℕ → Option BthHeaderOffset → ℕ → Option (List ℕ)
fuzz_field p at none random_byte = some p
fuzz_field p at (some ib_opcode) random_byte = xor_at p (at + offset ib_opcode) random_byte
fuzz_field p at (some ib_smpt) random_byte =
    xor_at p (at + offset ib_smpt) (bit_and random_byte 0xf0)
fuzz_field p at (some ib_pkey_b1) random_byte = xor_at p (at + offset ib_pkey_b1) random_byte
fuzz_field p at (some ib_pkey_b2) random_byte = xor_at p (at + offset ib_pkey_b2) random_byte
fuzz_field p at (some ib_fr_br_reserved) random_byte =
    xor_at p (at + offset ib_fr_br_reserved) random_byte
fuzz_field p at (some ib_qp_b1) random_byte = some p
fuzz_field p at (some ib_qp_b2) random_byte = some p
fuzz_field p at (some ib_qp_b3) random_byte = some p
fuzz_field p at (some ib_ar) random_byte = xor_at p (at + offset ib_ar) random_byte
fuzz_field p at (some ib_psn_b1) random_byte = xor_at p (at + offset ib_psn_b1) random_byte
fuzz_field p at (some ib_psn_b2) random_byte = xor_at p (at + offset ib_psn_b2) random_byte
fuzz_field p at (some ib_psn_b3) random_byte = xor_at p (at + offset ib_psn_b3) random_byte

abbrev pub atomic_eth_len : ℕ
atomic_eth_len = 28

abbrev pub rdma_eth_len : ℕ
rdma_eth_len = 16

-- the tests on the operation in the low five bits of the opcode
unfoldable pub has_atomic_eth : ℕ → Bool
has_atomic_eth opcode = bit_and opcode 0x1f == 0x13 || bit_and opcode 0x1f == 0x14

unfoldable pub has_rdma_eth : ℕ → Bool
has_rdma_eth opcode =
    bit_and opcode 0x1f == 0x07
    || (bit_and opcode 0x1f == 0x0a || (bit_and opcode 0x1f == 0x0b || bit_and opcode 0x1f == 0x0c))

module _ {R : Type 0} (rand : R → ℕ × R) where
  pub fuzz_atomic_eth : List ℕ → ℕ → R → Option (List ℕ × R)
  fuzz_atomic_eth p atomic_eth r =
      let (x, r') = rand r in
      let (y, r'') = rand r' in
      xor_at p (atomic_eth + x % atomic_eth_len) (y % 256) >>= λ q. some (q, r'')

  pub fuzz_rdma_eth : List ℕ → ℕ → R → Option (List ℕ × R)
  fuzz_rdma_eth p rdma_eth r =
      let (x, r') = rand r in
      let (y, r'') = rand r' in
      xor_at p (rdma_eth + x % rdma_eth_len) (y % 256) >>= λ q. some (q, r'')

  -- the part of a round behind the `switch`: the extension header that the opcode announces
  unfoldable pub fuzz_extension : List ℕ → ℕ → R → Option (List ℕ × R)
  fuzz_extension p at r = do
    opcode ← get_elem? p (at + offset ib_opcode)
    if has_atomic_eth opcode
        then fuzz_atomic_eth p (at + offset ib_psn_b3 + 1) r
        else if has_rdma_eth opcode
        then fuzz_rdma_eth p (at + offset ib_psn_b3 + 1) r
        else some (p, r)

  -- One round of the loop. `at` stands for the pointer `ib_bth`.
  unfoldable pub fuzz_round : List ℕ → ℕ → ℕ → R → Option (List ℕ × R)
  fuzz_round p at bth_size r =
      let (x, r') = rand r in
      let (y, r'') = rand r' in
      fuzz_field p at (header_offset (x % bth_size)) (y % 256) >>= λ q. fuzz_extension q at r''

  -- The loop: `rounds` are the rounds that are left.
  unfoldable pub fuzz_ib_bth : List ℕ → ℕ → ℕ → ℕ → R → Option (List ℕ × R)
  fuzz_ib_bth p at bth_size zero r = some (p, r)
  fuzz_ib_bth p at bth_size (suc rounds) r =
      fuzz_round p at bth_size r >>= λ (q, r'). fuzz_ib_bth q at bth_size rounds r'
