-- ===== src/Relay/Header/Laws.antt =====
-- What the bit fields of the parsed header hold, and where its payload is.
use fuzzing_rdma.Base.{
  ℕ, ◌-◌, ◌/◌, ◌%◌, ◌≤◌, ◌≡◌, refl, some, List, [], ◌∷◌, length, take, drop, pos, bit_and, arith,
  bit_and_step, le→leb, length-drop,
}
use fuzzing_rdma.Relay.Header.{
  IbBth, bit_field, read_header, rounds, payload_len, copy, deserialize_ib_pkt,
}

-- A value with low bits of zero is zero in its field.
one_bit : (v : ℕ) → v % 2 ≡ 0 → bit_field 1 v ≡ pos 0
unfolding bit_field
one_bit v e = rw e refl

two_bits : (v : ℕ) → v % 4 ≡ 0 → bit_field 2 v ≡ pos 0
unfolding bit_field
two_bits v e = rw e refl

high_flag : (b : ℕ) → bit_field 1 (bit_and b 0x80) ≡ pos 0
high_flag b = one_bit (bit_and b 0x80) (omega (arith, bit_and_step b 0x80))

next_flag : (b : ℕ) → bit_field 1 (bit_and b 0x40) ≡ pos 0
next_flag b = one_bit (bit_and b 0x40) (omega (arith, bit_and_step b 0x40))

pad_bits : (b : ℕ) → bit_field 2 (bit_and b 0x30) ≡ pos 0
pad_bits b =
    two_bits (bit_and b 0x30) (omega (arith, bit_and_step b 0x30, bit_and_step (b / 2) 0x18))

-- The fields of one bit and the pad count, which are lost.
abbrev pub FlagsAreZero : IbBth → Type 0
FlagsAreZero h =
    (h.solicited_event ≡ pos 0) × (h.mig_reg ≡ pos 0) × (h.pad_count ≡ pos 0) × (h.ack_rq ≡ pos 0)

pub read_header_total :
    (buffer : List ℕ)
    → 12 ≤ length buffer
    → (h : IbBth) × (read_header buffer ≡ some h) × FlagsAreZero h
unfolding read_header
read_header_total (b0 ∷ b1 ∷ b2 ∷ b3 ∷ b4 ∷ b5 ∷ b6 ∷ b7 ∷ b8 ∷ b9 ∷ b10 ∷ b11 ∷ p) l =
    (_, refl, (high_flag b1, next_flag b1, pad_bits b1, high_flag b8))
read_header_total [] l = absurd (omega arith)
read_header_total (a ∷ []) l = absurd (omega arith)
read_header_total (a ∷ b ∷ []) l = absurd (omega arith)
read_header_total (a ∷ b ∷ c ∷ []) l = absurd (omega arith)
read_header_total (a ∷ b ∷ c ∷ d ∷ []) l = absurd (omega arith)
read_header_total (a ∷ b ∷ c ∷ d ∷ e ∷ []) l = absurd (omega arith)
read_header_total (a ∷ b ∷ c ∷ d ∷ e ∷ f ∷ []) l = absurd (omega arith)
read_header_total (a ∷ b ∷ c ∷ d ∷ e ∷ f ∷ g ∷ []) l = absurd (omega arith)
read_header_total (a ∷ b ∷ c ∷ d ∷ e ∷ f ∷ g ∷ h ∷ []) l = absurd (omega arith)
read_header_total (a ∷ b ∷ c ∷ d ∷ e ∷ f ∷ g ∷ h ∷ i ∷ []) l = absurd (omega arith)
read_header_total (a ∷ b ∷ c ∷ d ∷ e ∷ f ∷ g ∷ h ∷ i ∷ j ∷ []) l = absurd (omega arith)
read_header_total (a ∷ b ∷ c ∷ d ∷ e ∷ f ∷ g ∷ h ∷ i ∷ j ∷ k ∷ []) l = absurd (omega arith)

-- The header, with the result that it has its part in.
pub deserialize-read_header :
    (buffer : List ℕ) (buffer_len : ℕ)
    → buffer_len ≤ length buffer
    → 17 ≤ buffer_len
    → (h : IbBth) × (read_header buffer ≡ some h)
      × (deserialize_ib_pkt buffer buffer_len ≡ some (h, take (buffer_len - 17) (drop 12 buffer)))
      × FlagsAreZero h
unfolding deserialize_ib_pkt rounds payload_len copy
deserialize-read_header buffer n l k =
    let (h, e, (se, mr, pc, ar)) = read_header_total buffer (omega arith) in
    let fits : n - 17 ≤ length (drop 12 buffer) = omega (arith, length-drop 12 buffer) in
    (
      h,
      e,
      rw (e, pc, le→leb 17 n k, le→leb (n - 17) (length (drop 12 buffer)) fits) refl,
      (se, mr, pc, ar),
    )

-- On a buffer that holds `buffer_len` bytes, at least the 17 of the headers and checks: the
-- function returns, the fields of one bit and the pad count are 0 whatever was received, and the
-- payload is what stands between the twelve bytes of the header and the last five.
pub deserialize_ib_pkt_lem :
    (buffer : List ℕ) (buffer_len : ℕ)
    → buffer_len ≤ length buffer
    → 17 ≤ buffer_len
    → (h : IbBth) × (deserialize_ib_pkt buffer buffer_len
        ≡ some (h, take (buffer_len - 17) (drop 12 buffer)))
      × FlagsAreZero h
deserialize_ib_pkt_lem buffer n l k =
    let (h, e, f, flags) = deserialize-read_header buffer n l k in (h, f, flags)
