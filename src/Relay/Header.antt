-- ===== src/Relay/Header.antt =====
-- The header that `deserialize_ib_pkt` of programs/udp-proxy/ib_proxy_two.c reads from a
-- datagram, with the bit fields of `struct ib_bth`, which are signed. The result stands for what
-- the function prints and copies; `none` is an access out of bounds.
pub mod Laws
pub mod Fuzzed
use fuzzing_rdma.Base.{
  ℕ, zero, suc, ◌+◌, ◌-◌, ◌*◌, ◌%◌, ◌^◌, Bool, true, false, Option, none, some, List, [], ◌∷◌,
  length, take, drop, ltb, leb, if◌then◌else◌, ◌>>=◌, ℤ, pos, negsuc, bit_and, ltb_ℕ,
}

abbrev pub bytes_icrc : ℕ
bytes_icrc = 4

abbrev pub bytes_fcs : ℕ
bytes_fcs = 1

-- `sizeof(struct ib_bth)`
abbrev pub sizeof_ib_bth : ℕ
sizeof_ib_bth = 12

pub record IbBth : Type 0 where
  pub opcode : ℕ
  pub solicited_event : ℤ
  pub mig_reg : ℤ
  pub pad_count : ℤ
  pub tver : ℤ
  pub p_key : ℕ
  pub fr_br_reserved : ℕ
  pub dest_qp_1 : ℕ
  pub dest_qp_2 : ℕ
  pub dest_qp_3 : ℕ
  pub ack_rq : ℤ
  pub reserved : ℤ
  pub psn_1 : ℕ
  pub psn_2 : ℕ
  pub psn_3 : ℕ

-- A value that is stored in a bit field `int : width`: its low bits, in two's complement.
unfoldable pub bit_field : ℕ → ℕ → ℤ
bit_field width v =
    let low = v % 2 ^ width in
    if ltb low (2 ^ (width - 1)) then pos low else negsuc (2 ^ width - 1 - low)

-- The assignments of `deserialize_ib_pkt`, from the twelve bytes they read.
unfoldable pub read_header : List ℕ → Option IbBth
read_header (b0 ∷ b1 ∷ b2 ∷ b3 ∷ b4 ∷ b5 ∷ b6 ∷ b7 ∷ b8 ∷ b9 ∷ b10 ∷ b11 ∷ _) = some (record {
  opcode = b0;
  solicited_event = bit_field 1 (bit_and b1 0x80);
  mig_reg = bit_field 1 (bit_and b1 0x40);
  pad_count = bit_field 2 (bit_and b1 0x30);
  tver = bit_field 4 (bit_and b1 0x0f);
  p_key = b2 + b3 * 256;
  fr_br_reserved = b4;
  dest_qp_1 = b5;
  dest_qp_2 = b6;
  dest_qp_3 = b7;
  ack_rq = bit_field 1 (bit_and b8 0x80);
  reserved = bit_field 7 (bit_and b8 0x7f);
  psn_1 = b9;
  psn_2 = b10;
  psn_3 = b11;
})
read_header _ = none

-- The rounds of `for (int i = 0; i < padding_bytes; i++)`.
unfoldable pub rounds : ℤ → ℕ
rounds (pos n) = n
rounds (negsuc n) = 0

-- `buffer_len - (sizeof(ib_header) + padding_bytes + BYTES_ICRC + BYTES_FCS)`: a negative length
-- becomes a size that no `malloc` gives.
pub payload_len : ℕ → ℤ → Option ℕ
payload_len buffer_len (pos n) =
    let overhead = sizeof_ib_bth + n + bytes_icrc + bytes_fcs in
    if leb overhead buffer_len then some (buffer_len - overhead) else none
payload_len buffer_len (negsuc n) =
    let overhead = sizeof_ib_bth + bytes_icrc + bytes_fcs - suc n in
    if leb overhead buffer_len then some (buffer_len - overhead) else none

-- `memcpy` of the bytes at a pointer
unfoldable pub copy : ℕ → List ℕ → Option (List ℕ)
copy n p = if leb n (length p) then some (take n p) else none

unfoldable pub deserialize_ib_pkt : List ℕ → ℕ → Option (IbBth × List ℕ)
unfolding read_header rounds payload_len copy
deserialize_ib_pkt buffer buffer_len = do
  header ← read_header buffer
  len ← payload_len buffer_len header.pad_count
  payload ← copy len (drop (rounds header.pad_count) (drop sizeof_ib_bth buffer))
  some (header, payload)
