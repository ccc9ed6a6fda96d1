-- ===== src/Fuzz/Classify.antt =====
-- `check_buffer_type` of programs/proxy-fuzzer/proxy-f.c: what kind of traffic a frame is.

pub mod Laws
use fuzzing_rdma.Base.{
  ℕ, ◌+◌, bit_and, Bool, true, false, Option, none, some, List, get_elem?, ◌==◌, if◌then◌else◌,
  ◌>>=◌, ℤ, ltb_ℕ,
}
use fuzzing_rdma.Fuzz.Offsets.{
  ib_bth_offset, eth_type_offset, protocol_offset, ver_ihl_offset, dest_port_offset,
}

-- `enum buffer_type`
pub data BufferType : Type 0 where
  ip_pkt : BufferType
  udp_seg : BufferType
  ib_traffic : BufferType
  other : BufferType

-- `p[i] == v`; `none` is a read out of bounds.
pub byte_is : List ℕ → ℕ → ℕ → Option Bool
byte_is p i v = get_elem? p i >>= λ b. some (b == v)

-- `(p[i] & mask) == v`
pub masked_byte_is : List ℕ → ℕ → ℕ → ℕ → Option Bool
masked_byte_is p i mask v = get_elem? p i >>= λ b. some (bit_and b mask == v)

-- `&&`: the second test is made only if the first passes.
abbrev pub both : Option Bool → Option Bool → Option Bool
both none m = none
both (some false) m = some false
both (some true) m = m

-- the tests inside an IPv4 frame
pub check_udp : List ℕ → Option BufferType
unfolding byte_is masked_byte_is
check_udp p = do
  ib ← both (byte_is p dest_port_offset 0x12) (masked_byte_is p (dest_port_offset + 1) 0xff 0xb7)
  some (if ib then ib_traffic else udp_seg)

pub check_ip : List ℕ → Option BufferType
unfolding byte_is masked_byte_is check_udp
check_ip p = do
  udp ← both (byte_is p protocol_offset 0x11) (masked_byte_is p ver_ihl_offset 0x0f 0x05)
  if udp then check_udp p else some ip_pkt

-- The bytes of a `char` array are their patterns, from 0 to 255: the code compares them with
-- constants below 0x80, or under a mask.
unfoldable pub check_buffer_type : List ℕ → ℤ → Option BufferType
unfolding byte_is check_ip
check_buffer_type p size = if ltb_ℕ size ib_bth_offset then some other else do
  ipv4 ← both (byte_is p eth_type_offset 0x08) (byte_is p (eth_type_offset + 1) 0x00)
  if ipv4 then check_ip p else some other
