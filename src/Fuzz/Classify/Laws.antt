-- ===== src/Fuzz/Classify/Laws.antt =====
-- What `check_buffer_type` decides, against a description of the frames.
use native.Mathlib.Decide.{dec_lt}
use fuzzing_rdma.Base.{
  get_elem?-take, lt→ltb, take, some_inj, sym, ap, ◌∙◌, IsBytes, bit_and_byte, ◌&&◌, if◌then◌else◌,
  ℕ, ◌≤◌, ◌<◌, ◌%◌, ◌≡◌, ◌↔◌, refl, bit_and_low, ℤ, pos, ltb_ℕ, ◌==◌, some, List, get_elem?,
  get_elem?_of_lt, length, arith,
}
use fuzzing_rdma.Fuzz.Classify.{
  BufferType, ip_pkt, udp_seg, ib_traffic, other, byte_is, masked_byte_is, check_udp, check_ip,
  check_buffer_type,
}

-- A RoCEv2 frame: IPv4 with a header of five words, UDP, and the destination port 4791.
pub record IsRoce (p : List ℕ) : Type 0 where
  pub eth_type_high : get_elem? p 16 ≡ some 0x08
  pub eth_type_low : get_elem? p 17 ≡ some 0x00
  pub protocol : get_elem? p 27 ≡ some 0x11
  pub ihl : (b : ℕ) × (get_elem? p 18 ≡ some b) × (b % 16 ≡ 5)
  pub port_high : get_elem? p 40 ≡ some 0x12
  pub port_low : get_elem? p 41 ≡ some 0xb7

-- The bytes that the code reads, and what it makes of them.
record Seen (p : List ℕ) : Type 0 where
  e0 : ℕ
  e1 : ℕ
  pr : ℕ
  v : ℕ
  d0 : ℕ
  d1 : ℕ
  at_e0 : get_elem? p 16 ≡ some e0
  at_e1 : get_elem? p 17 ≡ some e1
  at_pr : get_elem? p 27 ≡ some pr
  at_v : get_elem? p 18 ≡ some v
  at_d0 : get_elem? p 40 ≡ some d0
  at_d1 : get_elem? p 41 ≡ some d1

see : (p : List ℕ) → 46 ≤ length p → Seen p
see p h =
    let (e0, a) = get_elem?_of_lt p 16 (omega arith) in
    let (e1, b) = get_elem?_of_lt p 17 (omega arith) in
    let (pr, c) = get_elem?_of_lt p 27 (omega arith) in
    let (v, d) = get_elem?_of_lt p 18 (omega arith) in
    let (d0, e) = get_elem?_of_lt p 40 (omega arith) in
    let (d1, f) = get_elem?_of_lt p 41 (omega arith) in
    record {
      e0 = e0;
      e1 = e1;
      pr = pr;
      v = v;
      d0 = d0;
      d1 = d1;
      at_e0 = a;
      at_e1 = b;
      at_pr = c;
      at_v = d;
      at_d0 = e;
      at_d1 = f;
    }

-- The decision, on the bytes seen.
classify : ℤ → ℕ → ℕ → ℕ → ℕ → ℕ → ℕ → BufferType
classify n e0 e1 pr v d0 d1 =
    if ltb_ℕ n 46
    then other
    else if e0 == 0x08 && e1 == 0x00
    then if pr == 0x11 && v % 16 == 5
      then if d0 == 0x12 && d1 % 256 == 0xb7 then ib_traffic else udp_seg
      else ip_pkt
    else other

check_buffer_type-eq-classify :
    (p : List ℕ) (n : ℤ) (s : Seen p)
    → check_buffer_type p n ≡ some (classify n s.e0 s.e1 s.pr s.v s.d0 s.d1)
unfolding check_buffer_type byte_is masked_byte_is check_ip check_udp classify
check_buffer_type-eq-classify p n s =
    rw (s.at_e0, s.at_e1, s.at_pr, s.at_v, s.at_d0, s.at_d1)
      (ground (arith, bit_and_low s.v, bit_and_byte s.d1))

-- With a whole header in the buffer no read is out of bounds, whatever the size passed.
pub check_buffer_type_total :
    (p : List ℕ) (n : ℤ) → 46 ≤ length p → (t : BufferType) × (check_buffer_type p n ≡ some t)
check_buffer_type_total p n h =
    let s = see p h in
    (classify n s.e0 s.e1 s.pr s.v s.d0 s.d1, check_buffer_type-eq-classify p n s)

-- The frame that the bytes seen make up.
seen_of_ib_traffic :
    (n e0 e1 pr v d0 d1 : ℕ)
    → d1 < 256
    → classify (pos n) e0 e1 pr v d0 d1 ≡ ib_traffic
    → (46 ≤ n) × (e0 ≡ 0x08) × (e1 ≡ 0x00) × (pr ≡ 0x11) × (v % 16 ≡ 5) × (d0 ≡ 0x12) × (d1 ≡ 0xb7)
unfolding classify
seen_of_ib_traffic n e0 e1 pr v d0 d1 h e = ground arith

ib_traffic_of_seen :
    (n e0 e1 pr v d0 d1 : ℕ)
    → (46 ≤ n) × (e0 ≡ 0x08) × (e1 ≡ 0x00) × (pr ≡ 0x11) × (v % 16 ≡ 5) × (d0 ≡ 0x12) × (d1 ≡ 0xb7)
    → classify (pos n) e0 e1 pr v d0 d1 ≡ ib_traffic
unfolding classify
ib_traffic_of_seen n e0 e1 pr v d0 d1 h = ground arith

-- On a buffer of bytes that holds at least 46, the classification is InfiniBand traffic exactly if
-- the size read is at least 46 and the buffer has the bytes of a RoCE frame: the Ethernet type of
-- IPv4, an IP header of five words, so without options, the protocol UDP, and the destination port
-- 4791.
pub check_buffer_type_iff :
    (p : List ℕ) (n : ℕ)
    → IsBytes p
    → 46 ≤ length p
    → (check_buffer_type p (pos n) ≡ some ib_traffic) ↔ ((46 ≤ n) × IsRoce p)
check_buffer_type_iff p n bytes h = go (see p h)
  where
    go : Seen p → (check_buffer_type p (pos n) ≡ some ib_traffic) ↔ ((46 ≤ n) × IsRoce p)
    go s = rw (check_buffer_type-eq-classify p (pos n) s) (
      (λ e.
          let (k, a, b, c, d, f, g) =
            seen_of_ib_traffic n s.e0 s.e1 s.pr s.v s.d0 s.d1 (bytes 41 s.d1 s.at_d1)
              (some_inj e) in
          (
            k,
            record {
              eth_type_high = rw (← a) s.at_e0;
              eth_type_low = rw (← b) s.at_e1;
              protocol = rw (← c) s.at_pr;
              ihl = (s.v, s.at_v, d);
              port_high = rw (← f) s.at_d0;
              port_low = rw (← g) s.at_d1;
            },
          )),
      (λ (k, r). ap some (
          ib_traffic_of_seen n s.e0 s.e1 s.pr s.v s.d0 s.d1 (
            k,
            some_inj (sym s.at_e0 ∙ r.eth_type_high),
            some_inj (sym s.at_e1 ∙ r.eth_type_low),
            some_inj (sym s.at_pr ∙ r.protocol),
            (ap (λ t. t % 16) (some_inj (sym s.at_v ∙ r.ihl.1)) ∙ r.ihl.2),
            some_inj (sym s.at_d0 ∙ r.port_high),
            some_inj (sym s.at_d1 ∙ r.port_low),
          ))),
    )

pub check_buffer_type_short :
    (p : List ℕ) (n : ℕ) → n < 46 → check_buffer_type p (pos n) ≡ some other
unfolding check_buffer_type
check_buffer_type_short p n h = rw (lt→ltb n 46 h) refl

-- The decision depends on the bytes of the headers alone.
pub check_buffer_type_agree :
    (n : ℕ) (p q : List ℕ)
    → take n p ≡ take n q
    → check_buffer_type p (pos n) ≡ check_buffer_type q (pos n)
check_buffer_type_agree n p q e = elim (dec_lt n 46) [
  | yes h ↦ check_buffer_type_short p n h ∙ sym (check_buffer_type_short q n h)
  | no h ↦ long (omega arith)
]
  where
    eq : (i : ℕ) → i < n → get_elem? p i ≡ get_elem? q i
    eq i h = get_elem?-take n p q i e h

    long : 46 ≤ n → check_buffer_type p (pos n) ≡ check_buffer_type q (pos n)
    long h =
        unfold check_buffer_type check_ip check_udp byte_is masked_byte_is in
        rw
          (
            eq 16 (omega arith),
            eq 17 (omega arith),
            eq 18 (omega arith),
            eq 27 (omega arith),
            eq 40 (omega arith),
            eq 41 (omega arith),
          )
          refl

-- Two frames that agree on the headers are RoCE frames alike.
pub IsRoce-agree :
    (p q : List ℕ) → ((i : ℕ) → i < 46 → get_elem? p i ≡ get_elem? q i) → IsRoce p → IsRoce q
IsRoce-agree p q eq r = record {
  eth_type_high = sym (eq 16 (omega arith)) ∙ r.eth_type_high;
  eth_type_low = sym (eq 17 (omega arith)) ∙ r.eth_type_low;
  protocol = sym (eq 27 (omega arith)) ∙ r.protocol;
  ihl = (r.ihl.0, sym (eq 18 (omega arith)) ∙ r.ihl.1, r.ihl.2);
  port_high = sym (eq 40 (omega arith)) ∙ r.port_high;
  port_low = sym (eq 41 (omega arith)) ∙ r.port_low;
}
