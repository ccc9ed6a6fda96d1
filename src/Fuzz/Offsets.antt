-- ===== src/Fuzz/Offsets.antt =====
-- The offsets into a TAP frame of programs/proxy-fuzzer/net_types.h. Each is the offset before it
-- and the size of the field between them, as the header computes them. The record of
-- a header holds the sizes in bytes of its fields.
use fuzzing_rdma.Base.{ℕ, ◌+◌}

-- the bytes of `struct tun_pi` in front of a frame
abbrev pub tap_frame_offset : ℕ
tap_frame_offset = 4

-- `struct eth_hdr`
pub record EthHdr : Type 0 where
  pub dest_mac : ℕ
  pub src_mac : ℕ
  pub eth_type : ℕ

abbrev pub eth_hdr : EthHdr
eth_hdr = record { dest_mac = 6; src_mac = 6; eth_type = 2 }

abbrev pub dest_mac_offset : ℕ
dest_mac_offset = tap_frame_offset

abbrev pub src_mac_offset : ℕ
src_mac_offset = dest_mac_offset + eth_hdr.dest_mac

abbrev pub eth_type_offset : ℕ
eth_type_offset = src_mac_offset + eth_hdr.src_mac

-- `struct ip_hdr`; each union is as large as its bytes.
pub record IpHdr : Type 0 where
  pub ver_ihl : ℕ
  pub dscp_ecn : ℕ
  pub total_len : ℕ
  pub identification : ℕ
  pub flags_offset : ℕ
  pub ttl : ℕ
  pub protocol : ℕ
  pub hdr_checksum : ℕ
  pub src_ip_addr : ℕ
  pub dest_ip_addr : ℕ

abbrev pub ip_hdr : IpHdr
ip_hdr = record {
  ver_ihl = 1;
  dscp_ecn = 1;
  total_len = 2;
  identification = 2;
  flags_offset = 2;
  ttl = 1;
  protocol = 1;
  hdr_checksum = 2;
  src_ip_addr = 4;
  dest_ip_addr = 4;
}

abbrev pub ip_hdr_offset : ℕ
ip_hdr_offset = eth_type_offset + eth_hdr.eth_type

abbrev pub ver_ihl_offset : ℕ
ver_ihl_offset = ip_hdr_offset

abbrev pub dscp_ecn_offset : ℕ
dscp_ecn_offset = ver_ihl_offset + ip_hdr.ver_ihl

abbrev pub total_len_offset : ℕ
total_len_offset = dscp_ecn_offset + ip_hdr.dscp_ecn

abbrev pub identification_offset : ℕ
identification_offset = total_len_offset + ip_hdr.total_len

abbrev pub flags_frag_offset_offset : ℕ
flags_frag_offset_offset = identification_offset + ip_hdr.identification

abbrev pub ttl_offset : ℕ
ttl_offset = flags_frag_offset_offset + ip_hdr.flags_offset

abbrev pub protocol_offset : ℕ
protocol_offset = ttl_offset + ip_hdr.ttl

abbrev pub hdr_checksum_offset : ℕ
hdr_checksum_offset = protocol_offset + ip_hdr.protocol

abbrev pub src_ip_addr_offset : ℕ
src_ip_addr_offset = hdr_checksum_offset + ip_hdr.hdr_checksum

abbrev pub dest_ip_addr_offset : ℕ
dest_ip_addr_offset = src_ip_addr_offset + ip_hdr.src_ip_addr

-- `struct udp_hdr`
pub record UdpHdr : Type 0 where
  pub src_port : ℕ
  pub dest_port : ℕ
  pub udp_len : ℕ
  pub udp_checksum : ℕ

abbrev pub udp_hdr : UdpHdr
udp_hdr = record { src_port = 2; dest_port = 2; udp_len = 2; udp_checksum = 2 }

abbrev pub udp_hdr_offset : ℕ
udp_hdr_offset = dest_ip_addr_offset + ip_hdr.dest_ip_addr

abbrev pub src_port_offset : ℕ
src_port_offset = udp_hdr_offset

abbrev pub dest_port_offset : ℕ
dest_port_offset = src_port_offset + udp_hdr.src_port

abbrev pub udp_len_offset : ℕ
udp_len_offset = dest_port_offset + udp_hdr.dest_port

abbrev pub udp_checksum_offset : ℕ
udp_checksum_offset = udp_len_offset + udp_hdr.udp_len

-- `struct ib_bth`: twelve fields of a byte each
pub record IbBth : Type 0 where
  pub opcode : ℕ
  pub s_m_p_t : ℕ
  pub p_key_1 : ℕ
  pub p_key_2 : ℕ
  pub fr_br_reserved : ℕ
  pub dest_qp_1 : ℕ
  pub dest_qp_2 : ℕ
  pub dest_qp_3 : ℕ
  pub a_r : ℕ
  pub psn_1 : ℕ
  pub psn_2 : ℕ
  pub psn_3 : ℕ

abbrev pub ib_bth : IbBth
ib_bth = record {
  opcode = 1;
  s_m_p_t = 1;
  p_key_1 = 1;
  p_key_2 = 1;
  fr_br_reserved = 1;
  dest_qp_1 = 1;
  dest_qp_2 = 1;
  dest_qp_3 = 1;
  a_r = 1;
  psn_1 = 1;
  psn_2 = 1;
  psn_3 = 1;
}

abbrev pub ib_bth_offset : ℕ
ib_bth_offset = udp_checksum_offset + udp_hdr.udp_checksum

abbrev pub ib_opcode_offset : ℕ
ib_opcode_offset = ib_bth_offset

abbrev pub ib_smpt_offset : ℕ
ib_smpt_offset = ib_opcode_offset + ib_bth.opcode

abbrev pub ib_pkey_offset_b1 : ℕ
ib_pkey_offset_b1 = ib_smpt_offset + ib_bth.s_m_p_t

abbrev pub ib_pkey_offset_b2 : ℕ
ib_pkey_offset_b2 = ib_pkey_offset_b1 + ib_bth.p_key_1

abbrev pub ib_fr_br_reserved_offset : ℕ
ib_fr_br_reserved_offset = ib_pkey_offset_b2 + ib_bth.p_key_2

abbrev pub ib_dest_qp_b1_offset : ℕ
ib_dest_qp_b1_offset = ib_fr_br_reserved_offset + ib_bth.fr_br_reserved

abbrev pub ib_dest_qp_b2_offset : ℕ
ib_dest_qp_b2_offset = ib_dest_qp_b1_offset + ib_bth.dest_qp_1

abbrev pub ib_dest_qp_b3_offset : ℕ
ib_dest_qp_b3_offset = ib_dest_qp_b2_offset + ib_bth.dest_qp_2

abbrev pub ib_ar_offset : ℕ
ib_ar_offset = ib_dest_qp_b3_offset + ib_bth.dest_qp_3

abbrev pub ib_psn_b1_offset : ℕ
ib_psn_b1_offset = ib_ar_offset + ib_bth.a_r

abbrev pub ib_psn_b2_offset : ℕ
ib_psn_b2_offset = ib_psn_b1_offset + ib_bth.psn_1

abbrev pub ib_psn_b3_offset : ℕ
ib_psn_b3_offset = ib_psn_b2_offset + ib_bth.psn_2

abbrev pub ib_pseud_payload_offset : ℕ
ib_pseud_payload_offset = ib_psn_b3_offset + ib_bth.psn_3
