-- ===== src/Fuzz.antt =====
-- The proxy fuzzer, programs/proxy-fuzzer: the offsets of net_types.h and the program proxy-f.c.
pub mod Offsets
pub mod Classify
pub mod Bth
pub mod Tunnel
mod Tests
pub mod Startup
pub mod System
pub mod Main
