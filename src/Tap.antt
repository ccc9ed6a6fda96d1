-- ===== src/Tap.antt =====
-- The earlier versions of the tunnel: programs/proxy-fuzzer/tunnelnofuzz.c (Plain), which fuzzes
-- nothing, and programs/tapdev/taptunnel.c (Mutated), with the first fuzzer; and the two programs tapdev.c (Device), which only read.
pub mod Plain
pub mod Mutated
pub mod Device
mod Tests
