-- ===== src/Qp.antt =====
-- The queue pairs of programs/rdma-progs/client-server: their state transitions (Transitions),
-- the calls of the verbs library up to the exchange (Setup), the client and the server with their
-- `main` functions (Devices) and their whole runs (Live); and that of
-- vagrant-environment/dev_info/dev_info.c (DevInfo).
pub mod Transitions
pub mod Setup
pub mod Client
pub mod Server
pub mod Devices
pub mod Live
pub mod Typestate
pub mod DevInfo
mod Tests
