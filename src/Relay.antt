-- ===== src/Relay.antt =====
-- The UDP relays of programs/udp-proxy: ib_proxy.c (Exchange), ib_proxy_two.c (Ports, and Header
-- for its parser), proxy.c (First) and test.c (Listen); and the exchange across a relay (Session).
pub mod Exchange
pub mod Ports
pub mod Header
pub mod First
pub mod Listen
pub mod Session
mod Tests
