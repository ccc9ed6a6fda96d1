-- ===== src/Lib.antt =====
-- A library about the programs of this repository, which fuzz and relay RDMA traffic (RoCE v2).
--
-- The fuzzer (programs/proxy-fuzzer/proxy-f.c, net_types.h) is a tunnel between two TAP devices.
-- It parses its options and opens both devices (Fuzz.Startup: `parse_options`, `tun_alloc`,
-- `start` for `main` up to `fork`). One process then carries frames from the server to the client
-- (Fuzz.Tunnel: `server_step`, `server_run`); the other one carries frames from the client to the
-- server (`client_step`, `client_run`), and fuzzes those that Fuzz.Classify (`check_buffer_type`)
-- takes for InfiniBand traffic, by Fuzz.Bth (`fuzz_ib_bth`). Fuzz.Offsets has the structs and
-- offsets. The results of `read` are the events of the loops, a source of random numbers is a
-- parameter, and a buffer is the list of its bytes. Dump models `dump_buffer_bytes`, and
-- `print_buf_bytes` of programs/udp-proxy/ib_proxy_two.c.
--
-- The client and the server of programs/rdma-progs/client-server exchange their GIDs and queue
-- pair numbers (Exchange for `prepare_msg` and `parse_conn_inf` of xch-qpn.c, Exchange.Session for
-- `xch_conn_inf_server` and `xch_conn_inf_client`; Exchange.Decimal has what `sprintf` and `sscanf`
-- do with "%d"). With that they lead a queue pair to RTS (Qp.Transitions for qp_transitions.c,
-- Qp.Setup for the calls that `run_client` and `run_server` share, Qp.Client and Qp.Server for the
-- rest and their loops, Qp.Devices for their `main` functions, Qp.Live for whole runs). The
-- program vagrant-environment/dev_info/dev_info.c has a queue pair too (Qp.DevInfo). The verbs
-- library is a parameter: a record of results, and the calls of `ibv_modify_qp` are recorded.
-- Qp.Transitions.Laws has the attributes that each documented step of a reliable connection
-- requires, and the three calls to RTS with every attribute written out.
--
-- The programs of vagrant-environment/key_based_improved and key_based_storage read the number of
-- the partner with `scanf` in place of an exchange (Keyed.Setup for the calls that they share,
-- Keyed.Improved and Keyed.Storage for the rest; Keyed.Orderly has what all their runs keep).
-- Qp.Typestate is the protocol of a queue pair as an indexed data type, the documented sequences of
-- calls from one state to another, and Keyed.Typed has the six programs that connect a queue pair
-- as one data type, with the outcomes of all their calls (Keyed.Typed.Steps for their parts).
-- Exchange.First models programs/rdma-progs/xch-qpn/xch-qpn.c, the first version of the exchange,
-- and Listing models vagrant-environment/list_devices/list_devices.c.
--
-- The relays of programs/udp-proxy: Relay.Exchange for ib_proxy.c, Relay.Ports for `main` of
-- ib_proxy_two.c, and Relay.Header for its `deserialize_ib_pkt`; Relay.First for proxy.c and
-- Relay.Listen for test.c. Datagrams that arrive are events. Relay.Session is the exchange across
-- the relay by ports.
--
-- Tap has the earlier tunnels: Tap.Plain for programs/proxy-fuzzer/tunnelnofuzz.c, and Tap.Mutated
-- for programs/tapdev/taptunnel.c. Functions that these programs copy word for word from proxy-f.c
-- are the definitions of Fuzz. Fuzz.Main is `main` of proxy-f.c as a whole, for the process that
-- the result of `fork` makes. Fuzz.System is the step relation of the two processes of proxy-f.c,
-- which run at once, each with its own copies of the buffers; Fuzz.System.Link is the link that
-- they implement, Fuzz.System.Rounds has the rounds that are always possible, Fuzz.System.Drain the
-- runs that carry all frames that wait, Fuzz.System.Runs takes the processes apart again, and
-- Fuzz.System.Deterministic compares them with frames that are fuzzed one by one.
-- Fuzz.Tunnel.Faults and Fuzz.Main.Faults are about writes out of the buffers, Fuzz.Tunnel.Reached
-- and Fuzz.Bth.Reached about the mutations that can happen, Fuzz.Main.Transparent about the traffic that is left alone, and
-- Tap.Mutated.Versions about the two fuzzers side by side. Tap.Device is for
-- programs/tapdev/tapdev.c and programs/proxy-fuzzer/tapdev.c, which only read from a device.
--
-- Relay.Header.Fuzzed joins two parts: it is about what the parser of ib_proxy_two.c reads from a
-- frame that the fuzzer has forwarded. Preload models the two wrappers of
-- vagrant-environment/ld_preload/preloadfuncs.c, in front of any library, whose `open` takes a mode
-- that may be left out.
--
-- Base has what the parts share: C arrays as lists over native numbers, `memcpy` and `memset`
-- with their bounds, C strings, tests, the type `int`, and laws of the bit operations.
--
-- Conventions. An `Option` result `none` is an access out of bounds or the use of memory that was
-- never set, where no comment says otherwise. Memory that is not initialised is an argument, so
-- that a theorem holds whatever it held. A run that stays in a call is a result of its own
-- (`receiving` in Relay.Exchange, `waiting` in Qp.Setup). A C string is the list of its characters. Fuel is used in
-- two places: the dump has one more unit than there are whole rows, and the decimal text of a
-- number has ten digits at most.
--
-- Not modelled: what is printed besides the dumps, the listing, the bytes of proxy.c and the lines
-- of tapdev.c and of the wrappers; the addresses that calls are given; and the fuzzer in Go.
pub mod Base
pub mod Fuzz
pub mod Dump
pub mod Exchange
pub mod Relay
pub mod Qp
pub mod Keyed
pub mod Tap
pub mod Listing
pub mod Preload
