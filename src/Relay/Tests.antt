-- ===== src/Relay/Tests.antt =====
-- Runs of the relays on datagrams at hand.
use fuzzing_rdma.Base.{
  ◌++◌, suc, replicate, IsText, length, ◌≤◌, ◌⊎◌, none, refl, zeros, ℕ, ◌≡◌, ◌-◌, ◌↔◌, some, List,
  [], ◌∷◌, take, drop, pos, negsuc, arith, true,
}
use fuzzing_rdma.Relay.Session.{cut, relayed_exchange_lem}
use fuzzing_rdma.Exchange.Decimal.{print_int}
use fuzzing_rdma.Exchange.Session.{
  sd, sd_partner, freeaddrinfo, sendto, recvfrom, shutdown, xch_conn_inf_server,
  xch_conn_inf_client,
}
use fuzzing_rdma.Exchange.Session.Both.{delivering, connected}
use fuzzing_rdma.Relay.First as First
use fuzzing_rdma.Relay.First.Laws as FirstLaws
use fuzzing_rdma.Relay.First.Laws.{step_iff, Relayed, first_main_lem}
use fuzzing_rdma.Relay.Listen as Listen
use fuzzing_rdma.Relay.Listen.Laws.{listener_lem}
use fuzzing_rdma.Relay.Exchange as Exchange
use fuzzing_rdma.Relay.Exchange.{prepare_conn_resources, init_conn_resources}
use fuzzing_rdma.Relay.Exchange.Laws.{AllSucceed, ready, prepare_conn_resources_iff}
use fuzzing_rdma.Relay.Ports as Ports
use fuzzing_rdma.Relay.Ports.Laws.{padded, waiting, Routed, run_lem}
use fuzzing_rdma.Relay.Header.{IbBth, deserialize_ib_pkt}
use fuzzing_rdma.Relay.Header.Laws.{FlagsAreZero, deserialize_ib_pkt_lem}

-- Every call succeeds.
abbrev full : Exchange.Net
full = record {
  resolves = λ a. true;
  socket_xch = pos 3;
  bind_xch = true;
  socket_rdma = pos 4;
  bind_rdma = true;
}

abbrev from_client : List ℕ × List ℕ
from_client = (Exchange.config.client_address, 1 ∷ 2 ∷ [])

abbrev from_server : List ℕ × List ℕ
from_server = (Exchange.config.server_address, 3 ∷ [])

abbrev from_other : List ℕ × List ℕ
from_other = (b'1' ∷ b'0' ∷ [], 4 ∷ [])

prepare_conn_resources_iff_example :
    (prepare_conn_resources full init_conn_resources ≡ some (0, ready full))
    ↔ (AllSucceed full × (◌≡◌ {A = ℕ} 0 0) × (ready full ≡ ready full))
prepare_conn_resources_iff_example =
    prepare_conn_resources_iff full init_conn_resources (ready full) 0

run_lem_example :
    (later : List Ports.Sent) × (Ports.run
        (Ports.initial [] [])
        ((b'5' ∷ [], 1 ∷ []) ∷ (b'6' ∷ [], 2 ∷ []) ∷ (Ports.client_port_std, 3 ∷ []) ∷ [])
      ≡ some (
        waiting true true (b'5' ∷ []) (b'6' ∷ []),
        (Ports.server_xch, padded (1 ∷ [])) ∷ (Ports.client_xch, padded (2 ∷ [])) ∷ later,
      ))
    × Routed ((Ports.client_port_std, 3 ∷ []) ∷ []) later
run_lem_example =
    run_lem [] [] (b'5' ∷ [], 1 ∷ []) (b'6' ∷ [], 2 ∷ []) ((Ports.client_port_std, 3 ∷ []) ∷ [])
      (omega arith)

abbrev packet : List ℕ
packet =
    4 ∷ 0xf0 ∷ 0xff ∷ 0xff ∷ 0 ∷ 0 ∷ 0 ∷ 0x11 ∷ 0x80 ∷ 0 ∷ 0 ∷ 1 ∷ 42 ∷ 43 ∷ 0 ∷ 0 ∷ 0 ∷ 0 ∷ 0 ∷ []

deserialize_ib_pkt_lem_example :
    (h : IbBth) × (deserialize_ib_pkt packet 19 ≡ some (h, take (19 - 17) (drop 12 packet)))
    × FlagsAreZero h
deserialize_ib_pkt_lem_example = deserialize_ib_pkt_lem packet 19 (omega arith) (omega arith)

-- The sockets that forward all fail.
abbrev no_forward : Ports.Net
no_forward = record {
  argc = 2;
  resolves = λ a. true;
  socket_of = λ a. elim a [ Ports.listen ↦ pos 3 | _ ↦ negsuc 0 ];
  binds = true;
}

-- A datagram of 1024 bytes, none of them zero.
step_iff_example :
    ((First.step (pos 4) (zeros 1024) (replicate 1024 65) ≡ none)
      ↔ (IsText (replicate 1024 65) × (1024 ≤ length (replicate {A = ℕ} 1024 65))))
    × ((First.step (pos 4) (zeros 1024) (replicate 1024 65) ≡ none)
        ⊎ ((text : List ℕ) × (First.step (pos 4) (zeros 1024) (replicate 1024 65)
              ≡ some (zeros 1024, (text, some (FirstLaws.padded (replicate 1024 65)))))))
step_iff_example = step_iff (pos 4) (replicate 1024 65) (omega arith)

-- Every call succeeds.
abbrev first_net : First.Net
first_net = record {
  argc = 3;
  own_address = true;
  socket_listen = pos 3;
  binds = true;
  forward_address = true;
  socket_forward = pos 4;
}

first_main_lem_example :
    ((rounds : List First.Round) × (First.main first_net (pos 0) ((1 ∷ []) ∷ []) ≡ some (0, rounds))
      × Relayed (pos 4) ((1 ∷ []) ∷ []) rounds)
    × (First.main first_net (pos (suc 5)) ((1 ∷ []) ∷ []) ≡ some (0, []))
    × (First.main first_net (negsuc 5) ((1 ∷ []) ∷ []) ≡ some (0, []))
first_main_lem_example =
    first_main_lem first_net ((1 ∷ []) ∷ []) 5 (refl, refl, refl, refl, refl) (omega arith)

abbrev listen_net : Listen.Net
listen_net = record { argc = 2; own_address = true; socket_listen = pos 3; binds = true }

listener_lem_example :
    (Listen.main listen_net ((1 ∷ 0 ∷ []) ∷ []) ≡ none) × (Listen.main listen_net [] ≡ some (0, []))
listener_lem_example = listener_lem listen_net (1 ∷ 0 ∷ []) [] (refl, refl, refl, refl)

relayed_exchange_lem_example :
    (m : List ℕ) × (m' : List ℕ) × (d : List ℕ) × (d' : List ℕ) × (Ports.run
        (Ports.initial [] [])
        ((b'7' ∷ [], m') ∷ (b'8' ∷ [], m) ∷ [])
      ≡ some (
        waiting true true (b'7' ∷ []) (b'8' ∷ []),
        (Ports.server_xch, d') ∷ (Ports.client_xch, d) ∷ [],
      ))
    × (xch_conn_inf_server
          (replicate 100 5)
          (delivering (cut d'))
          (print_int 17)
          (replicate 16 1)
          (record { gid = []; qpn = pos 0 })
        ≡ some (
          0,
          record { gid = replicate 16 2; qpn = pos 1027 },
          connected ++ (recvfrom ∷ sendto sd m ∷ shutdown sd ∷ freeaddrinfo ∷ []),
        ))
    × (xch_conn_inf_client
          (replicate 100 6)
          (delivering (cut d))
          (print_int 1027)
          (replicate 16 2)
          (record { gid = []; qpn = pos 0 })
        ≡ some (
          0,
          record { gid = replicate 16 1; qpn = pos 17 },
          connected ++ (sendto sd_partner m' ∷ recvfrom ∷ shutdown sd ∷ freeaddrinfo ∷ []),
        ))
relayed_exchange_lem_example =
    relayed_exchange_lem (replicate 16 1) (replicate 16 2) 17 1027 (replicate 100 5)
      (replicate 100 6) (record { gid = []; qpn = pos 0 }) (record { gid = []; qpn = pos 0 })
      (b'8' ∷ []) (b'7' ∷ []) [] [] refl refl (omega arith) (omega arith) refl refl
