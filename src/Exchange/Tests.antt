-- ===== src/Exchange/Tests.antt =====
-- Exchanges of messages at hand.
use fuzzing_rdma.Base.{
  ℕ, ◌≡◌, refl, none, some, List, [], ◌∷◌, ◌++◌, length, replicate, pos, arith, true,
}
use fuzzing_rdma.Exchange.First as First
use fuzzing_rdma.Exchange.First.{first_text}
use fuzzing_rdma.Exchange.First.Text.{told}
use fuzzing_rdma.Exchange.First.Laws.{first_exchange_lem, first_xch_overflows}
use fuzzing_rdma.Exchange.{ConnInf, prepare_msg, parse_conn_inf}
use fuzzing_rdma.Exchange.Decimal.{print_int}
use fuzzing_rdma.Exchange.RoundTrip.{parse_conn_inf-prepare_msg}
use fuzzing_rdma.Exchange.Session.{
  sd, sd_partner, freeaddrinfo, sendto, recvfrom, shutdown, Net, xch_conn_inf_server,
  xch_conn_inf_client,
}
use fuzzing_rdma.Exchange.Session.Laws.{Settles, xch_conn_inf-Settles}
use fuzzing_rdma.Exchange.Session.Both.{delivering, connected, exchange_lem}

abbrev gid_a : List ℕ
gid_a = replicate 16 7

abbrev gid_b : List ℕ
gid_b = replicate 16 9

abbrev no_info : ConnInf
no_info = record { gid = replicate 16 0; qpn = pos 0 }

-- A network whose receipt fails.
abbrev deaf : Net
deaf = record {
  own_address = true;
  own_socket = true;
  bound = true;
  partner_address = true;
  partner_socket = true;
  received = none;
}

printed : print_int 1027 ≡ b'1' ∷ b'0' ∷ b'2' ∷ b'7' ∷ []
unfolding print_int
printed = refl

parse_conn_inf-prepare_msg_example :
    (sent : List ℕ) × (prepare_msg (print_int 1027) gid_a (replicate 100 5) ≡ some (0, sent))
    × (length sent ≡ 100)
    × (parse_conn_inf sent (pos 100) no_info ≡ some (0, record { gid = gid_a; qpn = pos 1027 }))
parse_conn_inf-prepare_msg_example =
    parse_conn_inf-prepare_msg gid_a (replicate 100 5) 1027 no_info refl refl (omega arith)

xch_conn_inf-Settles_example :
    Settles (xch_conn_inf_server (replicate 100 5) deaf (b'1' ∷ []) gid_a no_info)
    × Settles (xch_conn_inf_client (replicate 100 5) deaf (b'1' ∷ []) gid_a no_info)
xch_conn_inf-Settles_example =
    xch_conn_inf-Settles (replicate 100 5) deaf (b'1' ∷ []) gid_a no_info refl refl (omega arith) tt

exchange_lem_example :
    (m m' : List ℕ) × (xch_conn_inf_server
        (replicate 100 5)
        (delivering m')
        (print_int 17)
        gid_a
        no_info
      ≡ some (
        0,
        record { gid = gid_b; qpn = pos 1027 },
        connected ++ (recvfrom ∷ sendto sd m ∷ shutdown sd ∷ freeaddrinfo ∷ []),
      ))
    × (xch_conn_inf_client (replicate 100 6) (delivering m) (print_int 1027) gid_b no_info
        ≡ some (
          0,
          record { gid = gid_a; qpn = pos 17 },
          connected ++ (sendto sd_partner m' ∷ recvfrom ∷ shutdown sd ∷ freeaddrinfo ∷ []),
        ))
exchange_lem_example =
    exchange_lem gid_a gid_b 17 1027 (replicate 100 5) (replicate 100 6) no_info no_info refl refl
      (omega arith) (omega arith) refl refl

-- Two sides of the first exchange.
abbrev qpn_a : List ℕ
qpn_a = b'1' ∷ b'7' ∷ []

abbrev guid_a : List ℕ
guid_a = b'a' ∷ b':' ∷ b'1' ∷ []

abbrev qpn_b : List ℕ
qpn_b = b'4' ∷ []

abbrev guid_b : List ℕ
guid_b = b'b' ∷ []

first_exchange_lem_example :
    (m : List ℕ) × (m' : List ℕ) × (First.xch_conn_inf_server
        (replicate 100 5)
        (delivering m')
        qpn_a
        guid_a
        (replicate 50 7)
        40
      ≡ some (
        0,
        told (first_text qpn_b guid_b) 40 (replicate 50 7),
        connected ++ (recvfrom ∷ sendto sd m ∷ freeaddrinfo ∷ []),
      ))
    × (First.xch_conn_inf_client (replicate 100 6) (delivering m) qpn_b guid_b (replicate 20 8) 20
        ≡ some (
          0,
          told (first_text qpn_a guid_a) 20 (replicate 20 8),
          connected ++ (sendto sd_partner m' ∷ recvfrom ∷ freeaddrinfo ∷ []),
        ))
first_exchange_lem_example =
    first_exchange_lem qpn_a guid_a qpn_b guid_b (replicate 100 5) (replicate 100 6)
      (replicate 50 7) (replicate 20 8) 40 20 (omega arith) (omega arith) (omega arith)
      (omega arith)

first_xch_overflows_example :
    (First.xch_conn_inf_server
        (replicate 100 5)
        (delivering [])
        qpn_a
        (replicate 90 7)
        (replicate 50 7)
        40
      ≡ none)
    × (First.xch_conn_inf_client
          (replicate 100 5)
          (delivering [])
          qpn_a
          (replicate 90 7)
          (replicate 50 7)
          40
        ≡ none)
first_xch_overflows_example =
    first_xch_overflows (replicate 100 5) [] qpn_a (replicate 90 7) (replicate 50 7) 40 refl
      (omega arith)
