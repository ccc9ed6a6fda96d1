-- ===== src/Relay/Session.antt =====
-- The exchange of programs/rdma-progs/client-server/xch-qpn.c across the relay of
-- programs/udp-proxy/ib_proxy_two.c: the padding of the relay is cut off by the buffers of 100
-- bytes that both sides receive into.
use fuzzing_rdma.Base.{
  ℕ, ◌^◌, ◌<◌, ◌≡◌, sym, ap, ◌∙◌, true, some, List, [], ◌∷◌, ◌++◌, length, take, drop, zeros,
  take-append, pos, arith,
}
use fuzzing_rdma.Exchange.{ConnInf}
use fuzzing_rdma.Exchange.Decimal.{print_int}
use fuzzing_rdma.Exchange.RoundTrip.{message}
use fuzzing_rdma.Exchange.Session.{
  sd, sd_partner, freeaddrinfo, sendto, recvfrom, shutdown, xch_conn_inf_server,
  xch_conn_inf_client,
}
use fuzzing_rdma.Exchange.Session.Both.{
  delivering, connected, sent_length, server_side, client_side,
}
use fuzzing_rdma.Relay.Ports.{client_xch, server_xch, initial, run}
use fuzzing_rdma.Relay.Ports.Laws.{padded, waiting, Routed-none, run_lem}

-- What `recvfrom` copies into a buffer of 100 bytes.
abbrev pub cut : List ℕ → List ℕ
cut datagram = take 100 datagram

cut-padded : (m : List ℕ) → length m ≡ 100 → cut (padded m) ≡ m
cut-padded m e = ap (λ n. take n (padded m)) (sym e) ∙ take-append m (drop (length m) (zeros 4096))

-- Two sides with GIDs of 16 bytes, numbers of 24 bits and messages of 100 bytes, with the relay by
-- ports between them, whatever the ports that they send from: the relay sends the message of the
-- client, which comes first, to the exchange port of the server, and that of the server to the
-- exchange port of the client; from these datagrams, cut to their buffers, both sides return 0 and
-- hold the GID and the number of the other.
pub relayed_exchange_lem :
    (gid gid' : List ℕ) (n n' : ℕ) (buffer buffer' : List ℕ) (cinf cinf' : ConnInf)
    (port port' c s : List ℕ)
    → length gid ≡ 16
    → length gid' ≡ 16
    → n < 2 ^ 24
    → n' < 2 ^ 24
    → length buffer ≡ 100
    → length buffer' ≡ 100
    → (m : List ℕ) × (m' : List ℕ) × (d : List ℕ) × (d' : List ℕ) × (run
          (initial c s)
          ((port', m') ∷ (port, m) ∷ [])
        ≡ some (waiting true true port' port, (server_xch, d') ∷ (client_xch, d) ∷ []))
      × (xch_conn_inf_server buffer (delivering (cut d')) (print_int n) gid cinf
          ≡ some (
            0,
            record { gid = gid'; qpn = pos n' },
            connected ++ (recvfrom ∷ sendto sd m ∷ shutdown sd ∷ freeaddrinfo ∷ []),
          ))
      × (xch_conn_inf_client buffer' (delivering (cut d)) (print_int n') gid' cinf'
          ≡ some (
            0,
            record { gid = gid; qpn = pos n },
            connected ++ (sendto sd_partner m' ∷ recvfrom ∷ shutdown sd ∷ freeaddrinfo ∷ []),
          ))
relayed_exchange_lem gid gid' n n' buffer buffer' cinf cinf' port port' c s g g' h h' l l' =
    let m : List ℕ = message gid (print_int n) 100 in
    let m' : List ℕ = message gid' (print_int n') 100 in
    let k : length m ≡ 100 = sent_length gid n g h in
    let k' : length m' ≡ 100 = sent_length gid' n' g' h' in
    let (later, e, routed) =
      run_lem c s (port', m') (port, m) [] (omega (arith, k'), (omega (arith, k), tt)) in
    (
      m,
      m',
      padded m,
      padded m',
      e
          ∙ ap
              (λ later. some (
                waiting true true port' port,
                (server_xch, padded m') ∷ (client_xch, padded m) ∷ later,
              ))
              (Routed-none routed),
      ap (λ t. xch_conn_inf_server buffer (delivering t) (print_int n) gid cinf) (cut-padded m' k')
          ∙ server_side gid gid' n n' buffer cinf g g' h h' l,
      ap (λ t. xch_conn_inf_client buffer' (delivering t) (print_int n') gid' cinf')
            (cut-padded m k)
          ∙ client_side gid' gid n' n buffer' cinf' g' g h' h l',
    )
