-- ===== src/Exchange/Session/Both.antt =====
-- The two sides together: each learns the connection information of the other.
use mathlib.Core.List.{append-nil}
use fuzzing_rdma.Base.{
  drop-zeros, ℕ, ◌+◌, ◌^◌, ◌<◌, ◌≤◌, ◌≡◌, refl, ap, ◌∙◌, true, some, List, [], ◌∷◌, ◌++◌, length,
  drop, zeros, overwrite_lem, length-zeros, pos, arith,
}
use fuzzing_rdma.Exchange.{ConnInf}
use fuzzing_rdma.Exchange.Decimal.{print_int}
use fuzzing_rdma.Exchange.Decimal.Laws.{length-print_int}
use fuzzing_rdma.Exchange.RoundTrip.{message, length-message, parse_message}
use fuzzing_rdma.Exchange.Session.{
  sd, sd_partner, Call, getaddrinfo, freeaddrinfo, socket, bind, sendto, recvfrom, shutdown, Net,
  receive, finish, connect, serve, ask, xch_conn_inf_server, xch_conn_inf_client,
}
use fuzzing_rdma.Exchange.Session.Laws.{prepared}

-- A network on which every call succeeds, and which delivers one datagram.
abbrev pub delivering : List ℕ → Net
delivering m = record {
  own_address = true;
  own_socket = true;
  bound = true;
  partner_address = true;
  partner_socket = true;
  received = some m;
}

-- the calls in front of the two messages
abbrev pub connected : List Call
connected = getaddrinfo ∷ socket sd ∷ bind ∷ freeaddrinfo ∷ getaddrinfo ∷ socket sd_partner ∷ []

module _ (gid : List ℕ) (n : ℕ) (g : length gid ≡ 16) (small : n < 2 ^ 24) where
  pub short : length (print_int n) ≤ 9
  short = omega (arith, length-print_int 8 n (omega arith) (omega arith) (omega arith))

  pub sent_length : length (message gid (print_int n) 100) ≡ 100
  sent_length = length-message gid (print_int n) 100 (omega (arith, short))

  receive_message :
      receive (some (message gid (print_int n) 100)) ≡ some (message gid (print_int n) 100, pos 100)
  unfolding receive zeros
  receive_message =
      rw (overwrite_lem (zeros 100) sent (omega (arith, length-zeros 100, sent_length))) (
        ap (λ t. some (sent ++ drop t (zeros 100), pos t)) sent_length
        ∙ ap (λ t. some (sent ++ t, pos 100)) (drop-zeros 100 100)
        ∙ ap (λ t. some (t, pos 100)) (append-nil sent))
    where
      sent : List ℕ
      sent = message gid (print_int n) 100

  finish_message :
      (cinf : ConnInf) (calls : List Call)
      → finish (message gid (print_int n) 100, pos 100) cinf calls
        ≡ some (0, record { gid = gid; qpn = pos n }, calls ++ (shutdown sd ∷ freeaddrinfo ∷ []))
  unfolding finish
  finish_message cinf calls =
      rw
        (parse_message gid (drop (length gid + length (print_int n) + 1) (zeros 100)) n 100 cinf g
          (omega arith) (omega arith))
        refl

-- Each side, where the message of the other one arrives.
module _ (gid gid' : List ℕ) (n n' : ℕ) (buffer : List ℕ) (cinf : ConnInf) (g : length gid ≡ 16)
    (g' : length gid' ≡ 16) (k : n < 2 ^ 24) (k' : n' < 2 ^ 24) (l : length buffer ≡ 100) where
  pub server_side :
      xch_conn_inf_server buffer
        (delivering (message gid' (print_int n') 100))
        (print_int n)
        gid
        cinf
      ≡ some (
        0,
        record { gid = gid'; qpn = pos n' },
        connected
            ++ (recvfrom
                ∷ sendto sd (message gid (print_int n) 100)
                ∷ shutdown sd
                ∷ freeaddrinfo
                ∷ []),
      )
  unfolding xch_conn_inf_server connect serve
  server_side =
      rw
        (
          receive_message gid' n' g' k',
          prepared (print_int n) gid buffer g l (short gid n g k),
          finish_message gid' n' g' k' cinf _,
        )
        refl

  pub client_side :
      xch_conn_inf_client buffer
        (delivering (message gid' (print_int n') 100))
        (print_int n)
        gid
        cinf
      ≡ some (
        0,
        record { gid = gid'; qpn = pos n' },
        connected
            ++ (sendto sd_partner (message gid (print_int n) 100)
                ∷ recvfrom
                ∷ shutdown sd
                ∷ freeaddrinfo
                ∷ []),
      )
  unfolding xch_conn_inf_client connect ask
  client_side =
      rw
        (
          prepared (print_int n) gid buffer g l (short gid n g k),
          receive_message gid' n' g' k',
          finish_message gid' n' g' k' cinf _,
        )
        refl

-- Two sides with GIDs of 16 bytes and numbers of 24 bits, on a network that delivers to each the
-- message that the other sends: both return 0, each holds the GID and the number of the other,
-- and the messages are those sent. What the buffers and the records held before does not matter.
pub exchange_lem :
    (gid gid' : List ℕ) (n n' : ℕ) (buffer buffer' : List ℕ) (cinf cinf' : ConnInf)
    → length gid ≡ 16
    → length gid' ≡ 16
    → n < 2 ^ 24
    → n' < 2 ^ 24
    → length buffer ≡ 100
    → length buffer' ≡ 100
    → (m m' : List ℕ) × (xch_conn_inf_server buffer (delivering m') (print_int n) gid cinf
        ≡ some (
          0,
          record { gid = gid'; qpn = pos n' },
          connected ++ (recvfrom ∷ sendto sd m ∷ shutdown sd ∷ freeaddrinfo ∷ []),
        ))
      × (xch_conn_inf_client buffer' (delivering m) (print_int n') gid' cinf'
          ≡ some (
            0,
            record { gid = gid; qpn = pos n },
            connected ++ (sendto sd_partner m' ∷ recvfrom ∷ shutdown sd ∷ freeaddrinfo ∷ []),
          ))
exchange_lem gid gid' n n' buffer buffer' cinf cinf' g g' h h' l l' = (
  message gid (print_int n) 100,
  message gid' (print_int n') 100,
  server_side gid gid' n n' buffer cinf g g' h h' l,
  client_side gid' gid n' n buffer' cinf' g' g h' h l',
)
