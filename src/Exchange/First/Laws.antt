-- ===== src/Exchange/First/Laws.antt =====
-- What the first version of the exchange tells each side, when it returns, and when it writes
-- beyond its message.
use fuzzing_rdma.Base.{
  ℕ, ◌+◌, ◌≤◌, ◌<◌, ◌≡◌, refl, ◌∙◌, inl, inr, Option, none, some, List, [], ◌∷◌, ◌++◌, length, drop,
  zeros, overwrite_lem, overwrite_short, Option-cases, length-zeros, length-append,
  length-append-drop, arith,
}
use fuzzing_rdma.Exchange.Session.{
  sd, sd_partner, Call, freeaddrinfo, sendto, recvfrom, Net, connect,
}
use fuzzing_rdma.Exchange.Session.Laws.{Settles, connect-Settles, held, held-append}
use fuzzing_rdma.Exchange.Session.Both.{delivering, connected}
use fuzzing_rdma.Exchange.First.{
  first_text, print_msg, strncpy, receive, serve, ask, xch_conn_inf_server, xch_conn_inf_client,
}
use fuzzing_rdma.Exchange.First.Text.{
  first_text-IsText, length-first_text, print_msg_lem, receive-whole, receive_text, strncpy_lem,
  padded_text_total, told, IsSide, HasRoom, whole,
}

-- Each side, where the message of the other one arrives.
module _ (qpn guid qpn' guid' msg msg' conn_inf : List ℕ) (ci_len : ℕ) (side : IsSide qpn guid msg)
    (side' : IsSide qpn' guid' msg') (room : HasRoom (first_text qpn' guid') ci_len conn_inf) where
  pub server_side :
      xch_conn_inf_server msg (delivering (whole msg' qpn' guid')) qpn guid conn_inf ci_len
      ≡ some (
        0,
        told (first_text qpn' guid') ci_len conn_inf,
        connected ++ (recvfrom ∷ sendto sd (first_text qpn guid) ∷ freeaddrinfo ∷ []),
      )
  unfolding xch_conn_inf_server connect serve
  server_side =
      let (rest, e) = receive-whole qpn' guid' msg' side' in
      rw
        (
          e,
          strncpy_lem conn_inf (first_text qpn' guid') rest ci_len
              (first_text-IsText qpn' guid' side'.0 side'.1) room.0 room.1,
          print_msg_lem qpn guid msg side,
        )
        refl

  pub client_side :
      xch_conn_inf_client msg (delivering (first_text qpn' guid')) qpn guid conn_inf ci_len
      ≡ some (
        0,
        told (first_text qpn' guid') ci_len conn_inf,
        connected ++ (sendto sd_partner (whole msg qpn guid) ∷ recvfrom ∷ freeaddrinfo ∷ []),
      )
  unfolding xch_conn_inf_client connect ask
  client_side =
      let (rest, e) = receive_text qpn' guid' msg' side' in
      rw
        (
          print_msg_lem qpn guid msg side,
          e,
          strncpy_lem conn_inf (first_text qpn' guid') rest ci_len
              (first_text-IsText qpn' guid' side'.0 side'.1) room.0 room.1,
        )
        refl

-- Two sides with texts that hold no zero and together at most 89 characters, with messages of 100
-- bytes and room for the text of the other in the bytes given of the caller's buffer, on a network
-- that delivers to each the message that the other sends: both return 0, and the buffer of each
-- holds the text of the other with its number and identifier, zeros up to the length given, and
-- what it held behind that. Neither socket is shut down.
pub first_exchange_lem :
    (qpn guid qpn' guid' msg msg' conn_inf conn_inf' : List ℕ) (ci_len ci_len' : ℕ)
    → IsSide qpn guid msg
    → IsSide qpn' guid' msg'
    → HasRoom (first_text qpn' guid') ci_len conn_inf
    → HasRoom (first_text qpn guid) ci_len' conn_inf'
    → (m : List ℕ) × (m' : List ℕ) × (xch_conn_inf_server msg
          (delivering m')
          qpn
          guid
          conn_inf
          ci_len
        ≡ some (
          0,
          told (first_text qpn' guid') ci_len conn_inf,
          connected ++ (recvfrom ∷ sendto sd m ∷ freeaddrinfo ∷ []),
        ))
      × (xch_conn_inf_client msg' (delivering m) qpn' guid' conn_inf' ci_len'
          ≡ some (
            0,
            told (first_text qpn guid) ci_len' conn_inf',
            connected ++ (sendto sd_partner m' ∷ recvfrom ∷ freeaddrinfo ∷ []),
          ))
first_exchange_lem qpn guid qpn' guid' msg msg' conn_inf conn_inf' ci_len ci_len' h h' k k' = (
  first_text qpn guid,
  whole msg' qpn' guid',
  server_side qpn guid qpn' guid' msg msg' conn_inf ci_len h h' k,
  client_side qpn' guid' qpn guid msg' msg conn_inf' ci_len' h' h k',
)

-- What `recvfrom` may leave: an error, or a datagram that fits the buffer.
abbrev pub FitsBuf : Option (List ℕ) → Type 0
FitsBuf none = Unit {0}
FitsBuf (some m) = length m ≤ 500

receive_total :
    (received : Option (List ℕ))
    → FitsBuf received
    → (buf : List ℕ) × (receive received ≡ some buf) × (length buf ≡ 500)
receive_total none h = (zeros 500, refl, length-zeros 500)
receive_total (some m) h =
    let fits : length m ≤ length (zeros 500) = rw (length-zeros 500) h in
    (
      m ++ drop (length m) (zeros 500),
      overwrite_lem (zeros 500) m fits,
      length-append-drop m (zeros 500) fits ∙ length-zeros 500,
    )

strncpy_total :
    (conn_inf buf : List ℕ) (ci_len : ℕ)
    → ci_len ≤ length buf
    → ci_len ≤ length conn_inf
    → (c : List ℕ) × (strncpy conn_inf buf ci_len ≡ some c)
unfolding strncpy
strncpy_total conn_inf buf ci_len h k =
    let (t, e, l) = padded_text_total ci_len buf h in
    (t ++ drop (length t) conn_inf, rw e (overwrite_lem conn_inf t (omega (arith, l))))

module _ (msg : List ℕ) (net : Net) (qpn guid conn_inf : List ℕ) (ci_len : ℕ)
    (side : IsSide qpn guid msg) (readable : FitsBuf net.received) (small : ci_len ≤ 500)
    (room : ci_len ≤ length conn_inf) where
  serve-Settles :
      (calls : List Call)
      → held 0 calls ≡ some 1
      → Settles (serve msg net qpn guid conn_inf ci_len calls)
  unfolding serve
  serve-Settles calls h =
      let (buf, e, l) = receive_total net.received readable in
      let (c, f) = strncpy_total conn_inf buf ci_len (omega (arith, l)) room in
      rw (e, f, print_msg_lem qpn guid msg side)
        (
          0,
          c,
          calls ++ (recvfrom ∷ sendto sd (first_text qpn guid) ∷ freeaddrinfo ∷ []),
          refl,
          held-append 0 1 calls (recvfrom ∷ sendto sd (first_text qpn guid) ∷ freeaddrinfo ∷ []) h,
        )

  ask-Settles :
      (calls : List Call)
      → held 0 calls ≡ some 1
      → Settles (ask msg net qpn guid conn_inf ci_len calls)
  unfolding ask
  ask-Settles calls h =
      let (buf, e, l) = receive_total net.received readable in
      let (c, f) = strncpy_total conn_inf buf ci_len (omega (arith, l)) room in
      let sent : List ℕ = whole msg qpn guid in
      rw (print_msg_lem qpn guid msg side, e, f)
        (
          0,
          c,
          calls ++ (sendto sd_partner sent ∷ recvfrom ∷ freeaddrinfo ∷ []),
          refl,
          held-append 0 1 calls (sendto sd_partner sent ∷ recvfrom ∷ freeaddrinfo ∷ []) h,
        )

  -- If the two texts hold no zero and together have at most 89 characters, the message is one of
  -- 100 bytes, what arrives fits its buffer of 500 bytes, and `ci_len` is at most 500 and the size
  -- of the caller's buffer: however the calls of the network turn out, both functions return with
  -- no access out of bounds, and free each address that they resolved, once.
  first_xch-Settles :
      Settles (xch_conn_inf_server msg net qpn guid conn_inf ci_len)
      × Settles (xch_conn_inf_client msg net qpn guid conn_inf ci_len)
  unfolding xch_conn_inf_server xch_conn_inf_client
  first_xch-Settles = (
    connect-Settles net conn_inf (serve msg net qpn guid conn_inf ci_len) serve-Settles,
    connect-Settles net conn_inf (ask msg net qpn guid conn_inf ci_len) ask-Settles,
  )

-- If the two texts together have more than 89 characters, both functions write beyond their
-- message of 100 bytes, whatever arrives on a network whose other calls succeed.
pub first_xch_overflows :
    (msg m qpn guid conn_inf : List ℕ) (ci_len : ℕ)
    → length msg ≡ 100
    → 89 < length qpn + length guid
    → (xch_conn_inf_server msg (delivering m) qpn guid conn_inf ci_len ≡ none)
      × (xch_conn_inf_client msg (delivering m) qpn guid conn_inf ci_len ≡ none)
unfolding xch_conn_inf_server xch_conn_inf_client connect serve ask
first_xch_overflows msg m qpn guid conn_inf ci_len l h =
    let long : print_msg msg qpn guid ≡ none =
      overwrite_short msg (first_text qpn guid ++ (0 ∷ [])) (
        omega
          (arith, l, length-append (first_text qpn guid) (0 ∷ []), length-first_text qpn guid)) in
    (
      elim (Option-cases (receive (some m))) [
        | inl e ↦ rw e refl
        | inr (buf, e) ↦ elim (Option-cases (strncpy conn_inf buf ci_len)) [
          | inl f ↦ rw (e, f) refl
          | inr (c, f) ↦ rw (e, f, long) refl
        ]
      ],
      rw long refl,
    )
