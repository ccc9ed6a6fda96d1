-- ===== src/Exchange/Session/Laws.antt =====
-- What a session keeps in every outcome of the network, and what two sides tell each other.
use fuzzing_rdma.Base.{
  drop, zeros, negsuc, overwrite_lem, length-append-drop, length-zeros, drop-zeros, inl, inr, ◌==◌,
  inl, inr, some_inj, Bool-cases, ℕ, zero, suc, ◌≤◌, ◌≡◌, refl, ap, ◌∙◌, Option, none, some, List,
  [], ◌∷◌, ◌++◌, length, ℤ, pos, arith,
}
use fuzzing_rdma.Exchange.{ConnInf, prepare_msg}
use fuzzing_rdma.Exchange.Decimal.Laws.{HasZero}
use fuzzing_rdma.Exchange.RoundTrip.{prepare_msg_lem, parse_conn_inf_total, message}
use fuzzing_rdma.Exchange.Session.{
  sd, sd_partner, Call, getaddrinfo, freeaddrinfo, socket, bind, sendto, recvfrom, shutdown, Net,
  Result, err3, receive, finish, connect, serve, ask, xch_conn_inf_server, xch_conn_inf_client,
}

-- The number of addresses resolved and not freed; `none` if one is freed that is not resolved.
abbrev pub held : ℕ → List Call → Option ℕ
held n [] = some n
held n (getaddrinfo ∷ calls) = held (suc n) calls
held zero (freeaddrinfo ∷ calls) = none
held (suc n) (freeaddrinfo ∷ calls) = held n calls
held n (socket _ ∷ calls) = held n calls
held n (bind ∷ calls) = held n calls
held n (sendto _ _ ∷ calls) = held n calls
held n (recvfrom ∷ calls) = held n calls
held n (shutdown _ ∷ calls) = held n calls

pub held-append : (n m : ℕ) (xs ys : List Call) → held n xs ≡ some m → held n (xs ++ ys) ≡ held m ys
held-append n m [] ys h = ap (λ t. held t ys) (some_inj h)
held-append n m (getaddrinfo ∷ xs) ys h = held-append (suc n) m xs ys h
held-append zero m (freeaddrinfo ∷ xs) ys h = absurd (cc)
held-append (suc n) m (freeaddrinfo ∷ xs) ys h = held-append n m xs ys h
held-append n m (socket _ ∷ xs) ys h = held-append n m xs ys h
held-append n m (bind ∷ xs) ys h = held-append n m xs ys h
held-append n m (sendto _ _ ∷ xs) ys h = held-append n m xs ys h
held-append n m (recvfrom ∷ xs) ys h = held-append n m xs ys h
held-append n m (shutdown _ ∷ xs) ys h = held-append n m xs ys h

-- A run that returns, with every address that was resolved freed once.
abbrev pub Settles : {A : Type 0} → Option (Result A) → Type 0
Settles {A} o =
    (status : ℕ) × (cinf : A) × (calls : List Call) × (o ≡ some (status, cinf, calls))
    × (held 0 calls ≡ some 0)

-- What `recvfrom` may leave in the buffer: an error, or a datagram that fits, with a zero in the
-- buffer behind the GID.
abbrev pub IsReadable : Option (List ℕ) → Type 0
IsReadable none = Unit {0}
IsReadable (some m) = (length m ≤ 100) × HasZero (drop 16 (m ++ drop (length m) (zeros 100)))

err3-Settles :
    (cinf : ConnInf) (calls : List Call) → held 0 calls ≡ some 1 → Settles (some (err3 cinf calls))
err3-Settles cinf calls h = (
  1,
  cinf,
  (calls ++ (shutdown sd ∷ [])) ++ (freeaddrinfo ∷ []),
  refl,
  held-append 0 1 (calls ++ (shutdown sd ∷ [])) (freeaddrinfo ∷ [])
      (held-append 0 1 calls (shutdown sd ∷ []) h),
)

HasZero-zeros : HasZero (drop 16 (zeros 100))
HasZero-zeros = rw (drop-zeros 16 100) (first_zero 83)
  where
    first_zero : (n : ℕ) → HasZero (zeros (suc n))
    first_zero n = unfold zeros in inl refl

receive_total :
    (received : Option (List ℕ))
    → IsReadable received
    → (msg : List ℕ) × (len : ℤ) × (receive received ≡ some (msg, len))
      × (16 ≤ length msg)
      × HasZero (drop 16 msg)
unfolding receive
receive_total none h =
    (zeros 100, negsuc 0, refl, rw (length-zeros 100) (omega arith), HasZero-zeros)
receive_total (some m) (h, z) =
    let fits : length m ≤ length (zeros 100) = rw (length-zeros 100) h in
    (
      m ++ drop (length m) (zeros 100),
      pos (length m),
      rw (overwrite_lem (zeros 100) m fits) refl,
      rw (length-append-drop m (zeros 100) fits, length-zeros 100) (omega arith),
      z,
    )

finish-Settles :
    (msg : List ℕ) (len : ℤ) (cinf : ConnInf) (calls : List Call)
    → 16 ≤ length msg
    → HasZero (drop 16 msg)
    → held 0 calls ≡ some 1
    → Settles (finish (msg, len) cinf calls)
unfolding finish
finish-Settles msg len cinf calls l z h =
    let (status, c, e) = parse_conn_inf_total msg len cinf l z in
    rw e (elim (Bool-cases (status == 0)) [
      | inl f ↦ rw f (
        0,
        c,
        calls ++ (shutdown sd ∷ freeaddrinfo ∷ []),
        refl,
        held-append 0 1 calls (shutdown sd ∷ freeaddrinfo ∷ []) h,
      )
      | inr f ↦ rw f (err3-Settles c calls h)
    ])

pub connect-Settles :
    {A : Type 0} (net : Net) (cinf : A) (k : List Call → Option (Result A))
    → ((calls : List Call) → held 0 calls ≡ some 1 → Settles (k calls))
    → Settles (connect net cinf k)
unfolding connect
connect-Settles net cinf k h = elim (Bool-cases net.own_address) [
  | inr e ↦ rw e (1, cinf, [], refl, refl)
  | inl a ↦ elim (Bool-cases net.own_socket) [
    | inr e ↦ rw (a, e) (1, cinf, _, refl, refl)
    | inl b ↦ elim (Bool-cases net.bound) [
      | inr e ↦ rw (a, b, e) (1, cinf, _, refl, refl)
      | inl c ↦ elim (Bool-cases net.partner_address) [
        | inr e ↦ rw (a, b, c, e) (1, cinf, _, refl, refl)
        | inl d ↦ elim (Bool-cases net.partner_socket) [
          | inr e ↦ rw (a, b, c, d, e) (1, cinf, _, refl, refl)
          | inl e ↦ rw (a, b, c, d, e) (h _ refl)
        ]
      ]
    ]
  ]
]

-- The message of a side with a GID and a text of at most nine characters.
pub prepared :
    (qpn gid msg_send : List ℕ)
    → length gid ≡ 16
    → length msg_send ≡ 100
    → length qpn ≤ 9
    → prepare_msg qpn gid msg_send ≡ some (0, message gid qpn 100)
prepared qpn gid msg_send g l q =
    prepare_msg_lem gid qpn msg_send g (omega arith) (omega arith)
    ∙ ap (λ t. some (0, message gid qpn t)) l

module _ (msg_send : List ℕ) (net : Net) (qpn gid : List ℕ) (cinf : ConnInf) (g : length gid ≡ 16)
    (l : length msg_send ≡ 100) (q : length qpn ≤ 9) (readable : IsReadable net.received) where
  serve-Settles :
      (calls : List Call) → held 0 calls ≡ some 1 → Settles (serve msg_send net qpn gid cinf calls)
  unfolding serve
  serve-Settles calls h =
      let (msg, len, e, long, z) = receive_total net.received readable in
      let sent : List ℕ = message gid qpn 100 in
      rw (e, prepared qpn gid msg_send g l q)
        (finish-Settles msg len cinf (calls ++ (recvfrom ∷ sendto sd sent ∷ [])) long z
          (held-append 0 1 calls (recvfrom ∷ sendto sd sent ∷ []) h))

  ask-Settles :
      (calls : List Call) → held 0 calls ≡ some 1 → Settles (ask msg_send net qpn gid cinf calls)
  unfolding ask
  ask-Settles calls h =
      let (msg, len, e, long, z) = receive_total net.received readable in
      let sent : List ℕ = message gid qpn 100 in
      rw (prepared qpn gid msg_send g l q, e)
        (finish-Settles msg len cinf (calls ++ (sendto sd_partner sent ∷ recvfrom ∷ [])) long z
          (held-append 0 1 calls (sendto sd_partner sent ∷ recvfrom ∷ []) h))

  -- With a GID of 16 bytes, a message buffer of 100 and a text of at most nine characters, and if
  -- what arrives fits its buffer and has a zero behind the GID: however the calls of the network
  -- turn out, both sides of the exchange return, with no access out of bounds, and free each
  -- address that they resolved, once.
  pub xch_conn_inf-Settles :
      Settles (xch_conn_inf_server msg_send net qpn gid cinf)
      × Settles (xch_conn_inf_client msg_send net qpn gid cinf)
  unfolding xch_conn_inf_server xch_conn_inf_client
  xch_conn_inf-Settles = (
    connect-Settles net cinf (serve msg_send net qpn gid cinf) serve-Settles,
    connect-Settles net cinf (ask msg_send net qpn gid cinf) ask-Settles,
  )
