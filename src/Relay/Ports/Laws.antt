-- ===== src/Relay/Ports/Laws.antt =====
-- What the relay sends on: the first datagram to the server, the second to the client, the later
-- ones by the ports of their senders.
use fuzzing_rdma.Base.{
  ℕ, ◌≤◌, ◌≡◌, refl, ◌∙◌, Bool, Bool-cases, inl, inr, sym, ◌≢◌, same_text, same_text_lem,
  same_text_differ, true, false, some, List, [], ◌∷◌, ◌++◌, clear_all, length, drop, zeros,
  overwrite, fill, overwrite_lem, length-zeros, length-append-drop,
}
use fuzzing_rdma.Relay.Ports.{
  client, server, client_port_std, server_port_std, client_xch, server_xch, State, initial,
  Datagram, Sent, route, dispatch, step, in_front, run,
}

-- A datagram as it is sent on: its bytes, then zeros up to the size of the buffer.
abbrev pub padded : List ℕ → List ℕ
padded payload = payload ++ drop (length payload) (zeros 4096)

-- The state of the loop between two rounds.
abbrev pub waiting : Bool → Bool → List ℕ → List ℕ → State
waiting client_flag server_flag client_port server_port = record {
  buf = zeros 4096;
  client_flag = client_flag;
  server_flag = server_flag;
  client_port = client_port;
  server_port = server_port;
}

-- The port that the client sends from, as a text.
abbrev pub text_9001 : List ℕ
text_9001 = b'9' ∷ b'0' ∷ b'0' ∷ b'1' ∷ []

-- The port that the server sends from.
abbrev pub text_8001 : List ℕ
text_8001 = b'8' ∷ b'0' ∷ b'0' ∷ b'1' ∷ []

-- What is to be sent for the datagrams behind the first two: those from port 9001, the client's,
-- go to the server, those from port 8001, the server's, to the client, and no other is sent on.
pub data Routed : List Datagram → List Sent → Type 0 where
  no_more : Routed [] []
  from_client :
      {rest : List Datagram} {sent : List Sent} (port payload : List ℕ)
      → port ≡ text_9001
      → Routed rest sent
      → Routed ((port, payload) ∷ rest) ((server, padded payload) ∷ sent)
  from_server :
      {rest : List Datagram} {sent : List Sent} (port payload : List ℕ)
      → port ≡ text_8001
      → Routed rest sent
      → Routed ((port, payload) ∷ rest) ((client, padded payload) ∷ sent)
  from_elsewhere :
      {rest : List Datagram} {sent : List Sent} (port payload : List ℕ)
      → port ≢ text_9001
      → port ≢ text_8001
      → Routed rest sent
      → Routed ((port, payload) ∷ rest) sent

pub Routed-none : {sent : List Sent} → Routed [] sent → sent ≡ []
Routed-none no_more = refl

route-Routed :
    (port payload : List ℕ) (rest : List Datagram) (sent : List Sent)
    → Routed rest sent
    → Routed ((port, payload) ∷ rest) (route port (padded payload) ++ sent)
unfolding route
route-Routed port payload rest sent h = elim (Bool-cases (same_text client_port_std port)) [
  | inl e ↦ rw e (from_client port payload (sym (same_text_lem client_port_std port e)) h)
  | inr e ↦ elim (Bool-cases (same_text server_port_std port)) [
    | inl f ↦ rw (e, f) (from_server port payload (sym (same_text_lem server_port_std port f)) h)
    | inr f ↦
        rw (e, f)
          (from_elsewhere port payload (same_text_differ client_port_std port e)
            (same_text_differ server_port_std port f) h)
  ]
]

-- Every datagram fits into the buffer.
abbrev pub Fit : List Datagram → Type 0
Fit [] = Unit {0}
Fit ((port, payload) ∷ rest) = (length payload ≤ 4096) × Fit rest

module _ (payload : List ℕ) (h : length payload ≤ 4096) where
  received : overwrite (zeros 4096) payload ≡ some (padded payload)
  received = overwrite_lem (zeros 4096) payload (rw (length-zeros 4096) h)

  emptied : fill (padded payload) 4096 0 ≡ some (zeros 4096)
  emptied =
      clear_all (padded payload) 4096
        (length-append-drop payload (zeros 4096) (rw (length-zeros 4096) h) ∙ length-zeros 4096)

  -- A round in each of the three phases.
  step_first :
      (port c s : List ℕ)
      → step (waiting false false c s) (port, payload)
        ≡ some (waiting true false port s, (server_xch, padded payload) ∷ [])
  unfolding step dispatch
  step_first port c s = rw (received, emptied) refl

  step_second :
      (port c s : List ℕ)
      → step (waiting true false c s) (port, payload)
        ≡ some (waiting true true c port, (client_xch, padded payload) ∷ [])
  unfolding step dispatch
  step_second port c s = rw (received, emptied) refl

  step_later :
      (port c s : List ℕ)
      → step (waiting true true c s) (port, payload)
        ≡ some (waiting true true c s, route port (padded payload))
  unfolding step dispatch
  step_later port c s = rw (received, emptied) refl

run_later :
    (c s : List ℕ) (rest : List Datagram)
    → Fit rest
    → (later : List Sent) × (run (waiting true true c s) rest ≡ some (waiting true true c s, later))
      × Routed rest later
unfolding run in_front
run_later c s [] h = ([], refl, no_more)
run_later c s ((port, payload) ∷ rest) (h, k) =
    let (later, e, routed) = run_later c s rest k in
    (
      route port (padded payload) ++ later,
      rw (step_later payload h port c s, e) refl,
      route-Routed port payload rest later routed,
    )

-- From its start, on datagrams that fit into the buffer of 4096 bytes, the loop sends the first
-- datagram to the server's port for the exchange and the second to the client's, whoever they
-- come from; of the later ones it sends those from port 9001 to the server and those from port
-- 8001 to the client, in order, and drops the others. Each is padded with zeros to 4096 bytes,
-- with nothing of earlier datagrams in it. The record holds the ports of the first two senders. What is sent is
-- what `sendto` is given.
pub run_lem :
    (c s : List ℕ) (first second : Datagram) (rest : List Datagram)
    → Fit (first ∷ second ∷ rest)
    → (later : List Sent) × (run (initial c s) (first ∷ second ∷ rest)
        ≡ some (
          waiting true true first.0 second.0,
          (server_xch, padded first.1) ∷ (client_xch, padded second.1) ∷ later,
        ))
      × Routed rest later
unfolding run in_front
run_lem c s (p, first) (q, second) rest (h, (k, l)) =
    let (later, e, routed) = run_later p q rest l in
    (later, rw (step_first first h p c s, step_second second k q p s, e) refl, routed)
