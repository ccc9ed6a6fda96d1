-- ===== src/Fuzz/System/Laws.antt =====
-- What holds at every moment of the two processes, however their rounds and the arrivals
-- interleave.
use fuzzing_rdma.Base.{
  Pairwise, Pairwise-append, ℕ, ◌≤◌, ◌≡◌, refl, sym, ap, ◌∙◌, some, some_inj, List, [], ◌∷◌, ◌++◌,
  length, length-zeros,
}
use mathlib.Core.Path.{subst}
use mathlib.Core.List.{append_assoc}
use fuzzing_rdma.Fuzz.Tunnel.{max_eth_len, cleared, frame, server_step, client_step}
use fuzzing_rdma.Fuzz.Tunnel.Server.{server_step_frame, AllFit}
use fuzzing_rdma.Fuzz.Tunnel.Client.{IsFuzzed, client_step_forwards}
use fuzzing_rdma.Fuzz.System.{
  State, initial, Step, client_arrival, server_arrival, client_round, server_round, Reach, start,
  after,
}

pub AllFit-append :
    (xs : List (List ℕ)) (x : List ℕ) → AllFit xs → length x ≤ max_eth_len → AllFit (xs ++ (x ∷ []))
AllFit-append [] x h k = (k, tt)
AllFit-append (y ∷ xs) x (h, t) k = (h, AllFit-append xs x t k)

-- The channel of the server has written the frames of the server, unchanged and in order, but for
-- those that wait; the channel of the client has written one fuzzed frame for each frame of the
-- client, in order, but for those that wait; the buffer of the server's channel is clear.
pub record IsSound {R : Type 0} (s : State R) : Type 0 where
  pub buffer_client : length s.buffer_client ≡ max_eth_len
  pub buffer_server : s.buffer_server ≡ cleared
  pub client_fit : AllFit s.from_client
  pub server_fit : AllFit s.from_server
  pub to_client : s.to_client ++ s.from_server ≡ s.server_sent
  pub to_server :
      (carried : List (List ℕ)) × (carried ++ s.from_client ≡ s.client_sent)
      × Pairwise IsFuzzed carried s.to_server

-- the front of a queue moves to the end of the list in front of it
pub move :
    (done rest : List (List ℕ)) (x : List ℕ) (queue sent : List (List ℕ))
    → queue ≡ x ∷ rest
    → done ++ queue ≡ sent
    → (done ++ (x ∷ [])) ++ rest ≡ sent
move done rest x queue sent e h = append_assoc done (x ∷ []) rest ∙ ap (λ q. done ++ q) (sym e) ∙ h

pub AllFit-front :
    (queue : List (List ℕ)) (x : List ℕ) (rest : List (List ℕ))
    → queue ≡ x ∷ rest
    → AllFit queue
    → (length x ≤ max_eth_len) × AllFit rest
AllFit-front queue x rest e h = subst AllFit e h

module _ {R : Type 0} (rand : R → ℕ × R) where
  -- What a round of the client's channel leaves and writes.
  pub client_round_lem :
      (b : List ℕ) (r : R) (xs buffer out : List ℕ) (r' : R)
      → length b ≡ max_eth_len
      → length xs ≤ max_eth_len
      → client_step rand b r (frame xs) ≡ some (buffer, r', some out)
      → (length buffer ≡ max_eth_len) × IsFuzzed xs out
  client_round_lem b r xs buffer out r' hb hx f =
      let (buffer', out', r'', e, l, k) = client_step_forwards rand b xs r hb hx in
      let q : (buffer', r'', some out') ≡ (buffer, r', some out) = some_inj (sym e ∙ f) in
      (sym (ap (λ t. length t.0) q) ∙ l, subst (IsFuzzed xs) (some_inj (ap (λ t. t.2) q)) k)

  -- What a round of the server's channel leaves and writes.
  pub server_round_lem :
      (b xs buffer out : List ℕ)
      → b ≡ cleared
      → length xs ≤ max_eth_len
      → server_step b (frame xs) ≡ some (buffer, some out)
      → (buffer ≡ cleared) × (out ≡ xs)
  server_round_lem b xs buffer out hb hx f =
      let q : (buffer, some out) ≡ (cleared, some xs) =
        some_inj
          (sym f ∙ ap (λ t. server_step t (frame xs)) hb ∙ server_step_frame max_eth_len xs hx) in
      (ap (λ t. t.0) q, some_inj (ap (λ t. t.1) q))

  pub Step-IsSound : {s t : State R} → Step rand s t → IsSound s → IsSound t
  Step-IsSound (client_arrival s xs fits) h =
      let (carried, e, k) = h.to_server in
      record {
        buffer_client = h.buffer_client;
        buffer_server = h.buffer_server;
        server_fit = h.server_fit;
        to_client = h.to_client;
        client_fit = AllFit-append s.from_client xs h.client_fit fits;
        to_server = (
          carried,
          sym (append_assoc carried s.from_client (xs ∷ [])) ∙ ap (λ q. q ++ (xs ∷ [])) e,
          k,
        );
      }
  Step-IsSound (server_arrival s xs fits) h = record {
    buffer_client = h.buffer_client;
    buffer_server = h.buffer_server;
    client_fit = h.client_fit;
    to_server = h.to_server;
    server_fit = AllFit-append s.from_server xs h.server_fit fits;
    to_client =
        sym (append_assoc s.to_client s.from_server (xs ∷ []))
        ∙ ap (λ q. q ++ (xs ∷ [])) h.to_client;
  }
  Step-IsSound (client_round s xs rest buffer out r e f) h =
      let (carried, g, k) = h.to_server in
      let (fits, others) = AllFit-front s.from_client xs rest e h.client_fit in
      let (l, fuzzed) =
        client_round_lem s.buffer_client s.random xs buffer out r h.buffer_client fits f in
      record {
        buffer_server = h.buffer_server;
        server_fit = h.server_fit;
        to_client = h.to_client;
        buffer_client = l;
        client_fit = others;
        to_server = (
          carried ++ (xs ∷ []),
          move carried rest xs s.from_client s.client_sent e g,
          Pairwise-append IsFuzzed carried s.to_server xs out k fuzzed,
        );
      }
  Step-IsSound (server_round s xs rest buffer out e f) h =
      let (fits, others) = AllFit-front s.from_server xs rest e h.server_fit in
      let (clear, same) = server_round_lem s.buffer_server xs buffer out h.buffer_server fits f in
      record {
        buffer_client = h.buffer_client;
        client_fit = h.client_fit;
        to_server = h.to_server;
        buffer_server = clear;
        server_fit = others;
        to_client =
            ap (λ q. (s.to_client ++ (q ∷ [])) ++ rest) same
            ∙ move s.to_client rest xs s.from_server s.server_sent e h.to_client;
      }

  initial-IsSound : (r : R) → IsSound (initial r)
  initial-IsSound r = record {
    buffer_client = length-zeros max_eth_len;
    buffer_server = refl;
    client_fit = tt;
    server_fit = tt;
    to_client = refl;
    to_server = ([], refl, tt);
  }

  -- In every state that the two processes come to, however their rounds and the arrivals of
  -- frames that fit interleave: the frames of the server are written to the client unchanged and
  -- in order but for those that wait, and each frame of the client that does not wait is written
  -- to the server, in order, fuzzed in its InfiniBand headers only; the buffer of the server's
  -- channel is clear, and that of the client's keeps its size.
  pub Reach-IsSound : (r : R) (s : State R) → Reach rand (initial r) s → IsSound s
  Reach-IsSound r s start = initial-IsSound r
  Reach-IsSound r s (after {t} reach step) = Step-IsSound step (Reach-IsSound r t reach)
