-- ===== src/Fuzz/System/Rounds.antt =====
-- A round can be gone through whenever a frame waits.
use fuzzing_rdma.Base.{
  ℕ, ◌≡◌, refl, ap, ◌∙◌, some, List, [], ◌∷◌, ◌++◌, length, arith, length-append, suc,
}
use fuzzing_rdma.Fuzz.Tunnel.{max_eth_len, cleared, frame, server_step}
use fuzzing_rdma.Fuzz.Tunnel.Server.{server_step_frame}
use fuzzing_rdma.Fuzz.Tunnel.Client.{client_step_forwards}
use fuzzing_rdma.Fuzz.System.{State, Step, client_round, server_round}
use fuzzing_rdma.Fuzz.System.Laws.{IsSound, AllFit-front}

module _ {R : Type 0} (rand : R → ℕ × R) where
  -- A round that the first frame of the client, and one that the first of the server allows.
  pub client_round_total :
      (s : State R) (xs : List ℕ) (rest : List (List ℕ))
      → IsSound s
      → s.from_client ≡ xs ∷ rest
      → (t : State R) × Step rand s t
        × (t.from_client ≡ rest)
        × (length t.to_server ≡ suc (length s.to_server))
        × (t.from_server ≡ s.from_server)
        × (t.client_sent ≡ s.client_sent)
        × (t.server_sent ≡ s.server_sent)
  client_round_total s xs rest h e =
      let (fits, others) = AllFit-front s.from_client xs rest e h.client_fit in
      let (buffer, out, r', f, l, k) =
        client_step_forwards rand s.buffer_client xs s.random h.buffer_client fits in
      (
        _,
        client_round s xs rest buffer out r' e f,
        refl,
        omega (arith, length-append s.to_server (out ∷ [])),
        refl,
        refl,
        refl,
      )

  pub server_round_total :
      (s : State R) (xs : List ℕ) (rest : List (List ℕ))
      → IsSound s
      → s.from_server ≡ xs ∷ rest
      → (t : State R) × Step rand s t
        × (t.from_server ≡ rest)
        × (t.to_client ≡ s.to_client ++ (xs ∷ []))
        × (t.from_client ≡ s.from_client)
        × (t.client_sent ≡ s.client_sent)
        × (t.server_sent ≡ s.server_sent)
  server_round_total s xs rest h e =
      let (fits, others) = AllFit-front s.from_server xs rest e h.server_fit in
      let f : server_step s.buffer_server (frame xs) ≡ some (cleared, some xs) =
        ap (λ t. server_step t (frame xs)) h.buffer_server
        ∙ server_step_frame max_eth_len xs fits in
      (_, server_round s xs rest cleared xs e f, refl, refl, refl, refl, refl)
