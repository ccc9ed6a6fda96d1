-- ===== src/Fuzz/System/Deterministic.antt =====
-- Buffers and interleavings do not matter: what the two processes write is what each frame gives in
-- a clear buffer of its own, in the order in which the frames came.
use fuzzing_rdma.Base.{
  Pairwise, ℕ, ◌≡◌, sym, ap, ◌∙◌, some, some_inj, List, [], ◌∷◌, ◌++◌, map, length-zeros,
}
use mathlib.Core.Path.{subst}
use mathlib.Core.List.{append_cancel_right}
use fuzzing_rdma.Fuzz.Tunnel.{max_eth_len, cleared}
use fuzzing_rdma.Fuzz.Tunnel.Server.{AllFit}
use fuzzing_rdma.Fuzz.Tunnel.Client.{IsFuzzed}
use fuzzing_rdma.Fuzz.Tunnel.Replay.{NoneCut, fresh_run, client_run-eq-fresh_run}
use fuzzing_rdma.Fuzz.System.{
  State, initial, Step, client_arrival, server_arrival, client_round, server_round, Reach, start,
  after,
}
use fuzzing_rdma.Fuzz.System.Laws.{AllFit-append, Reach-IsSound}
use fuzzing_rdma.Fuzz.System.Runs.{Reach-AreRuns}

AllFit-front_of : (xs ys : List (List ℕ)) → AllFit (xs ++ ys) → AllFit xs
AllFit-front_of [] ys h = tt
AllFit-front_of (x ∷ xs) ys (h, t) = (h, AllFit-front_of xs ys t)

NoneCut-front_of : (xs ys : List (List ℕ)) → NoneCut (xs ++ ys) → NoneCut xs
NoneCut-front_of [] ys h = tt
NoneCut-front_of (x ∷ xs) ys (h, t) = (h, NoneCut-front_of xs ys t)

module _ {R : Type 0} (rand : R → ℕ × R) where
  Step-AllFit : {s t : State R} → Step rand s t → AllFit s.client_sent → AllFit t.client_sent
  Step-AllFit (client_arrival s xs fits) h = AllFit-append s.client_sent xs h fits
  Step-AllFit (server_arrival s xs fits) h = h
  Step-AllFit (client_round s xs rest buffer out r e f) h = h
  Step-AllFit (server_round s xs rest buffer out e f) h = h

  Reach-AllFit : (r : R) {s : State R} → Reach rand (initial r) s → AllFit s.client_sent
  Reach-AllFit r start = tt
  Reach-AllFit r (after reach step) = Step-AllFit step (Reach-AllFit r reach)

  -- In every state that the two processes come to, however their rounds and the arrivals of frames
  -- that fit interleave, if none of the frames of the client is of exactly 46 bytes: what has been
  -- written to the server, and the random numbers that are left, are those of the specification
  -- that fuzzes each frame of the client that does not wait in a clear buffer of its own, in the
  -- order in which they came; each differs from its frame in the InfiniBand headers only; and what
  -- has been written to the client are the frames of the server that do not wait, unchanged.
  pub Reach-deterministic :
      (r : R) (s : State R)
      → Reach rand (initial r) s
      → NoneCut s.client_sent
      → (carried : List (List ℕ)) × (carried ++ s.from_client ≡ s.client_sent)
        × (fresh_run rand r carried ≡ some (s.random, map some s.to_server))
        × Pairwise IsFuzzed carried s.to_server
        × (s.to_client ++ s.from_server ≡ s.server_sent)
  Reach-deterministic r s reach uncut =
      let h = Reach-AreRuns rand r s reach in
      let sound = Reach-IsSound rand r s reach in
      let (carried, split, fuzzed) = sound.to_server in
      let one : carried ≡ h.of_client =
        append_cancel_right carried h.of_client s.from_client (split ∙ sym h.client_split) in
      let fit : AllFit h.of_client =
        AllFit-front_of h.of_client s.from_client
          (subst AllFit (sym h.client_split) (Reach-AllFit r reach)) in
      let none_cut : NoneCut h.of_client =
        NoneCut-front_of h.of_client s.from_client (subst NoneCut (sym h.client_split) uncut) in
      let (d, r', outs, e, f) =
        client_run-eq-fresh_run rand cleared r h.of_client (length-zeros max_eth_len) fit
          none_cut in
      let same : (d, r', outs) ≡ (s.buffer_client, s.random, map some s.to_server) =
        some_inj (sym e ∙ h.client_runs) in
      (
        h.of_client,
        h.client_split,
        f ∙ ap (λ t. some (t.1, t.2)) same,
        subst (λ q. Pairwise IsFuzzed q s.to_server) one fuzzed,
        sound.to_client,
      )
