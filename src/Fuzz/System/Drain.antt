-- ===== src/Fuzz/System/Drain.antt =====
-- Every frame that has come to a device can be carried: the two processes are never stuck.
use fuzzing_rdma.Base.{Pairwise, ℕ, ◌≡◌, refl, sym, ap, ◌∙◌, List, [], ◌∷◌, ◌++◌}
use mathlib.Core.Path.{subst}
use mathlib.Core.List.{append-nil}
use fuzzing_rdma.Fuzz.Tunnel.Client.{IsFuzzed}
use fuzzing_rdma.Fuzz.System.{State, initial, Step, Reach, start, after}
use fuzzing_rdma.Fuzz.System.Laws.{IsSound, Step-IsSound, Reach-IsSound}
use fuzzing_rdma.Fuzz.System.Rounds.{client_round_total, server_round_total}

module _ {R : Type 0} (rand : R → ℕ × R) where
  Reach-trans : {s t u : State R} → Reach rand s t → Reach rand t u → Reach rand s u
  Reach-trans h start = h
  Reach-trans h (after k step) = after (Reach-trans h k) step

  -- What a run of rounds alone keeps: the frames that have come, and the soundness of the state.
  record Drains (s t : State R) : Type 0 where
    pub reach : Reach rand s t
    pub sound : IsSound t
    pub same_client : t.client_sent ≡ s.client_sent
    pub same_server : t.server_sent ≡ s.server_sent

  Drains-start : (s : State R) → IsSound s → Drains s s
  Drains-start s h = record { reach = start; sound = h; same_client = refl; same_server = refl }

  Drains-Step :
      {s t : State R}
      → Step rand s t
      → IsSound s
      → t.client_sent ≡ s.client_sent
      → t.server_sent ≡ s.server_sent
      → Drains s t
  Drains-Step step h c d = record {
    reach = after start step;
    sound = Step-IsSound rand step h;
    same_client = c;
    same_server = d;
  }

  Drains-trans : {s t u : State R} → Drains s t → Drains t u → Drains s u
  Drains-trans h k = record {
    reach = Reach-trans h.reach k.reach;
    sound = k.sound;
    same_client = k.same_client ∙ h.same_client;
    same_server = k.same_server ∙ h.same_server;
  }

  one_client_round :
      (s : State R) (xs : List ℕ) (rest : List (List ℕ))
      → IsSound s
      → s.from_client ≡ xs ∷ rest
      → (t : State R) × Drains s t × (t.from_client ≡ rest) × (t.from_server ≡ s.from_server)
  one_client_round s xs rest h e =
      let (t, step, f, l, g, c, d) = client_round_total rand s xs rest h e in
      (t, Drains-Step step h c d, f, g)

  one_server_round :
      (s : State R) (xs : List ℕ) (rest : List (List ℕ))
      → IsSound s
      → s.from_server ≡ xs ∷ rest
      → (t : State R) × Drains s t × (t.from_server ≡ rest) × (t.from_client ≡ s.from_client)
  one_server_round s xs rest h e =
      let (t, step, f, l, g, c, d) = server_round_total rand s xs rest h e in
      (t, Drains-Step step h c d, f, g)

  drain_client :
      (waiting : List (List ℕ)) (s : State R)
      → IsSound s
      → s.from_client ≡ waiting
      → (t : State R) × Drains s t × (t.from_client ≡ []) × (t.from_server ≡ s.from_server)
  drain_client [] s h e = (s, Drains-start s h, e, refl)
  drain_client (x ∷ waiting) s h e =
      let (t, d, f, g) = one_client_round s x waiting h e in
      let (u, d', f', g') = drain_client waiting t d.sound f in (u, Drains-trans d d', f', g' ∙ g)

  drain_server :
      (waiting : List (List ℕ)) (s : State R)
      → IsSound s
      → s.from_server ≡ waiting
      → (t : State R) × Drains s t × (t.from_server ≡ []) × (t.from_client ≡ s.from_client)
  drain_server [] s h e = (s, Drains-start s h, e, refl)
  drain_server (x ∷ waiting) s h e =
      let (t, d, f, g) = one_server_round s x waiting h e in
      let (u, d', f', g') = drain_server waiting t d.sound f in (u, Drains-trans d d', f', g' ∙ g)

  -- The two processes are never stuck and lose nothing: from every state that they come to, they
  -- can go on to one in which no frame waits, where all frames of the server have been written to
  -- the client unchanged and in order, and one fuzzed frame has been written to the server for
  -- each frame of the client, in order.
  pub Reach-drains :
      (r : R) (s : State R)
      → Reach rand (initial r) s
      → (t : State R) × Reach rand s t
        × (t.from_client ≡ [])
        × (t.from_server ≡ [])
        × (t.to_client ≡ s.server_sent)
        × Pairwise IsFuzzed s.client_sent t.to_server
  Reach-drains r s reach =
      let (t, d, e, g) = drain_client s.from_client s (Reach-IsSound rand r s reach) refl in
      let (u, d', e', g') = drain_server t.from_server t d.sound refl in
      let all = Drains-trans d d' in
      let (carried, k, fuzzed) = all.sound.to_server in
      (
        u,
        all.reach,
        g' ∙ e,
        e',
        sym (append-nil u.to_client)
            ∙ ap (λ q. u.to_client ++ q) (sym e')
            ∙ all.sound.to_client
            ∙ all.same_server,
        subst (λ q. Pairwise IsFuzzed q u.to_server)
            (sym (append-nil carried) ∙ ap (λ q. carried ++ q) (sym (g' ∙ e)) ∙ k ∙ all.same_client)
            fuzzed,
      )
