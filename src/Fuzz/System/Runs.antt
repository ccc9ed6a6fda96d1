-- ===== src/Fuzz/System/Runs.antt =====
-- The two processes do not disturb each other: what each comes to is what its loop comes to alone.
use fuzzing_rdma.Base.{
  ℕ, ◌≡◌, refl, sym, ap, ◌∙◌, inl, inr, Option, Option-cases, none, some, some_inj, List, [], ◌∷◌,
  ◌++◌, map,
}
use mathlib.Core.List.{append_assoc, map-append}
use fuzzing_rdma.Fuzz.Tunnel.{
  cleared, Read, frame, server_step, server_run, client_step, client_run,
}
use fuzzing_rdma.Fuzz.System.{
  State, initial, Step, client_arrival, server_arrival, client_round, server_round, Reach, start,
  after,
}
use fuzzing_rdma.Fuzz.System.Laws.{move}

-- One more round behind a run of the server's channel, and of the client's.
server_run-snoc :
    (b : List ℕ) (rds : List Read) (rd : Read) (b' b'' : List ℕ) (outs : List (Option (List ℕ)))
    (out : Option (List ℕ))
    → server_run b rds ≡ some (b', outs)
    → server_step b' rd ≡ some (b'', out)
    → server_run b (rds ++ (rd ∷ [])) ≡ some (b'', outs ++ (out ∷ []))
unfolding server_run
server_run-snoc b [] rd b' b'' outs out e f =
    let same : (b, []) ≡ (b', outs) = some_inj e in
    let g : server_step b rd ≡ some (b'', out) = ap (λ t. server_step t.0 rd) same ∙ f in
    rw g (ap (λ t. some (b'', t.1 ++ (out ∷ []))) same)
server_run-snoc b (x ∷ rds) rd b' b'' outs out e f = elim (Option-cases (server_step b x)) [
  | inl g ↦ let h : server_run b (x ∷ rds) ≡ none = rw g refl in absurd (cc)
  | inr ((c, o), g) ↦ elim (Option-cases (server_run c rds)) [
    | inl h ↦ let k : server_run b (x ∷ rds) ≡ none = rw (g, h) refl in absurd (cc)
    | inr ((d, os), h) ↦
        let k : server_run b (x ∷ rds) ≡ some (d, o ∷ os) = rw (g, h) refl in
        let same : (d, o ∷ os) ≡ (b', outs) = some_inj (sym k ∙ e) in
        let step : server_step d rd ≡ some (b'', out) = ap (λ t. server_step t.0 rd) same ∙ f in
        rw (g, server_run-snoc c rds rd d b'' os out h step)
          (ap (λ t. some (b'', t.1 ++ (out ∷ []))) same)
  ]
]

module _ {R : Type 0} (rand : R → ℕ × R) where
  client_run-snoc :
      (b : List ℕ) (r : R) (rds : List Read) (rd : Read) (b' b'' : List ℕ) (r' r'' : R)
      (outs : List (Option (List ℕ))) (out : Option (List ℕ))
      → client_run rand b r rds ≡ some (b', r', outs)
      → client_step rand b' r' rd ≡ some (b'', r'', out)
      → client_run rand b r (rds ++ (rd ∷ [])) ≡ some (b'', r'', outs ++ (out ∷ []))
  unfolding client_run
  client_run-snoc b r [] rd b' b'' r' r'' outs out e f =
      let same : (b, r, []) ≡ (b', r', outs) = some_inj e in
      let g : client_step rand b r rd ≡ some (b'', r'', out) =
        ap (λ t. client_step rand t.0 t.1 rd) same ∙ f in
      rw g (ap (λ t. some (b'', r'', t.2 ++ (out ∷ []))) same)
  client_run-snoc b r (x ∷ rds) rd b' b'' r' r'' outs out e f =
      elim (Option-cases (client_step rand b r x)) [
        | inl g ↦ let h : client_run rand b r (x ∷ rds) ≡ none = rw g refl in absurd (cc)
        | inr ((c, s, o), g) ↦ elim (Option-cases (client_run rand c s rds)) [
          | inl h ↦ let k : client_run rand b r (x ∷ rds) ≡ none = rw (g, h) refl in absurd (cc)
          | inr ((d, u, os), h) ↦
              let k : client_run rand b r (x ∷ rds) ≡ some (d, u, o ∷ os) = rw (g, h) refl in
              let same : (d, u, o ∷ os) ≡ (b', r', outs) = some_inj (sym k ∙ e) in
              let step : client_step rand d u rd ≡ some (b'', r'', out) =
                ap (λ t. client_step rand t.0 t.1 rd) same ∙ f in
              rw (g, client_run-snoc c s rds rd d b'' u r'' os out h step)
                (ap (λ t. some (b'', r'', t.2 ++ (out ∷ []))) same)
        ]
      ]

  -- A state that two runs of the loops, each alone, have led to.
  pub record AreRuns (r : R) (s : State R) : Type 0 where
    pub of_client : List (List ℕ)
    pub of_server : List (List ℕ)
    pub client_split : of_client ++ s.from_client ≡ s.client_sent
    pub server_split : of_server ++ s.from_server ≡ s.server_sent
    pub client_runs :
        client_run rand cleared r (map frame of_client)
        ≡ some (s.buffer_client, s.random, map some s.to_server)
    pub server_runs :
        server_run cleared (map frame of_server) ≡ some (s.buffer_server, map some s.to_client)

  Step-AreRuns : {s t : State R} (r : R) → Step rand s t → AreRuns r s → AreRuns r t
  Step-AreRuns r (client_arrival s xs fits) h = record {
    of_client = h.of_client;
    of_server = h.of_server;
    client_split =
        sym (append_assoc h.of_client s.from_client (xs ∷ []))
        ∙ ap (λ q. q ++ (xs ∷ [])) h.client_split;
    server_split = h.server_split;
    client_runs = h.client_runs;
    server_runs = h.server_runs;
  }
  Step-AreRuns r (server_arrival s xs fits) h = record {
    of_client = h.of_client;
    of_server = h.of_server;
    client_split = h.client_split;
    server_split =
        sym (append_assoc h.of_server s.from_server (xs ∷ []))
        ∙ ap (λ q. q ++ (xs ∷ [])) h.server_split;
    client_runs = h.client_runs;
    server_runs = h.server_runs;
  }
  Step-AreRuns r (client_round s xs rest buffer out r' e f) h = record {
    of_client = h.of_client ++ (xs ∷ []);
    of_server = h.of_server;
    client_split = move h.of_client rest xs s.from_client s.client_sent e h.client_split;
    server_split = h.server_split;
    client_runs =
        ap (client_run rand cleared r) (map-append frame h.of_client (xs ∷ []))
        ∙ client_run-snoc cleared r (map frame h.of_client) (frame xs) s.buffer_client buffer
            s.random r' (map some s.to_server) (some out) h.client_runs f
        ∙ ap (λ o. some (buffer, r', o)) (sym (map-append some s.to_server (out ∷ [])));
    server_runs = h.server_runs;
  }
  Step-AreRuns r (server_round s xs rest buffer out e f) h = record {
    of_client = h.of_client;
    of_server = h.of_server ++ (xs ∷ []);
    client_split = h.client_split;
    server_split = move h.of_server rest xs s.from_server s.server_sent e h.server_split;
    client_runs = h.client_runs;
    server_runs =
        ap (server_run cleared) (map-append frame h.of_server (xs ∷ []))
        ∙ server_run-snoc cleared (map frame h.of_server) (frame xs) s.buffer_server buffer
            (map some s.to_client) (some out) h.server_runs f
        ∙ ap (λ o. some (buffer, o)) (sym (map-append some s.to_client (out ∷ [])));
  }

  pub Reach-AreRuns : (r : R) (s : State R) → Reach rand (initial r) s → AreRuns r s
  unfolding client_run server_run
  Reach-AreRuns r s start = record {
    of_client = [];
    of_server = [];
    client_split = refl;
    server_split = refl;
    client_runs = refl;
    server_runs = refl;
  }
  Reach-AreRuns r s (after {t} reach step) = Step-AreRuns r step (Reach-AreRuns r t reach)
