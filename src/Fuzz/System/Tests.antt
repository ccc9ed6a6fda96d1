-- ===== src/Fuzz/System/Tests.antt =====
-- Runs of the two processes at hand.
use fuzzing_rdma.Base.{map, Pairwise, ℕ, ◌≡◌, refl, some, List, [], ◌∷◌, ◌++◌, arith, zeros}
use fuzzing_rdma.Fuzz.Classify.{check_buffer_type}
use fuzzing_rdma.Fuzz.Tunnel.{cleared, frame, read, write, fuzz_buffer, client_step, server_step}
use fuzzing_rdma.Fuzz.Tunnel.Client.{IsFuzzed}
use fuzzing_rdma.Fuzz.Tunnel.Replay.{fresh_run}
use fuzzing_rdma.Fuzz.System.{
  State, initial, Reach, start, after, client_arrival, server_arrival, client_round, server_round,
}
use fuzzing_rdma.Fuzz.System.Laws.{IsSound, Reach-IsSound}
use fuzzing_rdma.Fuzz.System.Link.{LinkReach-IsOrderly, LinkReach, empty}
use fuzzing_rdma.Fuzz.System.Drain.{Reach-drains}
use fuzzing_rdma.Fuzz.System.Deterministic.{Reach-deterministic}

-- a source of random numbers: the numbers to come
abbrev draw : List ℕ → ℕ × List ℕ
draw [] = (0, [])
draw (x ∷ xs) = (x, xs)

-- A frame of the client that waits, with nothing written.
abbrev one_waits : State (List ℕ)
one_waits = record {
  buffer_client = cleared;
  buffer_server = cleared;
  random = 9 ∷ [];
  from_client = (1 ∷ 2 ∷ []) ∷ [];
  from_server = [];
  to_client = [];
  to_server = [];
  client_sent = (1 ∷ 2 ∷ []) ∷ [];
  server_sent = [];
}

one_arrives : Reach draw (initial (9 ∷ [])) one_waits
one_arrives = after start (client_arrival (initial (9 ∷ [])) (1 ∷ 2 ∷ []) (omega arith))

Reach-IsSound_example : IsSound one_waits
Reach-IsSound_example = Reach-IsSound draw (9 ∷ []) one_waits one_arrives

Reach-drains_example :
    (t : State (List ℕ)) × Reach draw one_waits t
    × (t.from_client ≡ [])
    × (t.from_server ≡ [])
    × (t.to_client ≡ [])
    × Pairwise IsFuzzed ((1 ∷ 2 ∷ []) ∷ []) t.to_server
Reach-drains_example = Reach-drains draw (9 ∷ []) one_waits one_arrives

-- The four steps that carry a frame of the client and one of the server.
abbrev comes : State (List ℕ) → State (List ℕ)
comes s = record s {
  from_client = s.from_client ++ ((1 ∷ 2 ∷ []) ∷ []);
  client_sent = s.client_sent ++ ((1 ∷ 2 ∷ []) ∷ []);
}

abbrev answers : State (List ℕ) → State (List ℕ)
answers s = record s {
  from_server = s.from_server ++ ((3 ∷ []) ∷ []);
  server_sent = s.server_sent ++ ((3 ∷ []) ∷ []);
}

abbrev goes_up : State (List ℕ) → State (List ℕ)
goes_up s = record s {
  from_client = [];
  buffer_client = cleared;
  random = 9 ∷ [];
  to_server = s.to_server ++ ((1 ∷ 2 ∷ []) ∷ []);
}

abbrev goes_down : State (List ℕ) → State (List ℕ)
goes_down s = record s {
  from_server = [];
  buffer_server = cleared;
  to_client = s.to_client ++ ((3 ∷ []) ∷ []);
}

up_round :
    client_step draw cleared (9 ∷ []) (frame (1 ∷ 2 ∷ []))
    ≡ some (cleared, 9 ∷ [], some (1 ∷ 2 ∷ []))
unfolding client_step read check_buffer_type fuzz_buffer write zeros
up_round = refl

down_round : server_step cleared (frame (3 ∷ [])) ≡ some (cleared, some (3 ∷ []))
unfolding server_step read write zeros
down_round = refl

abbrev client_first : State (List ℕ)
client_first = goes_down (answers (goes_up (comes (initial (9 ∷ [])))))

Reach-client_first : Reach draw (initial (9 ∷ [])) client_first
Reach-client_first =
    after
      (after
        (after (after start (client_arrival (initial (9 ∷ [])) (1 ∷ 2 ∷ []) (omega arith))) (
          client_round (comes (initial (9 ∷ []))) (1 ∷ 2 ∷ []) [] cleared (1 ∷ 2 ∷ []) (9 ∷ []) refl
            up_round))
        (server_arrival (goes_up (comes (initial (9 ∷ [])))) (3 ∷ []) (omega arith)))
      (server_round (answers (goes_up (comes (initial (9 ∷ []))))) (3 ∷ []) [] cleared (3 ∷ []) refl
        down_round)

Reach-deterministic_example :
    (carried : List (List ℕ)) × (carried ++ [] ≡ (1 ∷ 2 ∷ []) ∷ [])
    × (fresh_run draw (9 ∷ []) carried ≡ some (9 ∷ [], map some ((1 ∷ 2 ∷ []) ∷ [])))
    × Pairwise IsFuzzed carried ((1 ∷ 2 ∷ []) ∷ [])
    × ◌≡◌ {A = List (List ℕ)} ((3 ∷ []) ∷ []) ((3 ∷ []) ∷ [])
Reach-deterministic_example =
    Reach-deterministic draw (9 ∷ []) client_first Reach-client_first (omega arith)

-- A frame that was never sent does not come out of the link.
invented : ¬ LinkReach empty (record empty { at_client = (3 ∷ []) ∷ [] })
invented reach =
    let made : ◌≡◌ {A = List (List ℕ)} ((3 ∷ []) ∷ []) [] = (LinkReach-IsOrderly reach).to_client in
    absurd (cc)
