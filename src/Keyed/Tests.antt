-- ===== src/Keyed/Tests.antt =====
-- Runs of the key based programs at hand.
use fuzzing_rdma.Base.{ℕ, ◌≡◌, refl, some, Option, List, [], ◌∷◌, map, length, replicate, arith}
use fuzzing_rdma.Qp.Transitions.Laws.{transitions}
use fuzzing_rdma.Qp.Setup.{waiting, returned}
use fuzzing_rdma.Qp.Live.{succeeding}
use fuzzing_rdma.Qp.Client.Laws.{posted_at_once}
use fuzzing_rdma.Qp.Server.Laws.{arrival}
use fuzzing_rdma.Qp.Devices.{d}
use fuzzing_rdma.Keyed.Improved.{run_client, run_server}
use fuzzing_rdma.Keyed.Improved.Laws.{conversation_lem}
use fuzzing_rdma.Keyed.Typed.{Program, improved_server}
use fuzzing_rdma.Keyed.Storage.{main}
use fuzzing_rdma.Keyed.Storage.Client as Client
use fuzzing_rdma.Keyed.Storage.Client.{hello}
use fuzzing_rdma.Keyed.Storage.Server as Server
use fuzzing_rdma.Keyed.Storage.Laws as Storage
use fuzzing_rdma.Keyed.Storage.Laws.{hello_lem}

abbrev words : List (List ℕ)
words = (b'h' ∷ b'i' ∷ []) ∷ (b'o' ∷ []) ∷ []

-- the arguments for the device "ab", the second of two
abbrev argv : List (List ℕ)
argv = [] ∷ (b'a' ∷ b'b' ∷ []) ∷ []

abbrev device_list : Option (List (List ℕ))
device_list = some ((b'a' ∷ []) ∷ (b'a' ∷ b'b' ∷ []) ∷ [])

-- The server of key_based_improved, which prints the words that arrive.
abbrev printing : Program
printing =
    improved_server argv (d (b'a' ∷ b'b' ∷ []) ∷ []) device_list
      (λ i. succeeding (replicate 16 i) i) 17 3 (replicate 256 1) (map (arrival 2) words)

conversation_lem_example :
    (posted : List (List ℕ)) × (run_client
        (succeeding (replicate 16 7) 17)
        18
        3
        (replicate 256 1)
        (map posted_at_once words)
      ≡ record { modified = transitions (replicate 16 7) 18 3; messages = posted; ended = waiting })
    × (run_server (succeeding (replicate 16 9) 18) 17 4 (replicate 256 2) (map (arrival 5) posted)
        ≡ record {
          modified = transitions (replicate 16 9) 17 4;
          messages = words;
          ended = waiting;
        })
conversation_lem_example =
    conversation_lem (replicate 16 7) (replicate 16 9) 17 18 18 17 3 4 5 (replicate 256 1)
      (replicate 256 2) words refl refl (omega arith)

hello_lem_example :
    (message : List ℕ) × (length message ≡ 256)
    × (main
          (some (succeeding (replicate 16 7) 17 ∷ []))
          (λ v. Client.run_server v 18 3 0 (replicate 256 1))
        ≡ record {
          modified = Storage.transitions (replicate 16 7) 18 3;
          messages = message ∷ [];
          ended = returned;
        })
    × (main
          (some (succeeding (replicate 16 9) 18 ∷ []))
          (λ v. Server.run_server v 17 4 (arrival 5 message) 0 (replicate 256 2))
        ≡ record {
          modified = Storage.transitions (replicate 16 9) 17 4;
          messages = hello ∷ [];
          ended = returned;
        })
hello_lem_example =
    hello_lem (replicate 16 7) (replicate 16 9) 17 18 18 17 3 4 5 (replicate 256 1)
      (replicate 256 2) refl refl
