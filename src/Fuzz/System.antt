-- ===== src/Fuzz/System.antt =====
-- The two processes of programs/proxy-fuzzer/proxy-f.c behind `fork`, which run at once: each has
-- its own buffer, and reads the frames that wait at its device. A round of either may come next,
-- and so may a new frame at either device.
pub mod Laws
pub mod Rounds
pub mod Link
pub mod Drain
pub mod Runs
pub mod Deterministic
mod Tests
use fuzzing_rdma.Base.{ℕ, ◌≤◌, ◌≡◌, some, List, [], ◌∷◌, ◌++◌, length}
use fuzzing_rdma.Fuzz.Tunnel.{max_eth_len, cleared, frame, server_step, client_step}

-- The buffers and the random numbers; the frames that wait at the two devices; the frames written
-- so far; and, for the specification, all frames that have come to each device.
pub record State (R : Type 0) : Type 0 where
  pub buffer_client : List ℕ
  pub buffer_server : List ℕ
  pub random : R
  pub from_client : List (List ℕ)
  pub from_server : List (List ℕ)
  pub to_client : List (List ℕ)
  pub to_server : List (List ℕ)
  pub client_sent : List (List ℕ)
  pub server_sent : List (List ℕ)

-- Both buffers are cleared in front of `fork`.
abbrev pub initial : {R : Type 0} → R → State R
initial r = record {
  buffer_client = cleared;
  buffer_server = cleared;
  random = r;
  from_client = [];
  from_server = [];
  to_client = [];
  to_server = [];
  client_sent = [];
  server_sent = [];
}

module _ {R : Type 0} (rand : R → ℕ × R) where
  -- A frame comes to a device, cut by the kernel to the size of the buffer; or one of the two
  -- processes goes through a round of its loop.
  pub data Step : State R → State R → Type 0 where
    client_arrival :
        (s : State R) (xs : List ℕ)
        → length xs ≤ max_eth_len
        → Step s (record s {
          from_client = s.from_client ++ (xs ∷ []);
          client_sent = s.client_sent ++ (xs ∷ []);
        })
    server_arrival :
        (s : State R) (xs : List ℕ)
        → length xs ≤ max_eth_len
        → Step s (record s {
          from_server = s.from_server ++ (xs ∷ []);
          server_sent = s.server_sent ++ (xs ∷ []);
        })
    client_round :
        (s : State R) (xs : List ℕ) (rest : List (List ℕ)) (buffer out : List ℕ) (r : R)
        → s.from_client ≡ xs ∷ rest
        → client_step rand s.buffer_client s.random (frame xs) ≡ some (buffer, r, some out)
        → Step s (record s {
          from_client = rest;
          buffer_client = buffer;
          random = r;
          to_server = s.to_server ++ (out ∷ []);
        })
    server_round :
        (s : State R) (xs : List ℕ) (rest : List (List ℕ)) (buffer out : List ℕ)
        → s.from_server ≡ xs ∷ rest
        → server_step s.buffer_server (frame xs) ≡ some (buffer, some out)
        → Step s (record s {
          from_server = rest;
          buffer_server = buffer;
          to_client = s.to_client ++ (out ∷ []);
        })

  -- The states that the two processes come to, one step after the other.
  pub data Reach (s : State R) : State R → Type 0 where
    start : Reach s s
    after : {t u : State R} → Reach s t → Step t u → Reach s u
