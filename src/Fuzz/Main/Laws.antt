-- ===== src/Fuzz/Main/Laws.antt =====
-- What a whole run of one of the two processes hands to `write`.
use fuzzing_rdma.Base.{
  Pairwise, ℕ, zero, suc, ◌≡◌, refl, Option, some, List, [], ◌∷◌, map, length, length-zeros, ℤ, pos,
  negsuc,
}
use fuzzing_rdma.Fuzz.Startup.{Kernel, Opt, Exit, goes_on, exits, start}
use fuzzing_rdma.Fuzz.Startup.Laws.{Opened, start-Opened}
use fuzzing_rdma.Fuzz.Tunnel.{max_eth_len, cleared, frame, client_run}
use fuzzing_rdma.Fuzz.Tunnel.Server.{AllFit, server_run_transparent}
use fuzzing_rdma.Fuzz.Tunnel.Client.{IsFuzzed, client_step_forwards}
use fuzzing_rdma.Fuzz.Main.{carry, channel, main}

-- Status 1, or a run that goes on with what satisfies a predicate.
abbrev pub ExitsOr : {A : Type 0} → (A → Type 0) → Exit A → Type 0
ExitsOr Good (exits code) = code ≡ 1
ExitsOr Good (goes_on a) = Good a

-- What holds of the channel behind a start holds of the run.
pub carry-ExitsOr :
    {A : Type 0} (Good : A → Type 0) (e : Exit (ℤ × ℤ)) (o : A)
    → Opened e
    → Good o
    → ExitsOr Good (carry e o)
unfolding carry
carry-ExitsOr Good (exits code) o h k = h
carry-ExitsOr Good (goes_on fds) o h k = k

-- If `fork` returns 0, every frame is forwarded, each in the relation `P` to what was read; if it
-- returns anything else, every frame is forwarded as it is.
abbrev pub Forwarded :
    (List ℕ → List ℕ → Type 0) → ℤ → List (List ℕ) → Option (List (Option (List ℕ))) → Type 0
Forwarded P (pos zero) xs o =
    (outs : List (List ℕ)) × (o ≡ some (map some outs)) × Pairwise P xs outs
Forwarded P (pos (suc n)) xs o = o ≡ some (map some xs)
Forwarded P (negsuc n) xs o = o ≡ some (map some xs)

abbrev pub Forwards :
    (List ℕ → List ℕ → Type 0) → ℤ → List (List ℕ) → Exit (Option (List (Option (List ℕ)))) → Type 0
Forwards P pid xs = ExitsOr (Forwarded P pid xs)

module _ {R : Type 0} (rand : R → ℕ × R) where
  client_run_forwards :
      (buffer : List ℕ) (r : R) (xs : List (List ℕ))
      → length buffer ≡ max_eth_len
      → AllFit xs
      → (buffer' : List ℕ) × (r' : R) × (outs : List (List ℕ)) × (client_run rand buffer r
            (map frame xs)
          ≡ some (buffer', r', map some outs))
        × Pairwise IsFuzzed xs outs
  unfolding client_run
  client_run_forwards buffer r [] hb h = (buffer, r, [], refl, tt)
  client_run_forwards buffer r (x ∷ xs) hb h =
      let (b, out, r', e, l, m) = client_step_forwards rand buffer x r hb h.0 in
      let (b', r'', outs, f, ms) = client_run_forwards b r' xs l h.1 in
      (b', r'', out ∷ outs, rw (e, f) refl, (m, ms))

  channel_lem :
      (pid : ℤ) (r : R) (xs : List (List ℕ))
      → AllFit xs
      → Forwarded IsFuzzed pid xs (channel rand pid r (map frame xs))
  unfolding channel
  channel_lem (pos zero) r xs h =
      let (b, r', outs, e, m) = client_run_forwards cleared r xs (length-zeros max_eth_len) h in
      (outs, rw e refl, m)
  channel_lem (pos (suc n)) r xs h = rw (server_run_transparent xs h) refl
  channel_lem (negsuc n) r xs h = rw (server_run_transparent xs h) refl

  -- Whatever the options, the answers of the kernel, the result of `fork` and the random numbers,
  -- the fuzzer exits with status 1, or the process forwards every frame that fits, in order and
  -- with no access out of bounds: the child with changes in the InfiniBand headers only, outside
  -- the destination queue pair and the transport version, and any other process as it was read.
  pub main-Forwards :
      (iff_tap : ℕ) (k k' : Kernel) (opts : List Opt) (pid : ℤ) (r : R) (xs : List (List ℕ))
      → AllFit xs
      → Forwards IsFuzzed pid xs (main rand iff_tap k k' opts pid r (map frame xs))
  unfolding main
  main-Forwards iff_tap k k' opts pid r xs h =
      carry-ExitsOr (Forwarded IsFuzzed pid xs) (start iff_tap k k' opts)
        (channel rand pid r (map frame xs)) (start-Opened iff_tap k k' opts)
        (channel_lem pid r xs h)
