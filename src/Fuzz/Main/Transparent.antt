-- ===== src/Fuzz/Main/Transparent.antt =====
-- The fuzzer on traffic that is no RoCE traffic.
use fuzzing_rdma.Base.{
  ℕ, zero, suc, ◌≡◌, refl, Option, some, List, [], ◌∷◌, map, length-zeros, IsBytes-zeros, ℤ, pos,
  negsuc,
}
use fuzzing_rdma.Fuzz.Startup.{Kernel, Opt, Exit, start}
use fuzzing_rdma.Fuzz.Startup.Laws.{start-Opened}
use fuzzing_rdma.Fuzz.Tunnel.{max_eth_len, cleared, frame}
use fuzzing_rdma.Fuzz.Tunnel.Server.{AllFit, server_run_transparent}
use fuzzing_rdma.Fuzz.Tunnel.Transparent.{NoneFuzzable, client_run_transparent}
use fuzzing_rdma.Fuzz.Main.{channel, main}
use fuzzing_rdma.Fuzz.Main.Laws.{ExitsOr, carry-ExitsOr}

AllFit-of_NoneFuzzable : (xs : List (List ℕ)) → NoneFuzzable xs → AllFit xs
AllFit-of_NoneFuzzable [] h = tt
AllFit-of_NoneFuzzable (x ∷ xs) (hx, bx, nx, h) = (hx, AllFit-of_NoneFuzzable xs h)

-- Status 1, or a channel that writes every frame as it was read.
abbrev pub Passes : List (List ℕ) → Exit (Option (List (Option (List ℕ)))) → Type 0
Passes xs = ExitsOr (λ o. o ≡ some (map some xs))

module _ {R : Type 0} (rand : R → ℕ × R) where
  channel_transparent :
      (pid : ℤ) (r : R) (xs : List (List ℕ))
      → NoneFuzzable xs
      → channel rand pid r (map frame xs) ≡ some (map some xs)
  unfolding channel
  channel_transparent (pos zero) r xs h =
      let (d, e) =
        client_run_transparent rand cleared r xs (length-zeros max_eth_len)
          (IsBytes-zeros max_eth_len) h in
      rw e refl
  channel_transparent (pos (suc n)) r xs h =
      rw (server_run_transparent xs (AllFit-of_NoneFuzzable xs h)) refl
  channel_transparent (negsuc n) r xs h =
      rw (server_run_transparent xs (AllFit-of_NoneFuzzable xs h)) refl

  -- Whatever the options, the answers of the kernel, the result of `fork` and the random numbers:
  -- on frames of bytes that fit the buffer, none of them a RoCE frame of 46 bytes or more, the
  -- fuzzer exits with status 1, or the process writes every frame as it was read.
  pub main-Passes :
      (iff_tap : ℕ) (k k' : Kernel) (opts : List Opt) (pid : ℤ) (r : R) (xs : List (List ℕ))
      → NoneFuzzable xs
      → Passes xs (main rand iff_tap k k' opts pid r (map frame xs))
  unfolding main
  main-Passes iff_tap k k' opts pid r xs h =
      carry-ExitsOr (λ o. o ≡ some (map some xs)) (start iff_tap k k' opts)
        (channel rand pid r (map frame xs)) (start-Opened iff_tap k k' opts)
        (channel_transparent pid r xs h)
