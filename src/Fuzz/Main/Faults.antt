-- ===== src/Fuzz/Main/Faults.antt =====
-- When a process of the fuzzer writes out of the bounds of its buffer.
use fuzzing_rdma.Base.{
  ℕ, zero, suc, ◌≡◌, ◌↔◌, inl, inr, refl, Option, none, some, List, ◌>>=◌, ℤ, pos, negsuc,
}
use fuzzing_rdma.Fuzz.Startup.{Kernel, Opt, Exit, goes_on, exits, start}
use fuzzing_rdma.Fuzz.Tunnel.{Read}
use fuzzing_rdma.Fuzz.Tunnel.Faults.{
  AllReadsFit, HasError, FaultsIf, iff_of_FaultsIf, server_run-FaultsIf, client_channel-FaultsIf,
}
use fuzzing_rdma.Fuzz.Main.{carry, channel, main}

FaultsIf-bind :
    {A B : Type 0} {P : Type 0} {o : Option A} (f : A → B)
    → FaultsIf P o
    → FaultsIf P (o >>= λ a. some (f a))
FaultsIf-bind f (inl (p, e)) = inl (p, rw e refl)
FaultsIf-bind f (inr (n, a, e)) = inr (n, f a, rw e refl)

goes_on_iff :
    {A : Type 0} (e : Exit (ℤ × ℤ)) (o : Option A)
    → (carry e o ≡ goes_on none) ↔ (((fds : ℤ × ℤ) × (e ≡ goes_on fds)) × (o ≡ none))
unfolding carry
goes_on_iff (exits code) o = (λ h. absurd (cc), λ ((fds, h), k). absurd (cc))
goes_on_iff (goes_on fds) o = (λ h. ((fds, refl), cc), λ (h, k). rw k refl)

module _ {R : Type 0} (rand : R → ℕ × R) where
  channel-FaultsIf :
      (pid : ℤ) (r : R) (rds : List Read)
      → AllReadsFit rds
      → FaultsIf (HasError rds) (channel rand pid r rds)
  unfolding channel
  channel-FaultsIf (pos zero) r rds h =
      FaultsIf-bind (λ (buffer, r', outs). outs) (client_channel-FaultsIf rand r rds h)
  channel-FaultsIf (pos (suc n)) r rds h =
      FaultsIf-bind (λ (buffer, outs). outs) (server_run-FaultsIf rds h)
  channel-FaultsIf (negsuc n) r rds h =
      FaultsIf-bind (λ (buffer, outs). outs) (server_run-FaultsIf rds h)

  -- For frames that fit the buffer, and whatever the options, the answers of the kernel, the result
  -- of `fork` and the random numbers: the process writes out of the bounds of its buffer exactly if
  -- the start goes through and one of the reads fails.
  pub main_faults_iff :
      (iff_tap : ℕ) (k k' : Kernel) (opts : List Opt) (pid : ℤ) (r : R) (rds : List Read)
      → AllReadsFit rds
      → (main rand iff_tap k k' opts pid r rds ≡ goes_on none)
        ↔ (((fds : ℤ × ℤ) × (start iff_tap k k' opts ≡ goes_on fds)) × HasError rds)
  unfolding main
  main_faults_iff iff_tap k k' opts pid r rds h =
      let (to, from) = goes_on_iff (start iff_tap k k' opts) (channel rand pid r rds) in
      let (to', from') = iff_of_FaultsIf (channel-FaultsIf pid r rds h) in
      (λ e. let (a, b) = to e in (a, to' b), λ (a, b). from (a, from' b))
