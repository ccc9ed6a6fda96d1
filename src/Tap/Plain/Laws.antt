-- ===== src/Tap/Plain/Laws.antt =====
-- The tunnel without fuzzing carries every frame unchanged in both directions.
use fuzzing_rdma.Base.{
  Option-cases, ℕ, zero, suc, ◌≡◌, refl, sym, ap, ◌∙◌, inl, inr, none, some, some_inj, Option, List,
  [], ◌∷◌, map, length, fill, overwrite, length-zeros, ℤ, pos, negsuc, arith, size_t,
  length-overwrite, length-fill,
}
use fuzzing_rdma.Fuzz.Classify.Laws.{check_buffer_type_total}
use fuzzing_rdma.Fuzz.Tunnel.{
  Read, error, frame, max_eth_len, cleared, read, write, server_step, server_run,
}
use fuzzing_rdma.Fuzz.Tunnel.Server.{AllFit, server_run_transparent}
use fuzzing_rdma.Fuzz.Startup.Laws.{start_of_names}
use fuzzing_rdma.Fuzz.Startup.{Kernel, Exit, goes_on, open_devices}
use fuzzing_rdma.Fuzz.Main.Laws.{ExitsOr, carry-ExitsOr}
use fuzzing_rdma.Tap.Plain.{client_step, client_run, channel, main, client_tap, server_tap}

length-read :
    (buffer b : List ℕ) (n : ℤ) (rd : Read)
    → read buffer rd ≡ some (b, n)
    → length b ≡ length buffer
unfolding read
length-read buffer b n error e = ap (λ t. length t.0) (sym (some_inj e))
length-read buffer b n (frame xs) e = elim (Option-cases (overwrite buffer xs)) [
  | inl f ↦ absurd (cc)
  | inr (c, f) ↦
      let g : read buffer (frame xs) ≡ some (c, pos (length xs)) = rw f refl in
      ap (λ t. length t.0) (some_inj (sym e ∙ g)) ∙ length-overwrite buffer xs c f
]

client_step-eq-server_step :
    (buffer : List ℕ) (rd : Read)
    → length buffer ≡ max_eth_len
    → client_step buffer rd ≡ server_step buffer rd
unfolding client_step server_step
client_step-eq-server_step buffer rd h = elim (Option-cases (read buffer rd)) [
  | inl e ↦ rw e refl
  | inr ((b, n), e) ↦
      let (t, f) = check_buffer_type_total b n (omega (arith, length-read buffer b n rd e)) in
      rw (e, f) refl
]

length-server_step :
    (buffer buffer' : List ℕ) (out : Option (List ℕ)) (rd : Read)
    → server_step buffer rd ≡ some (buffer', out)
    → length buffer' ≡ length buffer
unfolding server_step
length-server_step buffer buffer' out rd e = elim (Option-cases (read buffer rd)) [
  | inl f ↦ absurd (cc)
  | inr ((b, n), f) ↦ elim (Option-cases (fill b (size_t n) 0)) [
    | inl g ↦ let k : server_step buffer rd ≡ none = rw (f, g) refl in absurd (cc)
    | inr (c, g) ↦
        let k : server_step buffer rd ≡ some (c, write b n) = rw (f, g) refl in
        ap (λ t. length t.0) (some_inj (sym e ∙ k))
        ∙ length-fill b (size_t n) 0 c g
        ∙ length-read buffer b n rd f
  ]
]

-- On a buffer of its size, the channel of the client does what that of the server does, for every
-- list of results of `read`, errors and frames that are too long among them.
pub client_run-eq-server_run :
    (buffer : List ℕ) (rds : List Read)
    → length buffer ≡ max_eth_len
    → client_run buffer rds ≡ server_run buffer rds
unfolding client_run server_run
client_run-eq-server_run buffer [] h = refl
client_run-eq-server_run buffer (rd ∷ rds) h = elim (Option-cases (server_step buffer rd)) [
  | inl e ↦ rw (client_step-eq-server_step buffer rd h, e) refl
  | inr ((b, out), e) ↦
      rw
        (
          client_step-eq-server_step buffer rd h,
          e,
          client_run-eq-server_run b rds (length-server_step buffer b out rd e ∙ h),
        )
        refl
]

-- Status 1, or a channel that writes every frame as it was read.
abbrev Carries : List (List ℕ) → Exit (Option (List ℕ × List (Option (List ℕ)))) → Type 0
Carries xs = ExitsOr (λ o. o ≡ some (cleared, map some xs))

channel_lem :
    (pid : ℤ) (xs : List (List ℕ))
    → AllFit xs
    → channel pid (map frame xs) ≡ some (cleared, map some xs)
unfolding channel
channel_lem (pos zero) xs h =
    client_run-eq-server_run cleared (map frame xs) (length-zeros max_eth_len)
    ∙ server_run_transparent xs h
channel_lem (pos (suc n)) xs h = server_run_transparent xs h
channel_lem (negsuc n) xs h = server_run_transparent xs h

-- Whatever the kernel answers and `fork` returns, the program exits with status 1, or the process
-- writes every frame that fits as it was read, and leaves its buffer clear.
main-Carries :
    (iff_tap : ℕ) (k k' : Kernel) (pid : ℤ) (xs : List (List ℕ))
    → AllFit xs
    → Carries xs (main iff_tap k k' pid (map frame xs))
unfolding main
main-Carries iff_tap k k' pid xs h =
    let opened = open_devices iff_tap k k' (goes_on (client_tap, server_tap)) in
    carry-ExitsOr (λ o. o ≡ some (cleared, map some xs)) opened (channel pid (map frame xs))
      (start_of_names iff_tap k k' (goes_on (client_tap, server_tap)) (omega arith))
      (channel_lem pid xs h)
