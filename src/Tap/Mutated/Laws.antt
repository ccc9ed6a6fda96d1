-- ===== src/Tap/Mutated/Laws.antt =====
-- What the tunnel with the first fuzzer makes of the frames of the client and of the server.
use fuzzing_rdma.Base.{
  Pairwise, ℕ, zero, suc, ◌≤◌, ◌≡◌, refl, sym, ◌∙◌, some, List, [], ◌∷◌, ◌++◌, map, length, take,
  drop, zeros, get_elem?_of_ge, get_elem?-append, get_elem?-take_lt, length-take,
  length-append-drop, length-zeros-drop, length-zeros, clear_lem, ℤ, pos, negsuc, arith,
}
use native.Mathlib.Decide.{dec_lt}
use fuzzing_rdma.Fuzz.Bth.Mutation.{done, length-Mutation}
use fuzzing_rdma.Fuzz.Classify.{BufferType, ip_pkt, udp_seg, ib_traffic, other}
use fuzzing_rdma.Fuzz.Classify.Laws.{check_buffer_type_total}
use fuzzing_rdma.Fuzz.Tunnel.{max_eth_len, cleared, frame}
use fuzzing_rdma.Fuzz.Tunnel.Server.{AllFit, read_frame, write_lem, server_run_transparent}
use fuzzing_rdma.Fuzz.Tunnel.Client.{loaded, IsFuzzed, IsFuzzed-of_Mutation}
use fuzzing_rdma.Fuzz.Startup.{Kernel, goes_on, open_devices}
use fuzzing_rdma.Fuzz.Startup.Laws.{start_of_names}
use fuzzing_rdma.Fuzz.Main.Laws.{Forwarded, Forwards, carry-ExitsOr}
use fuzzing_rdma.Tap.Plain.{client_tap, server_tap}
use fuzzing_rdma.Tap.Mutated.{fuzz_buffer, client_step, client_run, channel, main}
use fuzzing_rdma.Tap.Mutated.Narrow.{SamePayload, Returns, fuzz_ib_bth_total}

-- A frame fuzzed in the twelve bytes of its InfiniBand header only.
abbrev pub IsMutated : List ℕ → List ℕ → Type 0
IsMutated xs out = IsFuzzed xs out × SamePayload 46 xs out

SamePayload-take :
    (buffer xs q : List ℕ)
    → length q ≡ max_eth_len
    → length xs ≤ max_eth_len
    → SamePayload 46 (loaded buffer xs) q
    → SamePayload 46 xs (take (length xs) q)
SamePayload-take buffer xs q hq hx s j k = elim (dec_lt j (length xs)) [
  | yes h ↦
      get_elem?-take_lt (length xs) q j h
      ∙ s j k
      ∙ get_elem?-append xs (drop (length xs) buffer) j h
  | no h ↦
      get_elem?_of_ge (take (length xs) q) j
        (rw (length-take (length xs) q (omega arith)) (omega arith))
      ∙ sym (get_elem?_of_ge xs j (omega arith))
]

module _ {R : Type 0} (rand : R → ℕ × R) where
  fuzz_buffer_total :
      (t : BufferType) (p : List ℕ) (r : R)
      → length p ≡ max_eth_len
      → Returns rand 46 p (fuzz_buffer rand t p r)
  unfolding fuzz_buffer
  fuzz_buffer_total ib_traffic p r h = fuzz_ib_bth_total rand 1 46 p 12 r (omega arith)
  fuzz_buffer_total ip_pkt p r h = (p, r, refl, done, λ j k. refl)
  fuzz_buffer_total udp_seg p r h = (p, r, refl, done, λ j k. refl)
  fuzz_buffer_total other p r h = (p, r, refl, done, λ j k. refl)

  client_step_lem :
      (buffer xs : List ℕ) (r : R)
      → length buffer ≡ max_eth_len
      → length xs ≤ max_eth_len
      → (buffer' : List ℕ) × (out : List ℕ) × (r' : R) × (client_step rand buffer r (frame xs)
          ≡ some (buffer', r', some out))
        × (length buffer' ≡ max_eth_len)
        × IsMutated xs out
  unfolding client_step
  client_step_lem buffer xs r hb hx =
      let p_length : length (loaded buffer xs) ≡ max_eth_len =
        length-append-drop xs buffer (rw hb hx) ∙ hb in
      let (t, e) =
        check_buffer_type_total (loaded buffer xs) (pos (length xs)) (rw p_length (omega arith)) in
      let (q, r', f, m, s) = fuzz_buffer_total t (loaded buffer xs) r p_length in
      let q_length : length q ≡ max_eth_len = length-Mutation m ∙ p_length in
      let room : length xs ≤ length q = rw q_length hx in
      (
        zeros (length xs) ++ drop (length xs) q,
        take (length xs) q,
        r',
        rw
            (
              read_frame buffer xs (rw hb hx),
              e,
              f,
              write_lem q (length xs) room,
              clear_lem q (length xs) room,
            )
            refl,
        length-zeros-drop (length xs) q room ∙ q_length,
        (IsFuzzed-of_Mutation buffer xs q hb hx m, SamePayload-take buffer xs q q_length hx s),
      )

  -- Every frame that fits is forwarded with no access out of bounds, fuzzed in its header only.
  client_run_lem :
      (buffer : List ℕ) (r : R) (xs : List (List ℕ))
      → length buffer ≡ max_eth_len
      → AllFit xs
      → (buffer' : List ℕ) × (r' : R) × (outs : List (List ℕ)) × (client_run rand buffer r
            (map frame xs)
          ≡ some (buffer', r', map some outs))
        × Pairwise IsMutated xs outs
  unfolding client_run
  client_run_lem buffer r [] hb h = (buffer, r, [], refl, tt)
  client_run_lem buffer r (x ∷ xs) hb h =
      let (b, out, r', e, l, m) = client_step_lem buffer x r hb h.0 in
      let (b', r'', outs, f, ms) = client_run_lem b r' xs l h.1 in
      (b', r'', out ∷ outs, rw (e, f) refl, (m, ms))

  channel_lem :
      (pid : ℤ) (r : R) (xs : List (List ℕ))
      → AllFit xs
      → Forwarded IsMutated pid xs (channel rand pid r (map frame xs))
  unfolding channel
  channel_lem (pos zero) r xs h =
      let (b, r', outs, e, m) = client_run_lem cleared r xs (length-zeros max_eth_len) h in
      (outs, rw e refl, m)
  channel_lem (pos (suc n)) r xs h = rw (server_run_transparent xs h) refl
  channel_lem (negsuc n) r xs h = rw (server_run_transparent xs h) refl

  -- Whatever the kernel answers, `fork` returns and the random numbers are, the program exits with
  -- status 1, or the process forwards every frame that fits: the child with changes in the twelve
  -- bytes of the InfiniBand header only, outside the destination queue pair and the transport
  -- version, and any other process as it was read.
  pub main_first-Forwards :
      (iff_tap : ℕ) (k k' : Kernel) (pid : ℤ) (r : R) (xs : List (List ℕ))
      → AllFit xs
      → Forwards IsMutated pid xs (main rand iff_tap k k' pid r (map frame xs))
  unfolding main
  main_first-Forwards iff_tap k k' pid r xs h =
      let opened = open_devices iff_tap k k' (goes_on (client_tap, server_tap)) in
      carry-ExitsOr (Forwarded IsMutated pid xs) opened (channel rand pid r (map frame xs))
        (start_of_names iff_tap k k' (goes_on (client_tap, server_tap)) (omega arith))
        (channel_lem pid r xs h)
