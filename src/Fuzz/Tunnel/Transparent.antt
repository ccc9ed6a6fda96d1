-- ===== src/Fuzz/Tunnel/Transparent.antt =====
-- Traffic that is no RoCE traffic passes the client's channel unchanged.
use fuzzing_rdma.Base.{
  IsBytes-zeros, get_elem?-append, IsBytes-drop, IsBytes-append, IsBytes, map, length-zeros-drop,
  clear_lem, arith, take-append, length-append-drop, pos, ℕ, ◌≤◌, ◌≡◌, ◌≢◌, refl, ap, ◌∙◌, some,
  List, [], ◌∷◌, ◌++◌, length, drop, zeros,
}
use fuzzing_rdma.Fuzz.Classify.{BufferType, ip_pkt, udp_seg, ib_traffic, other, check_buffer_type}
use fuzzing_rdma.Fuzz.Classify.Laws.{
  IsRoce-agree, check_buffer_type_iff, IsRoce, check_buffer_type_total,
}
use fuzzing_rdma.Fuzz.Tunnel.{max_eth_len, frame, fuzz_buffer, client_step, client_run}
use fuzzing_rdma.Fuzz.Tunnel.Server.{read_frame, write_lem}
use fuzzing_rdma.Fuzz.Tunnel.Client.{loaded}

-- A frame that is long enough for the headers of a RoCE frame, and has them.
abbrev pub IsFuzzable : List ℕ → Type 0
IsFuzzable xs = (46 ≤ length xs) × IsRoce xs

-- Frames of bytes that fit the buffer, none of which is to be fuzzed.
abbrev pub NoneFuzzable : List (List ℕ) → Type 0
NoneFuzzable [] = Unit {0}
NoneFuzzable (x ∷ xs) = (length x ≤ max_eth_len) × IsBytes x × (¬ IsFuzzable x) × NoneFuzzable xs

module _ {R : Type 0} (rand : R → ℕ × R) where
  fuzz_buffer_idle :
      (t : BufferType) (p : List ℕ) (r : R) → t ≢ ib_traffic → fuzz_buffer rand t p r ≡ some (p, r)
  unfolding fuzz_buffer
  fuzz_buffer_idle ib_traffic p r h = absurd (h refl)
  fuzz_buffer_idle ip_pkt p r h = refl
  fuzz_buffer_idle udp_seg p r h = refl
  fuzz_buffer_idle other p r h = refl

  client_step_transparent :
      (buffer xs : List ℕ) (r : R)
      → length buffer ≡ max_eth_len
      → IsBytes buffer
      → length xs ≤ max_eth_len
      → IsBytes xs
      → ¬ IsFuzzable xs
      → (d : List ℕ) × (client_step rand buffer r (frame xs) ≡ some (d, r, some xs))
        × (length d ≡ max_eth_len)
        × IsBytes d
  unfolding client_step
  client_step_transparent buffer xs r hb bb hx bx nr =
      let (t, e) = check_buffer_type_total p (pos n) (rw p_length (omega arith)) in
      (
        zeros n ++ drop n p,
        rw
            (
              read_frame buffer xs (rw hb hx),
              e,
              fuzz_buffer_idle t p r (λ k. not_roce (e ∙ ap some k)),
              write_lem p n room,
              clear_lem p n room,
              take-append xs (drop n buffer),
            )
            refl,
        length-zeros-drop n p room ∙ p_length,
        IsBytes-append (zeros n) (drop n p) (IsBytes-zeros n) (IsBytes-drop n p bp),
      )
    where
      n : ℕ
      n = length xs

      p : List ℕ
      p = loaded buffer xs

      p_length : length p ≡ max_eth_len
      p_length = length-append-drop xs buffer (rw hb hx) ∙ hb

      room : n ≤ length p
      room = rw p_length hx

      bp : IsBytes p
      bp = IsBytes-append xs (drop n buffer) bx (IsBytes-drop n buffer bb)

      not_roce : check_buffer_type p (pos n) ≡ some ib_traffic → ⊥
      not_roce k =
          let (long, roce) = (check_buffer_type_iff p n bp (rw p_length (omega arith))).0 k in
          nr (
            long,
            IsRoce-agree p xs (λ i h. get_elem?-append xs (drop n buffer) i (omega arith)) roce,
          )

  -- Such frames are forwarded as they are, and take no random number.
  pub client_run_transparent :
      (buffer : List ℕ) (r : R) (xs : List (List ℕ))
      → length buffer ≡ max_eth_len
      → IsBytes buffer
      → NoneFuzzable xs
      → (d : List ℕ) × (client_run rand buffer r (map frame xs) ≡ some (d, r, map some xs))
  unfolding client_run
  client_run_transparent buffer r [] hb bb h = (buffer, refl)
  client_run_transparent buffer r (x ∷ xs) hb bb (hx, bx, nx, h) =
      let (d, e, l, b) = client_step_transparent buffer x r hb bb hx bx nx in
      let (d', f) = client_run_transparent d r xs l b h in (d', rw (e, f) refl)
