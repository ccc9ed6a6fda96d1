-- ===== src/Tap/Mutated/Versions.antt =====
-- The first fuzzer against that of proxy-f.c: where the mutated opcode announces no extension
-- header, both do the same.
use fuzzing_rdma.Base.{
  ap, length-take, ℕ, ◌%◌, ◌≤◌, ◌<◌, ◌≡◌, ◌≢◌, refl, sym, ◌∙◌, Option, none, some, some_inj, List,
  [], ◌∷◌, ◌++◌, map, length, take, drop, zeros, get_elem?-take_lt, length-append-drop,
  length-zeros-drop, clear_lem, pos, arith,
}
use native.Mathlib.Decide.{dec_lt}
use fuzzing_rdma.Fuzz.Bth.{header_offset, fuzz_field, has_atomic_eth, has_rdma_eth, fuzz_extension}
use fuzzing_rdma.Fuzz.Bth as Bth
use fuzzing_rdma.Fuzz.Bth.Reached.{AnnouncesNone, fuzz_extension_none}
use fuzzing_rdma.Fuzz.Bth.Total.{fuzz_field_total}
use fuzzing_rdma.Fuzz.Bth.Mutation.{after, done, length-Mutation}
use fuzzing_rdma.Fuzz.Classify.{check_buffer_type, BufferType, ip_pkt, udp_seg, ib_traffic, other}
use fuzzing_rdma.Fuzz.Classify.Laws.{check_buffer_type_total, check_buffer_type_short}
use fuzzing_rdma.Fuzz.Tunnel.{max_eth_len, frame}
use fuzzing_rdma.Fuzz.Tunnel as Tunnel
use fuzzing_rdma.Fuzz.Tunnel.Server.{AllFit, read_frame, write_lem}
use fuzzing_rdma.Fuzz.Tunnel.Client.{loaded}
use fuzzing_rdma.Tap.Mutated.{fuzz_round, fuzz_ib_bth, fuzz_buffer, client_step, client_run}

-- A frame that holds its opcode, if it holds the headers in front of it, and whose opcode
-- announces no extension header.
abbrev pub IsPlain : Option (List ℕ) → Type 0
IsPlain none = Unit {0}
IsPlain (some out) = (length out ≢ 46) × AnnouncesNone out

abbrev pub AllPlain : List (Option (List ℕ)) → Type 0
AllPlain [] = Unit {0}
AllPlain (out ∷ outs) = IsPlain out × AllPlain outs

module _ {R : Type 0} (rand : R → ℕ × R) where
  -- A result of the first fuzzer, which the second shares if `P` holds of the buffer.
  abbrev SharedIf : (List ℕ → Type 0) → List ℕ → Option (List ℕ × R) → Option (List ℕ × R) → Type 0
  SharedIf P p o o' =
      (q : List ℕ) × (r : R) × (o ≡ some (q, r)) × (length q ≡ length p) × (P q → o' ≡ some (q, r))

  fuzz_ib_bth_shared :
      (p : List ℕ) (r : R)
      → 86 ≤ length p
      → SharedIf AnnouncesNone p (fuzz_ib_bth rand p 46 12 1 r) (Bth.fuzz_ib_bth rand p 46 12 1 r)
  unfolding fuzz_ib_bth fuzz_round Bth.fuzz_ib_bth Bth.fuzz_round
  fuzz_ib_bth_shared p r h =
      let (x, r') = rand r in
      let (y, r'') = rand r' in
      let (q, e, c) = fuzz_field_total 46 p (header_offset (x % 12)) (y % 256) h (omega arith) in
      let l : length q ≡ length p = length-Mutation (after done c) in
      (q, r'', rw e refl, l, λ quiet. rw (e, fuzz_extension_none rand q r'' (rw l h) quiet) refl)

  fuzz_buffer_shared :
      (t : BufferType) (p : List ℕ) (r : R)
      → length p ≡ max_eth_len
      → SharedIf AnnouncesNone p (fuzz_buffer rand t p r) (Tunnel.fuzz_buffer rand t p r)
  unfolding fuzz_buffer Tunnel.fuzz_buffer
  fuzz_buffer_shared ib_traffic p r h = fuzz_ib_bth_shared p r (omega arith)
  fuzz_buffer_shared ip_pkt p r h = (p, r, refl, refl, λ quiet. refl)
  fuzz_buffer_shared udp_seg p r h = (p, r, refl, refl, λ quiet. refl)
  fuzz_buffer_shared other p r h = (p, r, refl, refl, λ quiet. refl)

  fuzz_buffer_other_shared :
      (P : List ℕ → Type 0) (p : List ℕ) (r : R)
      → SharedIf P p (fuzz_buffer rand other p r) (Tunnel.fuzz_buffer rand other p r)
  unfolding fuzz_buffer Tunnel.fuzz_buffer
  fuzz_buffer_other_shared P p r = (p, r, refl, refl, λ quiet. refl)

  -- In front of byte 46 nothing is read for the extension headers.
  AnnouncesNone-of_IsPlain :
      (q : List ℕ) (n : ℕ) → 46 ≤ n → n ≤ length q → IsPlain (some (take n q)) → AnnouncesNone q
  AnnouncesNone-of_IsPlain q n h k (ne, quiet) op e =
      let longer : 46 < n = omega (arith, ne, length-take n q k) in
      quiet op (get_elem?-take_lt n q 46 longer ∙ e)

  client_step_shared :
      (buffer xs : List ℕ) (r : R)
      → length buffer ≡ max_eth_len
      → length xs ≤ max_eth_len
      → (buffer' : List ℕ) × (out : Option (List ℕ)) × (r' : R) × (client_step rand buffer r
            (frame xs)
          ≡ some (buffer', r', out))
        × (length buffer' ≡ max_eth_len)
        × (IsPlain out → Tunnel.client_step rand buffer r (frame xs) ≡ some (buffer', r', out))
  unfolding client_step Tunnel.client_step
  client_step_shared buffer xs r hb hx = go shared
    where
      n : ℕ
      n = length xs

      p : List ℕ
      p = loaded buffer xs

      p_length : length p ≡ max_eth_len
      p_length = length-append-drop xs buffer (rw hb hx) ∙ hb

      Shared : Type 0
      Shared =
          (t : BufferType) × (check_buffer_type p (pos n) ≡ some t)
          × SharedIf (λ q. IsPlain (some (take n q))) p (fuzz_buffer rand t p r)
              (Tunnel.fuzz_buffer rand t p r)

      shared : Shared
      shared = elim (dec_lt n 46) [
        | yes h ↦ (other, check_buffer_type_short p n h, fuzz_buffer_other_shared _ p r)
        | no h ↦
            let (t, e) = check_buffer_type_total p (pos n) (rw p_length (omega arith)) in
            let (q, r', f, l, g) = fuzz_buffer_shared t p r p_length in
            (
              t,
              e,
              (
                q,
                r',
                f,
                l,
                λ k. g (AnnouncesNone-of_IsPlain q n (omega arith) (rw (l, p_length) hx) k),
              ),
            )
      ]

      go :
          Shared
          → (buffer' : List ℕ) × (out : Option (List ℕ)) × (r' : R) × (client_step rand buffer r
                (frame xs)
              ≡ some (buffer', r', out))
            × (length buffer' ≡ max_eth_len)
            × (IsPlain out → Tunnel.client_step rand buffer r (frame xs) ≡ some (buffer', r', out))
      go (t, e, (q, r', f, l, g)) =
          let room : n ≤ length q = rw (l, p_length) hx in
          (
            zeros n ++ drop n q,
            some (take n q),
            r',
            rw (read_frame buffer xs (rw hb hx), e, f, write_lem q n room, clear_lem q n room) refl,
            length-zeros-drop n q room ∙ l ∙ p_length,
            λ k.
                rw (read_frame buffer xs (rw hb hx), e, g k, write_lem q n room, clear_lem q n room)
                  refl,
          )

  client_run_shared :
      (buffer : List ℕ) (r : R) (xs : List (List ℕ))
      → length buffer ≡ max_eth_len
      → AllFit xs
      → (buffer' : List ℕ) × (r' : R) × (outs : List (Option (List ℕ))) × (client_run rand buffer r
            (map frame xs)
          ≡ some (buffer', r', outs))
        × (AllPlain outs
            → Tunnel.client_run rand buffer r (map frame xs) ≡ some (buffer', r', outs))
  unfolding client_run Tunnel.client_run
  client_run_shared buffer r [] hb h = (buffer, r, [], refl, λ k. refl)
  client_run_shared buffer r (x ∷ xs) hb h =
      let (b, out, r', e, l, g) = client_step_shared buffer x r hb h.0 in
      let (b', r'', outs, f, g') = client_run_shared b r' xs l h.1 in
      (b', r'', out ∷ outs, rw (e, f) refl, λ (k, ks). rw (g k, g' ks) refl)

  -- On a buffer of its size, for frames that fit: if no frame that the first fuzzer forwards ends
  -- right in front of its opcode or has an opcode that announces an extension header, the second
  -- fuzzer forwards the same frames, and leaves the same buffer and the same random numbers.
  pub client_run_versions :
      (buffer : List ℕ) (r : R) (xs : List (List ℕ)) (buffer' : List ℕ) (r' : R)
      (outs : List (Option (List ℕ)))
      → length buffer ≡ max_eth_len
      → AllFit xs
      → client_run rand buffer r (map frame xs) ≡ some (buffer', r', outs)
      → AllPlain outs
      → Tunnel.client_run rand buffer r (map frame xs) ≡ some (buffer', r', outs)
  client_run_versions buffer r xs buffer' r' outs hb h e plain =
      let (b, s, outs', f, g) = client_run_shared buffer r xs hb h in
      let same : (b, s, outs') ≡ (buffer', r', outs) = some_inj (sym f ∙ e) in
      let same_outs : outs' ≡ outs = ap (λ (c, t, os). os) same in
      g (rw same_outs plain) ∙ sym f ∙ e
