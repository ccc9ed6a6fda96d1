-- ===== src/Fuzz/Tunnel/Client.antt =====
-- The client's channel: what it forwards for each frame, and which frames it leaves alone.
use fuzzing_rdma.Base.{
  get_elem?_of_ge, get_elem?-append, lt_of_get_elem?, clear_lem, length-zeros-drop, length-take,
  get_elem?-take_lt, pos, arith, length-append-drop, ℕ, ◌≤◌, ◌≡◌, refl, sym, ◌∙◌, some, List, ◌++◌,
  length, take, drop, zeros, get_elem?,
}
use fuzzing_rdma.Fuzz.Classify.Laws.{check_buffer_type_total}
use native.Mathlib.Decide.{dec_lt}
use fuzzing_rdma.Fuzz.Bth.Mutation.{
  version-Mutation, get_elem?-Mutation, length-Mutation, SameVersion, IsKept, Mutation, done,
}
use fuzzing_rdma.Fuzz.Bth.Total.{Returns, fuzz_ib_bth_total}
use fuzzing_rdma.Fuzz.Classify.{BufferType, ip_pkt, udp_seg, ib_traffic, other}
use fuzzing_rdma.Fuzz.Tunnel.{max_eth_len, frame, fuzz_buffer, client_step}
use fuzzing_rdma.Fuzz.Tunnel.Server.{read_frame, write_lem}

-- The buffer once a frame is read.
abbrev pub loaded : List ℕ → List ℕ → List ℕ
loaded buffer xs = xs ++ drop (length xs) buffer

-- What the client's channel may make of a frame: the Ethernet, IP and UDP headers, the destination
-- queue pair, the transport version and all behind the headers stay.
pub record IsFuzzed (xs out : List ℕ) : Type 0 where
  pub same_length : length out ≡ length xs
  pub kept : (j : ℕ) → IsKept 46 j → get_elem? out j ≡ get_elem? xs j
  pub version : SameVersion 46 xs out

module _ {R : Type 0} (rand : R → ℕ × R) where
  fuzz_buffer_total :
      (t : BufferType) (p : List ℕ) (r : R)
      → length p ≡ max_eth_len
      → Returns rand 46 p (fuzz_buffer rand t p r)
  unfolding fuzz_buffer
  fuzz_buffer_total ib_traffic p r h = fuzz_ib_bth_total rand 1 46 p 12 r (omega arith)
  fuzz_buffer_total ip_pkt p r h = (p, r, refl, done)
  fuzz_buffer_total udp_seg p r h = (p, r, refl, done)
  fuzz_buffer_total other p r h = (p, r, refl, done)

  -- The round on a frame that fits: a mutation of the loaded buffer is cut to the frame's length.
  client_step_frame :
      (buffer xs : List ℕ) (r : R)
      → length buffer ≡ max_eth_len
      → length xs ≤ max_eth_len
      → (q : List ℕ) × (r' : R) × (client_step rand buffer r (frame xs)
          ≡ some (zeros (length xs) ++ drop (length xs) q, r', some (take (length xs) q)))
        × Mutation 46 (loaded buffer xs) q
  unfolding client_step
  client_step_frame buffer xs r hb hx =
      let (t, e) =
        check_buffer_type_total (loaded buffer xs) (pos (length xs))
          (rw loaded_length (omega arith)) in
      let (q, r', f, m) = fuzz_buffer_total t (loaded buffer xs) r loaded_length in
      let room : length xs ≤ length q = rw (length-Mutation m, loaded_length) hx in
      (
        q,
        r',
        rw
            (
              read_frame buffer xs (rw hb hx),
              e,
              f,
              write_lem q (length xs) room,
              clear_lem q (length xs) room,
            )
            refl,
        m,
      )
    where
      loaded_length : length (loaded buffer xs) ≡ max_eth_len
      loaded_length = length-append-drop xs buffer (rw hb hx) ∙ hb

-- Within the frame, the loaded buffer holds the frame.
get_elem?-loaded :
    (buffer xs q : List ℕ) (j : ℕ)
    → Mutation 46 (loaded buffer xs) q
    → IsKept 46 j
    → length q ≡ max_eth_len
    → length xs ≤ max_eth_len
    → get_elem? (take (length xs) q) j ≡ get_elem? xs j
get_elem?-loaded buffer xs q j m k hq hx = elim (dec_lt j (length xs)) [
  | yes h ↦
      get_elem?-take_lt (length xs) q j h
      ∙ get_elem?-Mutation j m k
      ∙ get_elem?-append xs (drop (length xs) buffer) j h
  | no h ↦
      get_elem?_of_ge (take (length xs) q) j
        (rw (length-take (length xs) q (omega arith)) (omega arith))
      ∙ sym (get_elem?_of_ge xs j (omega arith))
]

pub IsFuzzed-of_Mutation :
    (buffer xs q : List ℕ)
    → length buffer ≡ max_eth_len
    → length xs ≤ max_eth_len
    → Mutation 46 (loaded buffer xs) q
    → IsFuzzed xs (take (length xs) q)
IsFuzzed-of_Mutation buffer xs q hb hx m = record {
  same_length = length-take (length xs) q (rw q_length hx);
  kept = λ j k. get_elem?-loaded buffer xs q j m k q_length hx;
  version = λ b c f g.
      let inside = lt_of_get_elem? xs 47 f in
      version-Mutation m b c (get_elem?-append xs (drop (length xs) buffer) 47 inside ∙ f)
        (sym (get_elem?-take_lt (length xs) q 47 inside) ∙ g);
}
  where
    q_length : length q ≡ max_eth_len
    q_length = length-Mutation m ∙ length-append-drop xs buffer (rw hb hx) ∙ hb

module _ {R : Type 0} (rand : R → ℕ × R) where
  -- Each frame that fits is forwarded, with no access out of bounds, at its length and with
  -- changes in the InfiniBand headers only; the buffer keeps its size.
  pub client_step_forwards :
      (buffer xs : List ℕ) (r : R)
      → length buffer ≡ max_eth_len
      → length xs ≤ max_eth_len
      → (buffer' out : List ℕ) × (r' : R) × (client_step rand buffer r (frame xs)
          ≡ some (buffer', r', some out))
        × (length buffer' ≡ max_eth_len)
        × IsFuzzed xs out
  client_step_forwards buffer xs r hb hx =
      let (q, r', e, m) = client_step_frame rand buffer xs r hb hx in
      let q_length : length q ≡ max_eth_len =
        length-Mutation m ∙ length-append-drop xs buffer (rw hb hx) ∙ hb in
      (
        zeros (length xs) ++ drop (length xs) q,
        take (length xs) q,
        r',
        e,
        length-zeros-drop (length xs) q (rw q_length hx) ∙ q_length,
        IsFuzzed-of_Mutation buffer xs q hb hx m,
      )
