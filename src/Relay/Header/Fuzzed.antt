-- ===== src/Relay/Header/Fuzzed.antt =====
-- What the parser of the relay reads from a frame that the fuzzer has forwarded.
use fuzzing_rdma.Base.{
  get_elem?_ext, none, ℕ, ◌+◌, ◌-◌, ◌%◌, ◌≤◌, ◌<◌, ◌≡◌, inl, inr, sym, ap, ◌∙◌, some, some_inj,
  List, ◌∷◌, length, take, drop, length-drop, length-take_le, length-take, get_elem?,
  get_elem?_of_lt, get_elem?_of_ge, get_elem?-drop, get_elem?-take_lt, bit_and, bit_and_low, arith,
}
use native.Mathlib.Decide.{dec_lt}
use fuzzing_rdma.Relay.Header.{IbBth, bit_field, read_header, deserialize_ib_pkt}
use fuzzing_rdma.Relay.Header.Laws.{deserialize-read_header}
use fuzzing_rdma.Fuzz.Bth.Mutation.{IsKept}
use fuzzing_rdma.Fuzz.Tunnel.{frame, max_eth_len, client_step}
use fuzzing_rdma.Fuzz.Tunnel.Client.{IsFuzzed, client_step_forwards}

-- Two headers for the same queue pair and the same version of the transport.
pub record SameTarget (h h' : IbBth) : Type 0 where
  pub dest_qp_1 : h'.dest_qp_1 ≡ h.dest_qp_1
  pub dest_qp_2 : h'.dest_qp_2 ≡ h.dest_qp_2
  pub dest_qp_3 : h'.dest_qp_3 ≡ h.dest_qp_3
  pub tver : h'.tver ≡ h.tver

-- The bytes of a header that the parser reads for these fields.
record Targets (p : List ℕ) (h : IbBth) : Type 0 where
  pub byte_5 : get_elem? p 5 ≡ some h.dest_qp_1
  pub byte_6 : get_elem? p 6 ≡ some h.dest_qp_2
  pub byte_7 : get_elem? p 7 ≡ some h.dest_qp_3
  pub byte_1 : (b : ℕ) → get_elem? p 1 ≡ some b → h.tver ≡ bit_field 4 (bit_and b 0x0f)

read_header-Targets : (p : List ℕ) (h : IbBth) → read_header p ≡ some h → Targets p h
unfolding read_header
read_header-Targets (b0 ∷ b1 ∷ b2 ∷ b3 ∷ b4 ∷ b5 ∷ b6 ∷ b7 ∷ b8 ∷ b9 ∷ b10 ∷ b11 ∷ p) h e = record {
  byte_5 = ap (λ k. some k.dest_qp_1) (some_inj e);
  byte_6 = ap (λ k. some k.dest_qp_2) (some_inj e);
  byte_7 = ap (λ k. some k.dest_qp_3) (some_inj e);
  byte_1 = λ b f.
      sym (ap (λ k. k.tver) (some_inj e)) ∙ ap (λ c. bit_field 4 (bit_and c 0x0f)) (some_inj f);
}
read_header-Targets _ h e = absurd (cc)

module _ (xs out : List ℕ) (f : IsFuzzed xs out) where
  same_byte : (j : ℕ) → IsKept 46 (46 + j) → get_elem? (drop 46 out) j ≡ get_elem? (drop 46 xs) j
  same_byte j k = get_elem?-drop 46 out j ∙ f.kept (46 + j) k ∙ sym (get_elem?-drop 46 xs j)

  tver-SameTarget :
      (h h' : IbBth)
      → 2 ≤ length (drop 46 xs)
      → 2 ≤ length (drop 46 out)
      → Targets (drop 46 xs) h
      → Targets (drop 46 out) h'
      → h'.tver ≡ h.tver
  tver-SameTarget h h' l l' t t' =
      let (b, e) = get_elem?_of_lt (drop 46 xs) 1 l in
      let (c, e') = get_elem?_of_lt (drop 46 out) 1 l' in
      let same : c % 16 ≡ b % 16 =
        f.version b c (sym (get_elem?-drop 46 xs 1) ∙ e) (sym (get_elem?-drop 46 out 1) ∙ e') in
      t'.byte_1 c e'
      ∙ ap (λ v. bit_field 4 v) (bit_and_low c ∙ same ∙ sym (bit_and_low b))
      ∙ sym (t.byte_1 b e)

  SameTarget-of_IsFuzzed :
      (h h' : IbBth)
      → 2 ≤ length (drop 46 xs)
      → 2 ≤ length (drop 46 out)
      → Targets (drop 46 xs) h
      → Targets (drop 46 out) h'
      → SameTarget h h'
  SameTarget-of_IsFuzzed h h' l l' t t' = record {
    dest_qp_1 = some_inj (sym t'.byte_5 ∙ same_byte 5 (inr (inr (omega arith))) ∙ t.byte_5);
    dest_qp_2 = some_inj (sym t'.byte_6 ∙ same_byte 6 (inr (inr (omega arith))) ∙ t.byte_6);
    dest_qp_3 = some_inj (sym t'.byte_7 ∙ same_byte 7 (inr (inr (omega arith))) ∙ t.byte_7);
    tver = tver-SameTarget h h' l l' t t';
  }

  -- The payload behind the longer extension header.
  same_payload :
      (m j : ℕ)
      → 28 ≤ j
      → get_elem? (take m (drop 12 (drop 46 out))) j ≡ get_elem? (take m (drop 12 (drop 46 xs))) j
  same_payload m j h = elim (dec_lt j m) [
    | yes k ↦
        get_elem?-take_lt m (drop 12 (drop 46 out)) j k
        ∙ get_elem?-drop 12 (drop 46 out) j
        ∙ same_byte (12 + j) (inr (inl (omega arith)))
        ∙ sym (get_elem?-drop 12 (drop 46 xs) j)
        ∙ sym (get_elem?-take_lt m (drop 12 (drop 46 xs)) j k)
    | no k ↦ beyond (drop 12 (drop 46 out)) k ∙ sym (beyond (drop 12 (drop 46 xs)) k)
  ]
    where
      beyond : (q : List ℕ) → ¬ (j < m) → get_elem? (take m q) j ≡ none
      beyond q k = get_elem?_of_ge (take m q) j (omega (arith, length-take_le m q, k))

module _ (xs out : List ℕ) (f : IsFuzzed xs out) (m : ℕ) where
  same_tail : drop 28 (take m (drop 12 (drop 46 out))) ≡ drop 28 (take m (drop 12 (drop 46 xs)))
  same_tail = get_elem?_ext _ _ (λ j.
      get_elem?-drop 28 (take m (drop 12 (drop 46 out))) j
      ∙ same_payload xs out f m (28 + j) (omega arith)
      ∙ sym (get_elem?-drop 28 (take m (drop 12 (drop 46 xs))) j))

-- A frame as the parser of the relay reads the UDP payload of it: the header and the bytes copied.
abbrev pub Parses : List ℕ → IbBth → List ℕ → Type 0
Parses xs h payload = deserialize_ib_pkt (drop 46 xs) (length xs - 46) ≡ some (h, payload)

module _ {R : Type 0} (rand : R → ℕ × R) where
  -- On a buffer of its size, a frame that fits it and holds, behind 46 bytes, the 17 of the header
  -- and the checks is forwarded, and the parser of the relay returns on the frame and on what is
  -- forwarded: it reads the same destination queue pair and the same version of the transport, and
  -- copies as many bytes, which are the same from the 29th on.
  pub client_step-Parses :
      (buffer xs : List ℕ) (r : R)
      → length buffer ≡ max_eth_len
      → length xs ≤ max_eth_len
      → 63 ≤ length xs
      → (buffer' out : List ℕ) × (r' : R) × (h h' : IbBth) × (payload payload' : List ℕ)
        × (client_step rand buffer r (frame xs) ≡ some (buffer', r', some out))
        × Parses xs h payload
        × Parses out h' payload'
        × SameTarget h h'
        × (length payload' ≡ length payload)
        × (drop 28 payload' ≡ drop 28 payload)
  client_step-Parses buffer xs r hb hx l =
      let (buffer', out, r', e, lb, f) = client_step_forwards rand buffer xs r hb hx in
      let n = length xs - 46 in
      let lx : length (drop 46 xs) ≡ n = length-drop 46 xs in
      let lo : length (drop 46 out) ≡ n = length-drop 46 out ∙ ap (λ k. k - 46) f.same_length in
      let (h, d, g, flags) =
        deserialize-read_header (drop 46 xs) n (omega (arith, lx)) (omega arith) in
      let (h', d', g', flags') =
        deserialize-read_header (drop 46 out) n (omega (arith, lo)) (omega arith) in
      (
        buffer',
        out,
        r',
        h,
        h',
        take (n - 17) (drop 12 (drop 46 xs)),
        take (n - 17) (drop 12 (drop 46 out)),
        e,
        g,
        ap (λ k. deserialize_ib_pkt (drop 46 out) (k - 46)) f.same_length ∙ g',
        SameTarget-of_IsFuzzed xs out f h h' (omega (arith, lx)) (omega (arith, lo))
            (read_header-Targets (drop 46 xs) h d) (read_header-Targets (drop 46 out) h' d'),
        length-take (n - 17) (drop 12 (drop 46 out))
              (omega (arith, lo, length-drop 12 (drop 46 out)))
            ∙ sym (
                length-take (n - 17) (drop 12 (drop 46 xs))
                  (omega (arith, lx, length-drop 12 (drop 46 xs)))),
        same_tail xs out f (n - 17),
      )
