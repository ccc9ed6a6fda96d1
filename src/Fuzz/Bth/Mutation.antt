-- ===== src/Fuzz/Bth/Mutation.antt =====
-- The specification of a mutated frame, apart from the code: which bytes may change, and how.
use fuzzing_rdma.Base.{
  IsBytes, ℕ, ◌+◌, ◌%◌, ◌≤◌, ◌<◌, bit_xor, bit_xor-lt, bit_xor_low, ◌≡◌, ◌≢◌, ◌⊎◌, inl, inr, refl,
  sym, some_inj, ◌∙◌, ap, some, List, get_elem?, lt_of_get_elem?, get_elem?_of_lt, set, length,
  length-set, get_elem?-set_self, get_elem?-set_ne, arith,
}
use native.Mathlib.Decide.{ℕ_discrete}

-- The bytes that the fuzzer may change with the header at index `at`: the header but for the
-- destination queue pair, and the longer of the two extension headers. The mask that is put on
-- the byte of the transport version leaves its low four bits alone.
pub record MayChange (at i m : ℕ) : Type 0 where
  pub low : at ≤ i
  pub high : i < at + 40
  pub not_qp : (i < at + 5) ⊎ (at + 8 ≤ i)
  pub byte : m < 256
  pub version : i ≡ at + 1 → m % 16 ≡ 0

-- One byte at most is changed, by `^` with a mask.
pub data Change (at : ℕ) : List ℕ → List ℕ → Type 0 where
  same : (p : List ℕ) → Change at p p
  xored :
      (p : List ℕ) (i b m : ℕ)
      → get_elem? p i ≡ some b
      → MayChange at i m
      → Change at p (set p i (bit_xor b m))

pub data Mutation (at : ℕ) (p : List ℕ) : List ℕ → Type 0 where
  done : Mutation at p p
  after : {q s : List ℕ} → Mutation at p q → Change at q s → Mutation at p s

pub Mutation-trans : {at : ℕ} {p q s : List ℕ} → Mutation at p q → Mutation at q s → Mutation at p s
Mutation-trans m done = m
Mutation-trans m (after n c) = after (Mutation-trans m n) c

module _ {at : ℕ} where
  length-Change : {p q : List ℕ} → Change at p q → length q ≡ length p
  length-Change (same p) = refl
  length-Change (xored p i b m e h) = length-set p i (bit_xor b m)

  pub length-Mutation : {p q : List ℕ} → Mutation at p q → length q ≡ length p
  length-Mutation done = refl
  length-Mutation (after n c) = length-Change c ∙ length-Mutation n

-- A byte outside the headers, or of the destination queue pair.
abbrev pub IsKept : ℕ → ℕ → Type 0
IsKept at j = (j < at) ⊎ (at + 40 ≤ j) ⊎ ((at + 5 ≤ j) × (j < at + 8))

kept_of_MayChange : (at i j m : ℕ) → MayChange at i m → IsKept at j → i ≢ j
kept_of_MayChange at i j m h k e = ground arith

module _ {at : ℕ} where
  get_elem?-Change :
      {p q : List ℕ} (j : ℕ) → Change at p q → IsKept at j → get_elem? q j ≡ get_elem? p j
  get_elem?-Change j (same p) k = refl
  get_elem?-Change j (xored p i b m e h) k =
      get_elem?-set_ne p i j (bit_xor b m) (kept_of_MayChange at i j m h k)

  pub get_elem?-Mutation :
      {p q : List ℕ} (j : ℕ) → Mutation at p q → IsKept at j → get_elem? q j ≡ get_elem? p j
  get_elem?-Mutation j done k = refl
  get_elem?-Mutation j (after n c) k = get_elem?-Change j c k ∙ get_elem?-Mutation j n k

-- A changed byte is the old one under `^`, wherever it is read.
get_elem?-set_xor :
    (p : List ℕ) (i j b m c : ℕ)
    → get_elem? p i ≡ some b
    → get_elem? (set p i (bit_xor b m)) j ≡ some c
    → (get_elem? p j ≡ some c) ⊎ ((i ≡ j) × (c ≡ bit_xor b m))
get_elem?-set_xor p i j b m c e h = elim (ℕ_discrete i j) [
  | yes q ↦ inr (q, some_inj (sym h ∙ rw (← q) written))
  | no q ↦ inl (sym (get_elem?-set_ne p i j (bit_xor b m) q) ∙ h)
]
  where
    written : get_elem? (set p i (bit_xor b m)) i ≡ some (bit_xor b m)
    written = get_elem?-set_self p i (bit_xor b m) (lt_of_get_elem? p i e)

module _ {at : ℕ} where
  IsBytes-Change : {p q : List ℕ} → Change at p q → IsBytes p → IsBytes q
  IsBytes-Change (same p) h j c g = h j c g
  IsBytes-Change (xored p i b m e r) h j c g = elim (get_elem?-set_xor p i j b m c e g) [
    | inl old ↦ h j c old
    | inr new ↦ rw (new.1) (bit_xor-lt 8 b m (h i b e) r.byte)
  ]

  pub IsBytes-Mutation : {p q : List ℕ} → Mutation at p q → IsBytes p → IsBytes q
  IsBytes-Mutation done h = h
  IsBytes-Mutation (after n c) h = IsBytes-Change c (IsBytes-Mutation n h)

-- The transport version, the low four bits of the second byte of the header, stays.
abbrev pub SameVersion : ℕ → List ℕ → List ℕ → Type 0
SameVersion at p q =
    (b c : ℕ) → get_elem? p (at + 1) ≡ some b → get_elem? q (at + 1) ≡ some c → c % 16 ≡ b % 16

module _ {at : ℕ} where
  version-Change : {p q : List ℕ} → Change at p q → SameVersion at p q
  version-Change (same p) b c e f = ap (λ t. t % 16) (some_inj (sym f ∙ e))
  version-Change (xored p i b m e r) b' c f g = elim (get_elem?-set_xor p i (at + 1) b m c e g) [
    | inl old ↦ ap (λ t. t % 16) (some_inj (sym old ∙ f))
    | inr new ↦
        rw new.1
          (bit_xor_low b m (r.version new.0) ∙ ap (λ t. t % 16) (some_inj (sym e ∙ (rw new.0 f))))
  ]

  version-chain :
      (p q s : List ℕ)
      → Mutation at p q
      → SameVersion at p q
      → SameVersion at q s
      → SameVersion at p s
  version-chain p q s n h k b d f g =
      let (c, e) =
        get_elem?_of_lt q (at + 1) (rw (length-Mutation n) (lt_of_get_elem? p (at + 1) f)) in
      k c d e g ∙ h b c f e

  pub version-Mutation : {p q : List ℕ} → Mutation at p q → SameVersion at p q
  version-Mutation done b c f g = ap (λ t. t % 16) (some_inj (sym g ∙ f))
  version-Mutation {p} (after {q} {s} n c) b d f g =
      version-chain p q s n (version-Mutation n) (version-Change c) b d f g
