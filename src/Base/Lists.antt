-- ===== src/Base/Lists.antt =====
-- C arrays as lists indexed by native numbers, and the memory functions of C over them.
use Prim.Native.Nat.{ℕ, zero, suc, ◌+◌, ◌-◌, ◌<◌, ◌≤◌}
use mathlib.Core.Path.{◌≡◌, refl, ap, ap₂}
use mathlib.Core.Logic.{◌≢◌}
use mathlib.Core.List.{List, [], ◌∷◌, ◌++◌}
use mathlib.Core.Option.{Option, none, some}
use native.Mathlib.Omega.{arith}

module _ {ℓ} {A : Type ℓ} where
  abbrev pub length : List A → ℕ
  length [] = 0
  length (x ∷ xs) = suc (length xs)

  abbrev pub get_elem? : List A → ℕ → Option A
  get_elem? [] i = none
  get_elem? (x ∷ xs) zero = some x
  get_elem? (x ∷ xs) (suc i) = get_elem? xs i

  -- A write out of bounds changes nothing.
  abbrev pub set : List A → ℕ → A → List A
  set [] i v = []
  set (x ∷ xs) zero v = v ∷ xs
  set (x ∷ xs) (suc i) v = x ∷ set xs i v

  abbrev pub take : ℕ → List A → List A
  take zero xs = []
  take (suc n) [] = []
  take (suc n) (x ∷ xs) = x ∷ take n xs

  abbrev pub drop : ℕ → List A → List A
  drop zero xs = xs
  drop (suc n) [] = []
  drop (suc n) (x ∷ xs) = drop n xs

  abbrev pub replicate : ℕ → A → List A
  replicate zero a = []
  replicate (suc n) a = a ∷ replicate n a

  -- `memcpy` to the start of an object: `none` if the source is longer than the object.
  abbrev pub overwrite : List A → List A → Option (List A)
  overwrite ys [] = some ys
  overwrite [] (x ∷ xs) = none
  overwrite (y ∷ ys) (x ∷ xs) = elim (overwrite ys xs) [ none ↦ none | some zs ↦ some (x ∷ zs) ]

  -- `memset` of the first bytes of an object: `none` if the object is shorter.
  abbrev pub fill : List A → ℕ → A → Option (List A)
  fill ys zero a = some ys
  fill [] (suc n) a = none
  fill (y ∷ ys) (suc n) a = elim (fill ys n a) [ none ↦ none | some zs ↦ some (a ∷ zs) ]

  pub length-append : (xs ys : List A) → length (xs ++ ys) ≡ length xs + length ys
  length-append [] ys = omega arith
  length-append (x ∷ xs) ys = omega (arith, length-append xs ys)

  pub length-set : (xs : List A) (i : ℕ) (v : A) → length (set xs i v) ≡ length xs
  length-set [] i v = refl
  length-set (x ∷ xs) zero v = refl
  length-set (x ∷ xs) (suc i) v = ap suc (length-set xs i v)

  pub get_elem?-set_self :
      (xs : List A) (i : ℕ) (v : A) → i < length xs → get_elem? (set xs i v) i ≡ some v
  get_elem?-set_self [] i v h = elim h [ ]
  get_elem?-set_self (x ∷ xs) zero v h = refl
  get_elem?-set_self (x ∷ xs) (suc i) v h = get_elem?-set_self xs i v (omega arith)

  pub get_elem?-set_ne :
      (xs : List A) (i j : ℕ) (v : A) → i ≢ j → get_elem? (set xs i v) j ≡ get_elem? xs j
  get_elem?-set_ne [] i j v h = refl
  get_elem?-set_ne (x ∷ xs) zero zero v h = absurd (h refl)
  get_elem?-set_ne (x ∷ xs) zero (suc j) v h = refl
  get_elem?-set_ne (x ∷ xs) (suc i) zero v h = refl
  get_elem?-set_ne (x ∷ xs) (suc i) (suc j) v h = get_elem?-set_ne xs i j v (λ e. h (ap suc e))

  pub get_elem?_of_lt : (xs : List A) (i : ℕ) → i < length xs → (a : A) × (get_elem? xs i ≡ some a)
  get_elem?_of_lt [] i h = absurd (omega arith)
  get_elem?_of_lt (x ∷ xs) zero h = (x, refl)
  get_elem?_of_lt (x ∷ xs) (suc i) h = get_elem?_of_lt xs i (omega arith)

  -- Equal prefixes give equal elements.
  pub get_elem?-take :
      (n : ℕ) (xs ys : List A) (i : ℕ)
      → take n xs ≡ take n ys
      → i < n
      → get_elem? xs i ≡ get_elem? ys i
  get_elem?-take zero xs ys i e h = absurd (omega arith)
  get_elem?-take (suc n) [] [] i e h = refl
  get_elem?-take (suc n) [] (y ∷ ys) i e h = absurd (cc)
  get_elem?-take (suc n) (x ∷ xs) [] i e h = absurd (cc)
  get_elem?-take (suc n) (x ∷ xs) (y ∷ ys) zero e h = cc
  get_elem?-take (suc n) (x ∷ xs) (y ∷ ys) (suc i) e h = get_elem?-take n xs ys i (cc) (omega arith)

  pub take-set :
      (n : ℕ) (xs ys : List A) (i : ℕ) (v : A)
      → take n xs ≡ take n ys
      → take n (set xs i v) ≡ take n (set ys i v)
  take-set zero xs ys i v e = refl
  take-set (suc n) [] [] i v e = refl
  take-set (suc n) [] (y ∷ ys) i v e = absurd (cc)
  take-set (suc n) (x ∷ xs) [] i v e = absurd (cc)
  take-set (suc n) (x ∷ xs) (y ∷ ys) zero v e = cc
  take-set (suc n) (x ∷ xs) (y ∷ ys) (suc i) v e = ap₂ ◌∷◌ (cc) (take-set n xs ys i v (cc))

  -- A write past a prefix leaves the prefix as it was.
  pub take-set_ge : (n : ℕ) (xs : List A) (i : ℕ) (v : A) → n ≤ i → take n (set xs i v) ≡ take n xs
  take-set_ge zero xs i v h = refl
  take-set_ge (suc n) [] i v h = refl
  take-set_ge (suc n) (x ∷ xs) zero v h = absurd (omega arith)
  take-set_ge (suc n) (x ∷ xs) (suc i) v h = ap (λ t. x ∷ t) (take-set_ge n xs i v (omega arith))

  pub take_self : (xs : List A) → take (length xs) xs ≡ xs
  take_self [] = refl
  take_self (x ∷ xs) = ap (λ t. x ∷ t) (take_self xs)

  pub length-take : (n : ℕ) (xs : List A) → n ≤ length xs → length (take n xs) ≡ n
  length-take zero xs h = refl
  length-take (suc n) [] h = absurd (omega arith)
  length-take (suc n) (x ∷ xs) h = ap suc (length-take n xs (omega arith))

  pub length-replicate : (n : ℕ) (a : A) → length (replicate n a) ≡ n
  length-replicate zero a = refl
  length-replicate (suc n) a = ap suc (length-replicate n a)

  pub take_all : (n : ℕ) (xs : List A) → length xs ≤ n → take n xs ≡ xs
  take_all zero [] h = refl
  take_all zero (x ∷ xs) h = absurd (omega arith)
  take_all (suc n) [] h = refl
  take_all (suc n) (x ∷ xs) h = ap (λ t. x ∷ t) (take_all n xs (omega arith))

  -- What `overwrite` gives: the source, then the rest of the object.
  pub overwrite_lem :
      (ys xs : List A) → length xs ≤ length ys → overwrite ys xs ≡ some (xs ++ drop (length xs) ys)
  overwrite_lem ys [] h = refl
  overwrite_lem [] (x ∷ xs) h = absurd (omega arith)
  overwrite_lem (y ∷ ys) (x ∷ xs) h = rw (overwrite_lem ys xs (omega arith))

  pub fill_lem :
      (ys : List A) (n : ℕ) (a : A)
      → n ≤ length ys
      → fill ys n a ≡ some (replicate n a ++ drop n ys)
  fill_lem ys zero a h = refl
  fill_lem [] (suc n) a h = absurd (omega arith)
  fill_lem (y ∷ ys) (suc n) a h = rw (fill_lem ys n a (omega arith))

  pub fill_short : (ys : List A) (n : ℕ) (a : A) → length ys < n → fill ys n a ≡ none
  fill_short ys zero a h = absurd (omega arith)
  fill_short [] (suc n) a h = refl
  fill_short (y ∷ ys) (suc n) a h = rw (fill_short ys n a (omega arith))

  pub length-drop : (n : ℕ) (xs : List A) → length (drop n xs) ≡ length xs - n
  length-drop zero xs = omega arith
  length-drop (suc n) [] = omega arith
  length-drop (suc n) (x ∷ xs) = omega (arith, length-drop n xs)

  pub take-append : (xs ys : List A) → take (length xs) (xs ++ ys) ≡ xs
  take-append [] ys = refl
  take-append (x ∷ xs) ys = ap (λ t. x ∷ t) (take-append xs ys)

  pub drop-append : (xs ys : List A) → drop (length xs) (xs ++ ys) ≡ ys
  drop-append [] ys = refl
  drop-append (x ∷ xs) ys = drop-append xs ys

  pub lt_of_get_elem? : (xs : List A) (i : ℕ) {a : A} → get_elem? xs i ≡ some a → i < length xs
  lt_of_get_elem? [] i h = absurd (cc)
  lt_of_get_elem? (x ∷ xs) zero h = omega arith
  lt_of_get_elem? (x ∷ xs) (suc i) h = omega (arith, lt_of_get_elem? xs i h)

pub some_inj {ℓ} : {A : Type ℓ} {a b : A} → some a ≡ some b → a ≡ b
some_inj h = cc

-- Every element is a byte.
abbrev pub IsBytes : List ℕ → Type 0
IsBytes p = (j b : ℕ) → get_elem? p j ≡ some b → b < 256

module _ {ℓ} {A : Type ℓ} where
  pub get_elem?_of_ge : (xs : List A) (i : ℕ) → length xs ≤ i → get_elem? xs i ≡ none
  get_elem?_of_ge [] i h = refl
  get_elem?_of_ge (x ∷ xs) zero h = absurd (omega arith)
  get_elem?_of_ge (x ∷ xs) (suc i) h = get_elem?_of_ge xs i (omega arith)

  pub get_elem?-take_lt :
      (n : ℕ) (xs : List A) (i : ℕ) → i < n → get_elem? (take n xs) i ≡ get_elem? xs i
  get_elem?-take_lt zero xs i h = absurd (omega arith)
  get_elem?-take_lt (suc n) [] i h = refl
  get_elem?-take_lt (suc n) (x ∷ xs) zero h = refl
  get_elem?-take_lt (suc n) (x ∷ xs) (suc i) h = get_elem?-take_lt n xs i (omega arith)

  pub get_elem?-append :
      (xs ys : List A) (i : ℕ) → i < length xs → get_elem? (xs ++ ys) i ≡ get_elem? xs i
  get_elem?-append [] ys i h = absurd (omega arith)
  get_elem?-append (x ∷ xs) ys zero h = refl
  get_elem?-append (x ∷ xs) ys (suc i) h = get_elem?-append xs ys i (omega arith)

  -- The lengths of what `overwrite` and `fill` give.
  pub length-append-drop :
      (xs ys : List A) → length xs ≤ length ys → length (xs ++ drop (length xs) ys) ≡ length ys
  length-append-drop xs ys h =
      omega (arith, length-append xs (drop (length xs) ys), length-drop (length xs) ys)

  pub length-replicate-drop :
      (n : ℕ) (a : A) (ys : List A)
      → n ≤ length ys
      → length (replicate n a ++ drop n ys) ≡ length ys
  length-replicate-drop n a ys h =
      omega
        (arith, length-append (replicate n a) (drop n ys), length-replicate n a, length-drop n ys)
