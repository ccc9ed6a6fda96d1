-- ===== src/Base/Objects.antt =====
-- The sizes of C objects behind `memcpy` and `memset`, and lists that agree pair by pair.
use Prim.Native.Nat.{ℕ, zero, suc, ◌+◌, ◌≤◌, ◌<◌}
use mathlib.Core.Path.{◌≡◌, ◌∙◌, refl, sym, ap}
use mathlib.Core.Logic.{inl, inr}
use mathlib.Core.List.{List, [], ◌∷◌, ◌++◌}
use mathlib.Core.Option.{none, some}
use native.Mathlib.Omega.{arith}
use fuzzing_rdma.Base.Tests.{Option-cases}
use fuzzing_rdma.Base.Lists.{length, take, drop, get_elem?, set, overwrite, fill, some_inj}

module _ {ℓ} {A : Type ℓ} where
  pub length-overwrite : (ys xs zs : List A) → overwrite ys xs ≡ some zs → length zs ≡ length ys
  length-overwrite ys [] zs e = ap length (sym (some_inj e))
  length-overwrite [] (x ∷ xs) zs e = absurd (cc)
  length-overwrite (y ∷ ys) (x ∷ xs) zs e = elim (Option-cases (overwrite ys xs)) [
    | inl f ↦ absurd (cc)
    | inr (ws, f) ↦
        let g : overwrite (y ∷ ys) (x ∷ xs) ≡ some (x ∷ ws) = rw f refl in
        ap length (some_inj (sym e ∙ g)) ∙ ap suc (length-overwrite ys xs ws f)
  ]

  pub length-fill :
      (ys : List A) (n : ℕ) (a : A) (zs : List A) → fill ys n a ≡ some zs → length zs ≡ length ys
  length-fill ys zero a zs e = ap length (sym (some_inj e))
  length-fill [] (suc n) a zs e = absurd (cc)
  length-fill (y ∷ ys) (suc n) a zs e = elim (Option-cases (fill ys n a)) [
    | inl f ↦ absurd (cc)
    | inr (ws, f) ↦
        let g : fill (y ∷ ys) (suc n) a ≡ some (a ∷ ws) = rw f refl in
        ap length (some_inj (sym e ∙ g)) ∙ ap suc (length-fill ys n a ws f)
  ]

  pub overwrite_short : (ys xs : List A) → length ys < length xs → overwrite ys xs ≡ none
  overwrite_short ys [] h = absurd (omega arith)
  overwrite_short [] (x ∷ xs) h = refl
  overwrite_short (y ∷ ys) (x ∷ xs) h = rw (overwrite_short ys xs (omega arith)) refl

-- A relation holds of the elements of two lists, pair by pair, and the lists are equally long.
abbrev pub Pairwise : {A : Type 0} {B : Type 0} → (A → B → Type 0) → List A → List B → Type 0
Pairwise P [] [] = Unit {0}
Pairwise P [] (y ∷ ys) = ⊥
Pairwise P (x ∷ xs) [] = ⊥
Pairwise P (x ∷ xs) (y ∷ ys) = P x y × Pairwise P xs ys

pub Pairwise-append :
    {A : Type 0} {B : Type 0} (P : A → B → Type 0) (xs : List A) (ys : List B) (x : A) (y : B)
    → Pairwise P xs ys
    → P x y
    → Pairwise P (xs ++ (x ∷ [])) (ys ++ (y ∷ []))
Pairwise-append P [] [] x y h k = (k, tt)
Pairwise-append P [] (b ∷ ys) x y h k = absurd h
Pairwise-append P (a ∷ xs) [] x y h k = absurd h
Pairwise-append P (a ∷ xs) (b ∷ ys) x y (h, t) k = (h, Pairwise-append P xs ys x y t k)

-- An access behind a pointer that was moved on.
module _ {ℓ} {A : Type ℓ} where
  pub get_elem?-drop :
      (n : ℕ) (xs : List A) (j : ℕ) → get_elem? (drop n xs) j ≡ get_elem? xs (n + j)
  get_elem?-drop zero xs j = let e : j ≡ 0 + j = omega arith in ap (λ k. get_elem? xs k) e
  get_elem?-drop (suc n) [] j = refl
  get_elem?-drop (suc n) (x ∷ xs) j =
      let e : suc (n + j) ≡ suc n + j = omega arith in
      get_elem?-drop n xs j ∙ ap (λ k. get_elem? (x ∷ xs) k) e

  pub length-take_le : (n : ℕ) (xs : List A) → length (take n xs) ≤ n
  length-take_le zero xs = omega arith
  length-take_le (suc n) [] = omega arith
  length-take_le (suc n) (x ∷ xs) = omega (arith, length-take_le n xs)

  pub set-append :
      (xs ys : List A) (i : ℕ) (a : A) → i < length xs → set (xs ++ ys) i a ≡ set xs i a ++ ys
  set-append [] ys i a h = absurd (omega arith)
  set-append (x ∷ xs) ys zero a h = refl
  set-append (x ∷ xs) ys (suc i) a h = ap (λ t. x ∷ t) (set-append xs ys i a (omega arith))

  -- Two lists are equal if every access gives the same.
  pub get_elem?_ext : (xs ys : List A) → ((i : ℕ) → get_elem? xs i ≡ get_elem? ys i) → xs ≡ ys
  get_elem?_ext [] [] h = refl
  get_elem?_ext [] (y ∷ ys) h = let e : none ≡ some y = h 0 in absurd (cc)
  get_elem?_ext (x ∷ xs) [] h = let e : some x ≡ none = h 0 in absurd (cc)
  get_elem?_ext (x ∷ xs) (y ∷ ys) h =
      let e : x ≡ y = some_inj (h 0) in rw (e, get_elem?_ext xs ys (λ i. h (suc i))) refl
