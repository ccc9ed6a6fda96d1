-- ===== src/Base/Bytes.antt =====
-- C arrays of bytes: cleared objects, objects whose elements are bytes, and C strings.
use Prim.Native.Nat.{ℕ, zero, suc, ◌-◌, ◌<◌, ◌≤◌}
use mathlib.Core.Path.{◌∙◌, ◌≡◌, refl, ap, ap₂}
use mathlib.Core.Logic.{◌≢◌}
use mathlib.Core.Bool.{Bool, true, false, ◌&&◌}
use mathlib.Core.List.{List, [], ◌∷◌, ◌++◌}
use mathlib.Core.Option.{none, Option, some}
use native.Mathlib.Omega.{arith}
use fuzzing_rdma.Base.Tests.{◌>>=◌, ◌==◌}
use fuzzing_rdma.Base.Lists.{
  IsBytes, length, drop, replicate, fill, some_inj, fill_lem, length-replicate,
  length-replicate-drop,
}

-- A cleared object of `n` bytes.
unfoldable pub zeros : ℕ → List ℕ
zeros n = replicate n 0

pub length-zeros : (n : ℕ) → length (zeros n) ≡ n
unfolding zeros
length-zeros n = length-replicate n 0

pub clear_lem : (ys : List ℕ) (n : ℕ) → n ≤ length ys → fill ys n 0 ≡ some (zeros n ++ drop n ys)
unfolding zeros
clear_lem ys n h = fill_lem ys n 0 h

-- An object that is cleared as a whole.
pub clear_all : (ys : List ℕ) (n : ℕ) → length ys ≡ n → fill ys n 0 ≡ some (zeros n)
unfolding zeros
clear_all [] zero h = refl
clear_all [] (suc n) h = absurd (omega (arith, h))
clear_all (y ∷ ys) zero h = absurd (omega (arith, h))
clear_all (y ∷ ys) (suc n) h = rw (clear_all ys n (omega (arith, h))) refl

pub length-zeros-drop :
    (n : ℕ) (ys : List ℕ) → n ≤ length ys → length (zeros n ++ drop n ys) ≡ length ys
unfolding zeros
length-zeros-drop n ys h = length-replicate-drop n 0 ys h

-- Clearing a prefix of a clear object leaves it clear.
pub zeros-append-drop : (m n : ℕ) → m ≤ n → zeros m ++ drop m (zeros n) ≡ zeros n
unfolding zeros
zeros-append-drop zero n h = refl
zeros-append-drop (suc m) zero h = absurd (omega arith)
zeros-append-drop (suc m) (suc n) h = ap (λ t. 0 ∷ t) (zeros-append-drop m n (omega arith))

pub IsBytes-append : (xs ys : List ℕ) → IsBytes xs → IsBytes ys → IsBytes (xs ++ ys)
IsBytes-append [] ys h k j b e = k j b e
IsBytes-append (x ∷ xs) ys h k zero b e = h 0 b e
IsBytes-append (x ∷ xs) ys h k (suc j) b e = IsBytes-append xs ys (λ i c f. h (suc i) c f) k j b e

pub IsBytes-drop : (n : ℕ) (xs : List ℕ) → IsBytes xs → IsBytes (drop n xs)
IsBytes-drop zero xs h j b e = h j b e
IsBytes-drop (suc n) [] h j b e = h j b e
IsBytes-drop (suc n) (x ∷ xs) h j b e = IsBytes-drop n xs (λ i c f. h (suc i) c f) j b e

-- The same for a list that is at hand, as a tuple of bounds.
abbrev pub AllBytes : List ℕ → Type 0
AllBytes [] = Unit {0}
AllBytes (x ∷ xs) = (x < 256) × AllBytes xs

pub IsBytes-of_AllBytes : (xs : List ℕ) → AllBytes xs → IsBytes xs
IsBytes-of_AllBytes [] h j b e = absurd (cc)
IsBytes-of_AllBytes (x ∷ xs) h zero b e = rw (← some_inj e) h.0
IsBytes-of_AllBytes (x ∷ xs) h (suc j) b e = IsBytes-of_AllBytes xs h.1 j b e

pub IsBytes-zeros : (n : ℕ) → IsBytes (zeros n)
unfolding zeros
IsBytes-zeros zero j b e = absurd (cc)
IsBytes-zeros (suc n) zero b e = rw (← some_inj e) (omega arith)
IsBytes-zeros (suc n) (suc j) b e = IsBytes-zeros n j b e

pub drop-zeros : (m n : ℕ) → drop m (zeros n) ≡ zeros (n - m)
unfolding zeros
drop-zeros zero n = let e : n ≡ n - 0 = omega arith in ap (λ t. replicate t 0) e
drop-zeros (suc m) zero = let e : 0 ≡ 0 - suc m = omega arith in ap (λ t. replicate t 0) e
drop-zeros (suc m) (suc n) =
    let e : n - m ≡ suc n - suc m = omega arith in drop-zeros m n ∙ ap (λ t. replicate t 0) e

-- `strcmp(a, b) == 0`
abbrev pub same_text : List ℕ → List ℕ → Bool
same_text [] [] = true
same_text [] (y ∷ b) = false
same_text (x ∷ a) [] = false
same_text (x ∷ a) (y ∷ b) = x == y && same_text a b

-- The C string at a pointer; `none` if no zero ends it.
abbrev pub c_string : List ℕ → Option (List ℕ)
c_string [] = none
c_string (zero ∷ p) = some []
c_string (suc b ∷ p) = c_string p >>= λ s. some (suc b ∷ s)

-- A text without zeros.
abbrev pub IsText : List ℕ → Type 0
IsText [] = Unit {0}
IsText (x ∷ xs) = (0 < x) × IsText xs

pub c_string_lem : (text rest : List ℕ) → IsText text → c_string (text ++ 0 ∷ rest) ≡ some text
c_string_lem [] rest h = refl
c_string_lem (zero ∷ text) rest (h, k) = absurd (omega arith)
c_string_lem (suc x ∷ text) rest (h, k) = rw (c_string_lem text rest k) refl

-- The test of two texts decides their equality.
pub same_text_lem : (a b : List ℕ) → same_text a b ≡ true → a ≡ b
same_text_lem [] [] e = refl
same_text_lem [] (y ∷ b) e = absurd (cc)
same_text_lem (x ∷ a) [] e = absurd (cc)
same_text_lem (x ∷ a) (y ∷ b) e =
    let heads : x ≡ y = ground arith in
    let tails : same_text a b ≡ true = ground arith in ap₂ ◌∷◌ heads (same_text_lem a b tails)

same_text_self : (a : List ℕ) → same_text a a ≡ true
same_text_self [] = refl
same_text_self (x ∷ a) = rw (same_text_self a) (ground arith)

pub same_text_differ : (a b : List ℕ) → same_text a b ≡ false → b ≢ a
same_text_differ a b e f =
    let same : same_text a b ≡ true = ap (same_text a) f ∙ same_text_self a in absurd (cc)
