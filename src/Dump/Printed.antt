-- ===== src/Dump/Printed.antt =====
-- The bytes and the offsets that a dump prints, and the rows that it takes.
use Prim.Native.Nat.add
use mathlib.Core.List.{map-append}
use native.Mathlib.Nat.{suc-add}
use fuzzing_rdma.Base.{
  ap₂, inr, inl, Bool-cases, if◌then◌else◌, ℕ, zero, suc, ◌+◌, ◌-◌, ◌/◌, ◌%◌, ◌≤◌, ◌<◌, ◌≡◌, refl,
  ap, sym, ◌∙◌, List, [], ◌∷◌, ◌++◌, map, take, drop, ◌==◌, arith,
}
use fuzzing_rdma.Dump.{Out, received, address, byte, space, newline}

-- the bytes in a dump
abbrev pub bytes : List Out → List ℕ
bytes [] = []
bytes (byte b ∷ out) = b ∷ bytes out
bytes (received ∷ out) = bytes out
bytes (address n ∷ out) = bytes out
bytes (space ∷ out) = bytes out
bytes (newline ∷ out) = bytes out

-- the offsets in a dump
abbrev pub offsets : List Out → List ℕ
offsets [] = []
offsets (address n ∷ out) = n ∷ offsets out
offsets (received ∷ out) = offsets out
offsets (byte n ∷ out) = offsets out
offsets (space ∷ out) = offsets out
offsets (newline ∷ out) = offsets out

bytes-append : (xs ys : List Out) → bytes (xs ++ ys) ≡ bytes xs ++ bytes ys
bytes-append [] ys = refl
bytes-append (byte b ∷ xs) ys = ap (λ t. b ∷ t) (bytes-append xs ys)
bytes-append (received ∷ xs) ys = bytes-append xs ys
bytes-append (address n ∷ xs) ys = bytes-append xs ys
bytes-append (space ∷ xs) ys = bytes-append xs ys
bytes-append (newline ∷ xs) ys = bytes-append xs ys

pub offsets-append : (xs ys : List Out) → offsets (xs ++ ys) ≡ offsets xs ++ offsets ys
offsets-append [] ys = refl
offsets-append (address b ∷ xs) ys = ap (λ t. b ∷ t) (offsets-append xs ys)
offsets-append (received ∷ xs) ys = offsets-append xs ys
offsets-append (byte n ∷ xs) ys = offsets-append xs ys
offsets-append (space ∷ xs) ys = offsets-append xs ys
offsets-append (newline ∷ xs) ys = offsets-append xs ys

-- The offsets of `rows` rows from `start` on, as four digits show them.
abbrev pub row_offsets : ℕ → ℕ → List ℕ
row_offsets zero start = []
row_offsets (suc rows) start = start % 65536 ∷ row_offsets rows (start + 16)

abbrev pub low_byte : ℕ → ℕ
low_byte b = b % 256

-- A part of a dump with given bytes and no offset.
abbrev pub Prints : List ℕ → List Out → Type 0
Prints xs out = (bytes out ≡ xs) × (offsets out ≡ [])

sub-zero : (n k : ℕ) → n ≤ k → n - k ≡ 0
sub-zero n k h = omega arith

pub take_none : (n k : ℕ) (p : List ℕ) → n ≤ k → take (n - k) p ≡ []
take_none n k p h = ap (λ t. take t p) (sub-zero n k h)

pub one_row : (m : ℕ) → m < 16 → m / 16 + 1 ≡ 1
one_row m h = omega arith

pub spaced :
    (i : ℕ) (out : List Out) (xs : List ℕ)
    → Prints xs out
    → Prints xs (if i % 2 == 0 then space ∷ out else out)
spaced i out xs h = elim (Bool-cases (i % 2 == 0)) [ inl e ↦ rw e h | inr e ↦ rw e h ]

take-nil : (n : ℕ) → take {A = ℕ} n [] ≡ []
take-nil zero = refl
take-nil (suc n) = refl

take-add : (a m : ℕ) (p : List ℕ) → take (a + m) p ≡ take a p ++ take m (drop a p)
take-add zero m p = ap (λ t. take t p) (add.zero m)
take-add (suc a) m [] = take-nil (suc a + m) ∙ sym (take-nil m)
take-add (suc a) m (x ∷ p) = rw (suc-add a m) (ap (λ t. x ∷ t) (take-add a m p))

pub whole_row : (n k : ℕ) → k + 16 ≤ n → n - k ≡ 16 + (n - (k + 16))
whole_row n k h = omega arith

pub row_count : (n k : ℕ) → k + 16 ≤ n → (n - k) / 16 + 1 ≡ suc ((n - (k + 16)) / 16 + 1)
row_count n k h = omega arith

pub bytes_join :
    (out more : List Out) (m : ℕ) (p : List ℕ)
    → bytes out ≡ map low_byte (take 16 p)
    → bytes more ≡ map low_byte (take m (drop 16 p))
    → bytes (out ++ more) ≡ map low_byte (take (16 + m) p)
bytes_join out more m p h k =
    bytes-append out more
    ∙ ap₂ ◌++◌ h k
    ∙ sym (map-append low_byte (take 16 p) (take m (drop 16 p)))
    ∙ ap (map low_byte) (sym (take-add 16 m p))
