-- ===== src/Exchange/Decimal.antt =====
-- `%d` of the C library, as `sprintf` prints a number that is not negative and as `sscanf` reads
-- one. A text is a list of characters; the reader faults (`none`) where it runs off the end of
-- the list, since no zero ends the text. A number is read without a bound.
pub mod Laws
use fuzzing_rdma.Base.{
  ◌⊎◌, lt→ltb, length, ltb→lt, sym, ap, ℕ, zero, suc, ◌+◌, ◌-◌, ◌*◌, ◌/◌, ◌%◌, ◌^◌, ◌<◌, ◌≤◌, ◌≡◌,
  refl, ◌∙◌, Bool, true, false, ◌&&◌, ◌||◌, Option, none, some, List, [], ◌∷◌, ◌++◌, ltb, leb, ◌==◌,
  if◌then◌else◌, ℤ, pos, negsuc, Bool-cases, inl, inr, arith,
}

-- The digits of `n` in front of `acc`, at most as many as the fuel.
pub digits_before : ℕ → ℕ → List ℕ → List ℕ
digits_before zero n acc = acc
digits_before (suc fuel) n acc =
    let rest = digits_before fuel (n / 10) ((b'0' + n % 10) ∷ acc) in
    if ltb n 10 then (b'0' + n) ∷ acc else rest

-- ten digits, enough for an `int`
unfoldable pub print_int : ℕ → List ℕ
unfolding digits_before
print_int n = digits_before 10 n []

abbrev pub is_digit : ℕ → Bool
is_digit ch = leb b'0' ch && leb ch b'9'

abbrev pub is_space : ℕ → Bool
is_space ch = ch == 32 || (leb 9 ch && leb ch 13)

unfoldable pub scan_digits : ℕ → List ℕ → Option ℕ
scan_digits v [] = none
scan_digits v (ch ∷ text) =
    let rest = scan_digits (v * 10 + (ch - b'0')) text in if is_digit ch then rest else some v

-- The inner option is `none` where the text has no digit.
abbrev pub found : Option ℕ → Option (Option ℕ)
found none = none
found (some n) = some (some n)

unfoldable pub scan_unsigned : List ℕ → Option (Option ℕ)
scan_unsigned [] = none
scan_unsigned (ch ∷ text) = if is_digit ch then found (scan_digits 0 (ch ∷ text)) else some none

abbrev pub negate : ℕ → ℤ
negate zero = pos 0
negate (suc n) = negsuc n

abbrev pub signed : (ℕ → ℤ) → Option (Option ℕ) → Option (Option ℤ)
signed f none = none
signed f (some none) = some none
signed f (some (some n)) = some (some (f n))

unfoldable pub scan_signed : ℕ → List ℕ → Option (Option ℤ)
scan_signed ch text =
    if ch == b'-'
    then signed negate (scan_unsigned text)
    else if ch == b'+'
    then signed pos (scan_unsigned text)
    else signed pos (scan_unsigned (ch ∷ text))

unfoldable pub scan_int : List ℕ → Option (Option ℤ)
scan_int [] = none
scan_int (ch ∷ text) = let rest = scan_int text in if is_space ch then rest else scan_signed ch text
