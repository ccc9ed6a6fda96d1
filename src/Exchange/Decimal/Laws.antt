-- ===== src/Exchange/Decimal/Laws.antt =====
-- What `%d` prints, `%d` reads back, and the reader ends at a terminating zero.
use native.Mathlib.Nat.{pow-suc}
use fuzzing_rdma.Base.{
  ◌⊎◌, lt→ltb, length, ltb→lt, sym, ap, ℕ, zero, suc, ◌+◌, ◌-◌, ◌*◌, ◌/◌, ◌%◌, ◌^◌, ◌<◌, ◌≤◌, ◌≡◌,
  refl, ◌∙◌, true, false, Option, none, some, List, [], ◌∷◌, ◌++◌, ltb, ◌==◌, ℤ, pos, Bool-cases,
  inl, inr, arith,
}
use fuzzing_rdma.Exchange.Decimal.{
  print_int, digits_before, is_digit, is_space, scan_digits, found, scan_unsigned, negate, signed,
  scan_signed, scan_int,
}

-- The text has a terminating zero.
abbrev pub HasZero : List ℕ → Type 0
HasZero [] = ⊥
HasZero (ch ∷ text) = (ch ≡ 0) ⊎ HasZero text

digits_before-append :
    (fuel n : ℕ) (acc more : List ℕ)
    → digits_before fuel n acc ++ more ≡ digits_before fuel n (acc ++ more)
unfolding digits_before
digits_before-append zero n acc more = refl
digits_before-append (suc fuel) n acc more = elim (Bool-cases (ltb n 10)) [
  | inl e ↦ rw e refl
  | inr e ↦ rw e (digits_before-append fuel (n / 10) ((b'0' + n % 10) ∷ acc) more)
]

scan_digit :
    (v d : ℕ) (text : List ℕ)
    → d < 10
    → scan_digits v ((b'0' + d) ∷ text) ≡ scan_digits (v * 10 + d) text
unfolding scan_digits
scan_digit v d text h = rw (digit_is_digit, ap (λ t. scan_digits t text) value) refl
  where
    digit_is_digit : is_digit (b'0' + d) ≡ true
    digit_is_digit = ground arith

    value : v * 10 + (48 + d - 48) ≡ v * 10 + d
    value = omega arith

-- Reading the digits goes on behind them with their number.
scan_digits-digits_before :
    (fuel n : ℕ) (acc : List ℕ)
    → n < 10 ^ fuel
    → scan_digits 0 (digits_before fuel n acc) ≡ scan_digits n acc
unfolding digits_before
scan_digits-digits_before zero n acc h = ap (λ t. scan_digits t acc) (zero_of_lt n h)
  where
    zero_of_lt : (n : ℕ) → n < 10 ^ 0 → 0 ≡ n
    zero_of_lt n h = omega arith
scan_digits-digits_before (suc fuel) n acc h = elim (Bool-cases (ltb n 10)) [
  | inl e ↦ rw e (scan_digit 0 n acc (ltb→lt n 10 e) ∙ ap (λ t. scan_digits t acc) (value n))
  | inr e ↦ rw e (
      scan_digits-digits_before fuel (n / 10) ((b'0' + n % 10) ∷ acc)
        (omega (arith, pow-suc 10 fuel))
      ∙ scan_digit (n / 10) (n % 10) acc (omega arith)
      ∙ ap (λ t. scan_digits t acc) (quotient n))
]
  where
    value : (n : ℕ) → 0 * 10 + n ≡ n
    value n = omega arith

    quotient : (n : ℕ) → n / 10 * 10 + n % 10 ≡ n
    quotient n = omega arith

-- The text of a number begins with a digit.
digits_before-cons :
    (fuel n : ℕ) (acc : List ℕ)
    → (d : ℕ) × (text : List ℕ) × (d < 10) × (digits_before (suc fuel) n acc ≡ (b'0' + d) ∷ text)
unfolding digits_before
digits_before-cons zero n acc = elim (Bool-cases (ltb n 10)) [
  | inl e ↦ (n, acc, ltb→lt n 10 e, rw e refl)
  | inr e ↦ (n % 10, acc, omega arith, rw e refl)
]
digits_before-cons (suc fuel) n acc = elim (Bool-cases (ltb n 10)) [
  | inl e ↦ (n, acc, ltb→lt n 10 e, rw e refl)
  | inr e ↦
      let (d, text, h, f) = digits_before-cons fuel (n / 10) ((b'0' + n % 10) ∷ acc) in
      (d, text, h, rw e f)
]

scan_int_digit :
    (d : ℕ) (text : List ℕ)
    → d < 10
    → scan_int ((b'0' + d) ∷ text) ≡ signed pos (found (scan_digits 0 ((b'0' + d) ∷ text)))
unfolding scan_int scan_signed scan_unsigned
scan_int_digit d text h = rw (no_space, no_minus, no_plus, digit) refl
  where
    no_space : is_space (b'0' + d) ≡ false
    no_space = ground arith

    no_minus : (b'0' + d == b'-') ≡ false
    no_minus = ground arith

    no_plus : (b'0' + d == b'+') ≡ false
    no_plus = ground arith

    digit : is_digit (b'0' + d) ≡ true
    digit = ground arith

scan_digits_end : (v : ℕ) (text : List ℕ) → scan_digits v (0 ∷ text) ≡ some v
unfolding scan_digits
scan_digits_end v text = refl

-- What `%d` prints of a number of at most ten digits, `%d` reads back, up to the zero that ends
-- the text.
pub scan_int-print_int :
    (n : ℕ) (rest : List ℕ)
    → n < 10 ^ 10
    → scan_int (print_int n ++ (0 ∷ rest)) ≡ some (some (pos n))
unfolding print_int
scan_int-print_int n rest h =
    let (d, text, k, e) = digits_before-cons 9 n (0 ∷ rest) in
    ap scan_int (digits_before-append 10 n [] (0 ∷ rest) ∙ e)
    ∙ scan_int_digit d text k
    ∙ ap (λ t. signed pos (found t))
        (ap (scan_digits 0) (sym e)
          ∙ scan_digits-digits_before 10 n (0 ∷ rest) h
          ∙ scan_digits_end n rest)

length-digits_before :
    (fuel k n : ℕ) (acc : List ℕ)
    → k ≤ fuel
    → n < 10 ^ k
    → 0 < k
    → length (digits_before fuel n acc) ≤ k + length acc
unfolding digits_before
length-digits_before zero k n acc h l p = absurd (omega arith)
length-digits_before (suc fuel) zero n acc h l p = absurd (omega arith)
length-digits_before (suc fuel) (suc zero) n acc h l p = rw (lt→ltb n 10 l) (omega arith)
length-digits_before (suc fuel) (suc (suc k)) n acc h l p = elim (Bool-cases (ltb n 10)) [
  | inl e ↦ rw e (omega arith)
  | inr e ↦ rw e (
      omega (
        arith,
        length-digits_before fuel (suc k) (n / 10) ((b'0' + n % 10) ∷ acc) (omega arith)
            (omega (arith, pow-suc 10 (suc k))) (omega arith),
      ))
]

-- A number below 10 ^ k is printed in at most k characters.
pub length-print_int : (k n : ℕ) → 0 < k → k ≤ 10 → n < 10 ^ k → length (print_int n) ≤ k
unfolding print_int
length-print_int k n p h l = omega (arith, length-digits_before 10 k n [] h l p)

scan_digits_total : (v : ℕ) (text : List ℕ) → HasZero text → (n : ℕ) × (scan_digits v text ≡ some n)
unfolding scan_digits
scan_digits_total v [] h = absurd h
scan_digits_total v (ch ∷ text) (inl e) = (v, rw e refl)
scan_digits_total v (ch ∷ text) (inr h) = elim (Bool-cases (is_digit ch)) [
  | inl e ↦ rw e (scan_digits_total (v * 10 + (ch - b'0')) text h)
  | inr e ↦ (v, rw e refl)
]

scan_unsigned_total :
    (text : List ℕ) → HasZero text → (n : Option ℕ) × (scan_unsigned text ≡ some n)
unfolding scan_unsigned
scan_unsigned_total [] h = absurd h
scan_unsigned_total (ch ∷ text) h = elim (Bool-cases (is_digit ch)) [
  | inl e ↦ let (n, f) = scan_digits_total 0 (ch ∷ text) h in (some n, rw (e, f) refl)
  | inr e ↦ (none, rw e refl)
]

signed_total : (f : ℕ → ℤ) (n : Option ℕ) → (z : Option ℤ) × (signed f (some n) ≡ some z)
signed_total f none = (none, refl)
signed_total f (some n) = (some (f n), refl)

HasZero-tail : (ch : ℕ) (text : List ℕ) → 0 < ch → HasZero (ch ∷ text) → HasZero text
HasZero-tail ch text h (inl e) = absurd (omega arith)
HasZero-tail ch text h (inr k) = k

scan_signed_total :
    (ch : ℕ) (text : List ℕ) → HasZero (ch ∷ text) → (z : Option ℤ) × (scan_signed ch text ≡ some z)
unfolding scan_signed
scan_signed_total ch text h = elim (Bool-cases (ch == b'-')) [
  | inl e ↦
      let (n, f) = scan_unsigned_total text (HasZero-tail ch text (ground arith) h) in
      let (z, g) = signed_total negate n in (z, rw (e, f) g)
  | inr e ↦ elim (Bool-cases (ch == b'+')) [
    | inl e' ↦
        let (n, f) = scan_unsigned_total text (HasZero-tail ch text (ground arith) h) in
        let (z, g) = signed_total pos n in (z, rw (e, e', f) g)
    | inr e' ↦
        let (n, f) = scan_unsigned_total (ch ∷ text) h in
        let (z, g) = signed_total pos n in (z, rw (e, e', f) g)
  ]
]

-- With a terminating zero the reader ends inside the text.
pub scan_int_total : (text : List ℕ) → HasZero text → (z : Option ℤ) × (scan_int text ≡ some z)
unfolding scan_int
scan_int_total [] h = absurd h
scan_int_total (ch ∷ text) h = elim (Bool-cases (is_space ch)) [
  | inl e ↦ rw e (scan_int_total text (HasZero-tail ch text (ground arith) h))
  | inr e ↦ rw e (scan_signed_total ch text h)
]
