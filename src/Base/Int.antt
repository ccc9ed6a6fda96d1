-- ===== src/Base/Int.antt =====
-- The C type `int`: an integer, as the results of system calls use it.
use Prim.Native.Nat.{ℕ, suc, ◌-◌, ◌%◌, ◌^◌}
use mathlib.Core.Bool.{Bool, true, false}
use fuzzing_rdma.Base.Tests.{ltb, if◌then◌else◌}

-- `negsuc n` is -(n + 1).
pub data ℤ : Type 0 where
  pos : ℕ → ℤ
  negsuc : ℕ → ℤ

-- `a < b` for an `int` and a constant that is not negative
abbrev pub ltb_ℕ : ℤ → ℕ → Bool
ltb_ℕ (pos a) b = ltb a b
ltb_ℕ (negsuc a) b = true

-- The conversion of an `int` to `size_t`: a negative one wraps at 2 ^ 64.
abbrev pub size_t : ℤ → ℕ
size_t (pos n) = n
size_t (negsuc n) = 2 ^ 64 - suc n

-- `a < 0`
abbrev pub is_negative : ℤ → Bool
is_negative (pos n) = false
is_negative (negsuc n) = true

-- The conversion of a pointer or an `unsigned long` to `int`, as `%d` prints it: the lower 32 bits,
-- of which the upper half is negative.
abbrev pub as_int : ℕ → ℤ
as_int n = let low = n % 2 ^ 32 in if ltb low (2 ^ 31) then pos low else negsuc (2 ^ 32 - suc low)
