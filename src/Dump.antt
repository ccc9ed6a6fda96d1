-- ===== src/Dump.antt =====
-- The hexadecimal dump of a buffer: `dump_buffer_bytes` of programs/proxy-fuzzer/proxy-f.c and
-- `print_buf_bytes` of programs/udp-proxy/ib_proxy_two.c, which differ only in what they print
-- when the bytes end. The pointer `p` is the rest of the buffer from it on.
pub mod Printed
pub mod Laws
mod Tests
use fuzzing_rdma.Base.{
  ℕ, zero, suc, ◌+◌, ◌/◌, ◌%◌, Bool, Option, none, some, List, [], ◌∷◌, ◌++◌, ◌==◌, leb,
  if◌then◌else◌, ◌>>=◌, ℤ, pos, negsuc,
}

-- What is printed: the first line, the offset of a row, two digits of a byte, a space, a new line.
pub data Out : Type 0 where
  received : Out
  address : ℕ → Out
  byte : ℕ → Out
  space : Out
  newline : Out

module _ (at_end : List Out) where
  -- The `for` loop of a row: `left` rounds are left of the sixteen. The second part of the result
  -- is `k` and `p` behind the row, or `none` if the function has returned; `none` as a whole is a
  -- read out of bounds.
  pub print_row : ℕ → ℕ → ℕ → List ℕ → ℕ → Option (List Out × Option (ℕ × List ℕ))
  print_row zero i k p n = some (newline ∷ [], some (k, p))
  print_row (suc left) i k [] n = if leb n k then some (at_end, none) else none
  print_row (suc left) i k (b ∷ p) n =
      let rest = print_row left (i + 1) (k + 1) p n in
      if leb n k
      then some (at_end, none)
      else rest >>= λ (out, s). some (byte (b % 256) ∷ (if i % 2 == 0 then space ∷ out else out), s)

  -- Behind a row: the end of the function, or the rows to come.
  next_row : List Out → Option (ℕ × List ℕ) → (ℕ × List ℕ → Option (List Out)) → Option (List Out)
  next_row out none rest = some out
  next_row out (some s) rest = rest s >>= λ more. some (out ++ more)

  -- The `while` loop, on fuel; `none` is a lack of fuel or a read out of bounds.
  pub print_rows : ℕ → ℕ → ℕ → List ℕ → ℕ → Option (List Out)
  unfolding next_row
  print_rows zero k bytes_range p n = none
  print_rows (suc fuel) k bytes_range p n =
      let row = print_row 16 1 k p n in
      let rest = λ (s : ℕ × List ℕ). print_rows fuel s.0 (bytes_range + 16) s.1 n in
      let out = row >>= λ (out, s). next_row (address (bytes_range % 65536) ∷ out) s rest in
      if leb k n then out else some (newline ∷ [])

  -- The whole function. A negative size fails the first test of the `while`.
  pub print_buffer : List ℕ → ℤ → Option (List Out)
  print_buffer buf (pos n) = print_rows (n / 16 + 1) 0 0 buf n >>= λ out. some (received ∷ out)
  print_buffer buf (negsuc n) = some (received ∷ newline ∷ [])

pub dump_buffer_bytes : List ℕ → ℤ → Option (List Out)
dump_buffer_bytes = print_buffer (newline ∷ [])

pub print_buf_bytes : List ℕ → ℤ → Option (List Out)
print_buf_bytes = print_buffer []
