-- ===== src/Dump/Laws.antt =====
-- The dump prints each byte of the buffer once, in order, with the offset of each row, reads
-- nothing beyond the size given, and ends.
use native.Mathlib.Decide.{dec_lt}
use fuzzing_rdma.Base.{
  ap₂, length-drop, le→leb, lt→leb_false, if◌then◌else◌, ℕ, zero, suc, ◌+◌, ◌-◌, ◌/◌, ◌%◌, ◌≤◌, ◌<◌,
  ◌≡◌, refl, ap, sym, ◌∙◌, none, some, List, [], ◌∷◌, ◌++◌, map, length, take, drop, ◌==◌, pos,
  arith,
}
use fuzzing_rdma.Dump.{
  Out, received, address, byte, space, newline, print_row, print_rows, print_buffer,
  dump_buffer_bytes, print_buf_bytes,
}
use fuzzing_rdma.Dump.Printed.{
  bytes, offsets, offsets-append, row_offsets, low_byte, Prints, take_none, one_row, spaced,
  whole_row, row_count, bytes_join,
}

module _ (at_end : List Out) (ends : Prints [] at_end) where
  -- A row that the bytes fill.
  row_full :
      (left i k n : ℕ) (p : List ℕ)
      → k + left ≤ n
      → n ≤ k + length p
      → (out : List Out) × (print_row at_end left i k p n
          ≡ some (out, some (k + left, drop left p)))
        × Prints (map low_byte (take left p)) out
  unfolding print_row
  row_full zero i k n p h l =
      (newline ∷ [], ap (λ t. some (newline ∷ [], some (t, p))) (omega arith), (refl, refl))
  row_full (suc left) i k n [] h l = absurd (omega arith)
  row_full (suc left) i k n (b ∷ p) h l =
      let (out, e, pr) = row_full left (i + 1) (k + 1) n p (omega arith) (omega arith) in
      let (pb, po) = spaced i out (map low_byte (take left p)) pr in
      let moved : k + suc left ≡ k + 1 + left = omega arith in
      (
        byte (b % 256) ∷ (if i % 2 == 0 then space ∷ out else out),
        rw (lt→leb_false k n (omega arith), e, moved) refl,
        (ap (λ t. b % 256 ∷ t) pb, po),
      )

  -- A row in which the bytes end: the function returns there.
  row_last :
      (left i k n : ℕ) (p : List ℕ)
      → k ≤ n
      → n < k + left
      → n ≤ k + length p
      → (out : List Out) × (print_row at_end left i k p n ≡ some (out, none))
        × Prints (map low_byte (take (n - k) p)) out
  unfolding print_row
  row_last zero i k n p g h l = absurd (omega arith)
  row_last (suc left) i k n [] g h l =
      (at_end, rw (le→leb n k (omega arith)) refl, rw (take_none n k [] (omega arith)) ends)
  row_last (suc left) i k n (b ∷ p) g h l = elim (dec_lt k n) [
    | no q ↦
        (at_end, rw (le→leb n k (omega arith)) refl, rw (take_none n k (b ∷ p) (omega arith)) ends)
    | yes q ↦
        let (out, e, pr) =
          row_last left (i + 1) (k + 1) n p (omega arith) (omega arith) (omega arith) in
        let (pb, po) = spaced i out (map low_byte (take (n - (k + 1)) p)) pr in
        let one : n - k ≡ suc (n - (k + 1)) = omega arith in
        (
          byte (b % 256) ∷ (if i % 2 == 0 then space ∷ out else out),
          rw (lt→leb_false k n q, e) refl,
          rw one (ap (λ t. b % 256 ∷ t) pb, po),
        )
  ]

  -- All rows, with more fuel than whole rows are left.
  rows_lem :
      (fuel k start n : ℕ) (p : List ℕ)
      → k ≤ n
      → n ≤ k + length p
      → (n - k) / 16 < fuel
      → (out : List Out) × (print_rows at_end fuel k start p n ≡ some out)
        × (bytes out ≡ map low_byte (take (n - k) p))
        × (offsets out ≡ row_offsets ((n - k) / 16 + 1) start)
  unfolding print_rows
  rows_lem zero k start n p g l f = absurd (omega arith)
  rows_lem (suc fuel) k start n p g l f = elim (dec_lt n (k + 16)) [
    | yes h ↦
        let (out, e, (pb, po)) = row_last 16 1 k n p g h l in
        (
          address (start % 65536) ∷ out,
          rw (le→leb k n g, e) refl,
          pb,
          rw (one_row (n - k) (omega arith)) (ap (λ t. start % 65536 ∷ t) po),
        )
    | no h ↦
        let (out, e, (pb, po)) = row_full 16 1 k n p (omega arith) l in
        let (more, e', mb, mo) =
          rows_lem fuel (k + 16) (start + 16) n (drop 16 p) (omega arith)
            (omega (arith, length-drop 16 p)) (omega arith) in
        (
          address (start % 65536) ∷ (out ++ more),
          rw (le→leb k n g, e, e') refl,
          bytes_join out more (n - (k + 16)) p pb mb
              ∙ ap (λ t. map low_byte (take t p)) (sym (whole_row n k (omega arith))),
          ap (λ t. start % 65536 ∷ t) (offsets-append out more ∙ ap₂ ◌++◌ po mo)
              ∙ ap (λ t. row_offsets t start) (sym (row_count n k (omega arith))),
        )
  ]

minus_zero : (n : ℕ) → n - 0 ≡ n
minus_zero n = omega arith

-- The whole function, for a buffer that holds the bytes that are printed.
print_buffer_lem :
    (at_end : List Out)
    → Prints [] at_end
    → (buf : List ℕ) (n : ℕ) → n ≤ length buf
    → (out : List Out) × (print_buffer at_end buf (pos n) ≡ some out)
      × (bytes out ≡ map low_byte (take n buf))
      × (offsets out ≡ row_offsets (n / 16 + 1) 0)
unfolding print_buffer
print_buffer_lem at_end ends buf n h =
    let (out, e, b, o) =
      rows_lem at_end ends (n / 16 + 1) 0 0 n buf (omega arith) (omega arith) (omega arith) in
    (
      received ∷ out,
      rw e refl,
      b ∙ ap (λ t. map low_byte (take t buf)) (minus_zero n),
      o ∙ ap (λ t. row_offsets (t / 16 + 1) 0) (minus_zero n),
    )

-- `dump_buffer_bytes` returns for every size that the buffer holds; it prints the bytes of that
-- size in order, and the offset of each row of sixteen, one more than there are whole rows.
pub dump_buffer_bytes_lem :
    (buf : List ℕ) (n : ℕ)
    → n ≤ length buf
    → (out : List Out) × (dump_buffer_bytes buf (pos n) ≡ some out)
      × (bytes out ≡ map low_byte (take n buf))
      × (offsets out ≡ row_offsets (n / 16 + 1) 0)
unfolding dump_buffer_bytes
dump_buffer_bytes_lem = print_buffer_lem (newline ∷ []) (refl, refl)

-- `print_buf_bytes` returns for every size that the buffer holds; it prints the bytes of that
-- size in order, and the offset of each row of sixteen, one more than there are whole rows.
pub print_buf_bytes_lem :
    (buf : List ℕ) (n : ℕ)
    → n ≤ length buf
    → (out : List Out) × (print_buf_bytes buf (pos n) ≡ some out)
      × (bytes out ≡ map low_byte (take n buf))
      × (offsets out ≡ row_offsets (n / 16 + 1) 0)
unfolding print_buf_bytes
print_buf_bytes_lem = print_buffer_lem [] (refl, refl)
