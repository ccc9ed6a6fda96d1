-- ===== src/Dump/Tests.antt =====
-- Dumps of buffers at hand.
use fuzzing_rdma.Base.{ℕ, ◌≡◌, ◌/◌, ◌+◌, some, List, [], ◌∷◌, map, take, pos, arith}
use fuzzing_rdma.Dump.{Out, dump_buffer_bytes}
use fuzzing_rdma.Dump.Printed.{bytes, offsets, row_offsets, low_byte}
use fuzzing_rdma.Dump.Laws.{dump_buffer_bytes_lem}

abbrev three : List ℕ
three = 1 ∷ 2 ∷ 3 ∷ []

dump_buffer_bytes_lem_example :
    (out : List Out) × (dump_buffer_bytes three (pos 2) ≡ some out)
    × (bytes out ≡ map low_byte (take 2 three))
    × (offsets out ≡ row_offsets (2 / 16 + 1) 0)
dump_buffer_bytes_lem_example = dump_buffer_bytes_lem three 2 (omega arith)
