-- ===== src/Listing/Tests.antt =====
-- Listings at hand.
use fuzzing_rdma.Base.{
  ℕ, ◌≡◌, refl, none, some, List, [], ◌∷◌, ◌++◌, map, length, replicate, arith, false,
}
use fuzzing_rdma.Listing.{Device, Line, found, main}
use fuzzing_rdma.Listing.Laws.{answering, read_lines, listing_lem}

abbrev two : List (List ℕ × List ℕ)
two = (b'a' ∷ [], 0xfe ∷ 0x80 ∷ replicate 14 7) ∷ (b'b' ∷ [], replicate 16 0) ∷ []

abbrev closed : Device
closed = record { name = b'c' ∷ []; opens = false; query_port = 0; query_gid = none }

listing_lem_example :
    ((lines : List Line) × (main (some (map answering two))
        ≡ (found (length (map answering two)) ∷ lines, 0))
      × (read_lines lines ≡ two))
    × ((main (some (map answering two ++ (closed ∷ [])))).1 ≡ 1)
listing_lem_example = listing_lem two closed [] (omega arith) refl
