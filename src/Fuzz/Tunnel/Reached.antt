-- ===== src/Fuzz/Tunnel/Reached.antt =====
-- What the client's channel can make of a RoCE frame.
use fuzzing_rdma.Base.{ℕ, ◌+◌, ◌≡◌, some, List, [], ◌∷◌, set, get_elem?, bit_xor}
use fuzzing_rdma.Fuzz.Bth.{BthHeaderOffset, offset}
use fuzzing_rdma.Fuzz.Bth.Reached.{AnnouncesNone, IsAllowed, IsExtended}

-- The frames that random numbers make of a frame: a byte of the header, outside the destination
-- queue pair, is set to any value, the transport version kept; and if the opcode of the result
-- announces an extension header, a byte of that is set to any value too. The numbers name each byte
-- and the mask between its values.
pub data Mutates (xs : List ℕ) : List ℕ → List ℕ → Type 0 where
  plain :
      {f : BthHeaderOffset} {b v : ℕ}
      → get_elem? xs (46 + offset f) ≡ some b
      → IsAllowed f b v
      → AnnouncesNone (set xs (46 + offset f) v)
      → Mutates xs (offset f ∷ bit_xor v b ∷ []) (set xs (46 + offset f) v)
  extended :
      {f : BthHeaderOffset} {b v j c w : ℕ}
      → get_elem? xs (46 + offset f) ≡ some b
      → IsAllowed f b v
      → IsExtended (set xs (46 + offset f) v) j c w
      → Mutates xs
          (offset f ∷ bit_xor v b ∷ j ∷ bit_xor w c ∷ [])
          (set (set xs (46 + offset f) v) (58 + j) w)

module _ {R : Type 0} (rand : R → ℕ × R) where
  -- The random numbers that come, one after the other.
  pub data Draws : R → List ℕ → R → Type 0 where
    done : {r : R} → Draws r [] r
    next :
        {r s t : R} {x : ℕ} {numbers : List ℕ}
        → rand r ≡ (x, s)
        → Draws s numbers t
        → Draws r (x ∷ numbers) t
