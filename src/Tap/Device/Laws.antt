-- ===== src/Tap/Device/Laws.antt =====
-- What a device test keeps: an open descriptor or none, and the bounds of its buffer.
use fuzzing_rdma.Base.{
  is_negative, not, ℕ, ◌≤◌, ◌≡◌, ◌⊎◌, Bool, true, false, some, List, [], ◌∷◌, ◌++◌, map, length,
  take, drop, zeros, ℤ, pos, negsuc,
}
use fuzzing_rdma.Fuzz.Startup.{if_name_size}
use fuzzing_rdma.Fuzz.Tunnel.{Read, error, frame}
use fuzzing_rdma.Tap.Device.{
  Request, Kernel, Syscall, open_clonedev, ioctl, close, error_report, connected, nread_report, Run,
  returns, reads, buffer_size,
}

-- The frames that are read fit the buffer.
abbrev pub AllRead : List Read → Type 0
AllRead [] = Unit {0}
AllRead (error ∷ rds) = AllRead rds
AllRead (frame xs ∷ rds) = (length xs ≤ buffer_size) × AllRead rds

-- The descriptor is open behind the calls.
abbrev pub is_left_open : ℤ → List Syscall → Bool
is_left_open fd [] = not (is_negative fd)
is_left_open fd (open_clonedev ∷ calls) = is_left_open fd calls
is_left_open fd (ioctl _ _ _ _ ∷ calls) = is_left_open fd calls
is_left_open fd (close _ ∷ calls) = false

-- What the buffer holds behind the reads: each frame lies over what was there; an error of `read`
-- changes nothing.
abbrev pub overlay : List ℕ → List Read → List ℕ
overlay buffer [] = buffer
overlay buffer (error ∷ rds) = overlay buffer rds
overlay buffer (frame xs ∷ rds) = overlay (xs ++ drop (length xs) buffer) rds

-- The result of a `read`.
abbrev pub nread : Read → ℤ
nread error = negsuc 0
nread (frame xs) = pos (length xs)

-- Status 1 with no descriptor left open; or an open descriptor, and every `read` reported with the
-- name that the kernel gave, over a buffer that holds all the frames laid over one another.
abbrev pub IsTest : Request → List ℕ → ℕ → Kernel → List Read → Run → Type 0
IsTest request name flags k rds (returns code calls lines) =
    (code ≡ 1)
    × (is_left_open k.open_result calls ≡ false)
    × (lines ≡ error_report ∷ [])
    × ((is_negative k.open_result ≡ true)
        ⊎ (is_negative (k.ioctl_result request (take if_name_size name) flags) ≡ true))
IsTest request name flags k rds (reads calls o) =
    let dev_name = k.interface_name request (take if_name_size name) flags in
    (is_left_open k.open_result calls ≡ true)
    × (o
        ≡ some (
          overlay (zeros buffer_size) rds,
          connected dev_name ∷ map (λ rd. nread_report (nread rd) dev_name) rds,
        ))
