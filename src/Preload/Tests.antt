-- ===== src/Preload/Tests.antt =====
-- A run with the wrappers at hand.
use fuzzing_rdma.Base.{none, some, negsuc, ◌^◌, ◌-◌, ℕ, suc, ◌≡◌, ℤ, pos, [], ◌∷◌}
use fuzzing_rdma.Preload.{Library, opening, descriptor, calling, preloaded}
use fuzzing_rdma.Preload.Laws.{
  Program, returns, opens, requests, execute, calls_of, execute-preloaded,
}

-- A system that numbers its descriptors, and tells by the number whether a mode was given; a request
-- gives its number.
abbrev counting : Library ℕ
counting = record {
  open_real = λ pathname flags mode n. elim mode [ none ↦ (pos n, suc n) | some m ↦ (pos m, n) ];
  ioctl_real = λ fd request argp n. (pos request, n);
}

abbrev asks_a_device : Program ℤ
asks_a_device =
    opens (b'/' ∷ []) 66 (some 420) (λ fd. requests fd 7 0x7fff80000000 (λ result. returns fd))

execute-preloaded_example : execute (preloaded counting) asks_a_device (3, []) ≡ (
  pos 3,
  (4, opening (b'/' ∷ []) ∷ descriptor (pos 3) ∷ calling (pos 3) 7 (negsuc (2 ^ 31 - 1)) ∷ []),
)
unfolding execute calls_of
execute-preloaded_example = execute-preloaded counting asks_a_device 3 []
