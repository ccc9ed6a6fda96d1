-- ===== src/Fuzz/Startup/Tests.antt =====
-- Runs of the start on options and kernels at hand.
use fuzzing_rdma.Base.{ℕ, ◌≡◌, refl, List, [], ◌∷◌, pos, negsuc}
use fuzzing_rdma.Fuzz.Startup.{Kernel, c, goes_on, exits, device_names, start}

abbrev working : Kernel
working = record {
  open_result = pos 5;
  tunsetiff_result = λ name flags. pos 0;
  interface_name = λ name flags. name;
}

abbrev refusing : Kernel
refusing = record {
  open_result = pos 5;
  tunsetiff_result = λ name flags. negsuc 0;
  interface_name = λ name flags. name;
}

abbrev tap7 : List ℕ
tap7 = b't' ∷ b'a' ∷ b'p' ∷ b'7' ∷ []

default_used : device_names (c tap7 ∷ []) ≡ goes_on (tap7, b't' ∷ b'a' ∷ b'p' ∷ b'3' ∷ [])
unfolding device_names
default_used = refl

refused : start 2 working refusing (c tap7 ∷ []) ≡ exits 1
unfolding start
refused = refl
