-- ===== src/Relay/Listen/Laws.antt =====
-- The listener does not survive a datagram.
use fuzzing_rdma.Base.{
  ℕ, none, some, List, [], ◌∷◌, ◌≡◌, inl, inr, refl, Option-cases, overwrite, c_string, ◌==◌, zeros,
  true, false,
}
use fuzzing_rdma.Relay.Ports.{is_minus_one}
use fuzzing_rdma.Relay.Listen.{Net, open_listener, sendto, step, run, exit_with, main}

-- The program comes to its loop.
abbrev pub Listens : Net → Type 0
Listens net =
    (net.argc == 2 ≡ true)
    × (net.own_address ≡ true)
    × (is_minus_one net.socket_listen ≡ false)
    × (net.binds ≡ true)

-- In every run that comes to its loop, the first datagram, whatever it holds, makes the program
-- use memory out of bounds, a variable that was never set or an address that is freed; with no
-- datagram it returns 0 having printed nothing.
pub listener_lem :
    (net : Net) (d : List ℕ) (rest : List (List ℕ))
    → Listens net
    → (main net (d ∷ rest) ≡ none) × (main net [] ≡ some (0, []))
unfolding main exit_with open_listener run step sendto
listener_lem net d rest (a, b, c, e) = (
  rw (a, b, c, e)
      (elim (Option-cases (overwrite (zeros 1024) d)) [
        | inl f ↦ rw f refl
        | inr (buf, f) ↦ elim (Option-cases (c_string buf)) [
          | inl g ↦ rw (f, g) refl
          | inr (text, g) ↦ rw (f, g) refl
        ]
      ]),
  rw (a, b, c, e) refl,
)
