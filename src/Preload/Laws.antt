-- ===== src/Preload/Laws.antt =====
-- Behind the wrappers a program runs as if it had given no mode to `open`, and what they print is
-- the record of its calls.
use fuzzing_rdma.Base.{Option, none, as_int, refl, ℕ, ℤ, ◌≡◌, sym, ap, ◌∙◌, List, [], ◌∷◌, ◌++◌}
use mathlib.Core.Path.{subst}
use mathlib.Core.List.{append_assoc, append-nil}
use fuzzing_rdma.Preload.{
  Library, Output, opening, descriptor, calling, open_wrapped, ioctl_wrapped, preloaded,
}

-- A program, as the calls that it makes and how it goes on with their results. A call of `open`
-- gives a mode or leaves it out.
pub data Program (A : Type 0) : Type 0 where
  returns : A → Program A
  opens : List ℕ → ℕ → Option ℕ → (ℤ → Program A) → Program A
  requests : ℤ → ℕ → ℕ → (ℤ → Program A) → Program A

-- The program that gives no mode to `open`, and is the same otherwise.
abbrev pub without_modes : {A : Type 0} → Program A → Program A
without_modes (returns a) = returns a
without_modes (opens pathname flags mode k) = opens pathname flags none (λ fd. without_modes (k fd))
without_modes (requests fd request argp k) =
    requests fd request argp (λ result. without_modes (k result))

-- A program that never gives a mode, whatever the results of its calls.
abbrev pub GivesNoMode : {A : Type 0} → Program A → Type 0
GivesNoMode (returns a) = Unit {0}
GivesNoMode (opens pathname flags mode k) = (mode ≡ none) × ((fd : ℤ) → GivesNoMode (k fd))
GivesNoMode (requests fd request argp k) = (result : ℤ) → GivesNoMode (k result)

without_modes_same : {A : Type 0} (p : Program A) → GivesNoMode p → without_modes p ≡ p
without_modes_same (returns a) h = refl
without_modes_same (opens pathname flags mode k) (e, h) =
    λ i. opens pathname flags (sym e i) (λ fd. without_modes_same (k fd) (h fd) i)
without_modes_same (requests fd request argp k) h =
    λ i. requests fd request argp (λ result. without_modes_same (k result) (h result) i)

-- A call with its result.
pub data Call : Type 0 where
  opened : List ℕ → ℕ → ℤ → Call
  requested : ℤ → ℕ → ℕ → ℤ → Call

-- What a call is reported as.
abbrev report : Call → List Output
report (opened pathname flags fd) = opening pathname ∷ descriptor fd ∷ []
report (requested fd request argp result) = calling fd request (as_int argp) ∷ []

abbrev pub reports : List Call → List Output
reports [] = []
reports (call ∷ calls) = report call ++ reports calls

module _ {S A : Type 0} where
  -- The run of a program on a library: its result, and the state.
  unfoldable pub execute : Library S → Program A → S → A × S
  execute lib (returns a) s = (a, s)
  execute lib (opens pathname flags mode k) s =
      let (fd, s') = lib.open_real pathname flags mode s in execute lib (k fd) s'
  execute lib (requests fd request argp k) s =
      let (result, s') = lib.ioctl_real fd request argp s in execute lib (k result) s'

  -- The calls that a run makes.
  unfoldable pub calls_of : Library S → Program A → S → List Call
  calls_of lib (returns a) s = []
  calls_of lib (opens pathname flags mode k) s =
      let (fd, s') = lib.open_real pathname flags mode s in
      opened pathname flags fd ∷ calls_of lib (k fd) s'
  calls_of lib (requests fd request argp k) s =
      let (result, s') = lib.ioctl_real fd request argp s in
      requested fd request argp result ∷ calls_of lib (k result) s'

module _ {S A : Type 0} (next : Library S) where
  -- Whatever the next library does: with the wrappers in front, a program has the result, and
  -- leaves the state behind, of the program that gives no mode to `open` and is the same
  -- otherwise, run without them; what is printed are the reports of the calls of that program, in
  -- order, behind what was printed before, with the address `argp` cut to an `int`.
  pub execute-preloaded :
      (p : Program A) (s : S) (printed : List Output)
      → let (a, s') = execute next (without_modes p) s in
        execute (preloaded next) p (s, printed)
        ≡ (a, (s', printed ++ reports (calls_of next (without_modes p) s)))
  unfolding execute calls_of preloaded open_wrapped ioctl_wrapped
  execute-preloaded (returns a) s printed = ap (λ l. (a, (s, l))) (sym (append-nil printed))
  execute-preloaded (opens pathname flags mode k) s printed =
      let (fd, s') = next.open_real pathname flags none s in
      execute-preloaded (k fd) s' (printed ++ (opening pathname ∷ descriptor fd ∷ []))
      ∙ ap
          (λ l. (
            (execute next (without_modes (k fd)) s').0,
            ((execute next (without_modes (k fd)) s').1, l),
          ))
          (append_assoc printed _ _)
  execute-preloaded (requests fd request argp k) s printed =
      let (result, s') = next.ioctl_real fd request argp s in
      execute-preloaded (k result) s' (printed ++ (calling fd request (as_int argp) ∷ []))
      ∙ ap
          (λ l. (
            (execute next (without_modes (k result)) s').0,
            ((execute next (without_modes (k result)) s').1, l),
          ))
          (append_assoc printed _ _)

  -- A program that gives no mode has the same result with the wrappers in front, and leaves the
  -- same state behind.
  execute-preloaded_same :
      (p : Program A) (s : S) (printed : List Output)
      → GivesNoMode p
      → let (a, s') = execute next p s in
        execute (preloaded next) p (s, printed) ≡ (a, (s', printed ++ reports (calls_of next p s)))
  execute-preloaded_same p s printed h =
      subst
        (λ q.
          execute (preloaded next) p (s, printed)
          ≡ ((execute next q s).0, ((execute next q s).1, printed ++ reports (calls_of next q s))))
        (without_modes_same p h) (execute-preloaded p s printed)
