-- ===== src/Preload.antt =====
-- vagrant-environment/ld_preload/preloadfuncs.c: `open` and `ioctl` of the C library, wrapped so
-- that they print their arguments. What `dlsym(RTLD_NEXT, …)` finds is a parameter: the functions
-- of the next library, on a state of their own, which has the memory that `argp` points to. Its
-- `open` takes a mode that a caller may leave out, as the one of the C library does; what it does
-- without a mode that the flags ask for is its own.
pub mod Laws
mod Tests
use fuzzing_rdma.Base.{Option, none, as_int, ℕ, ℤ, List, [], ◌∷◌, ◌++◌}

-- The two functions of a library, on a state `S`. A path is the list of its characters, and
-- `argp` is an address.
pub record Library (S : Type 0) : Type 0 where
  pub open_real : (pathname : List ℕ) (flags : ℕ) (mode : Option ℕ) → S → ℤ × S
  pub ioctl_real : (fd : ℤ) (request argp : ℕ) → S → ℤ × S

-- A line that is printed; `argp` is printed with `%d`.
pub data Output : Type 0 where
  opening : (pathname : List ℕ) → Output
  descriptor : (fd : ℤ) → Output
  calling : (fd : ℤ) (request : ℕ) (argp : ℤ) → Output

-- The state of a library that prints: that of the next one, and the lines printed.
abbrev pub Printing : Type 0 → Type 0
Printing S = S × List Output

module _ {S : Type 0} where
  -- `open`, which has two parameters: it gives no mode to the function it wraps.
  pub open_wrapped : Library S → List ℕ → ℕ → Printing S → ℤ × Printing S
  open_wrapped next pathname flags (s, printed) =
      let (fd, s') = next.open_real pathname flags none s in
      (fd, (s', printed ++ (opening pathname ∷ descriptor fd ∷ [])))

  -- `ioctl`
  pub ioctl_wrapped : Library S → ℤ → ℕ → ℕ → Printing S → ℤ × Printing S
  ioctl_wrapped next fd request argp (s, printed) =
      let (result, s') = next.ioctl_real fd request argp s in
      (result, (s', printed ++ (calling fd request (as_int argp) ∷ [])))

  -- The library with the wrappers in front: the mode of a call does not get to the wrapper.
  pub preloaded : Library S → Library (Printing S)
  unfolding open_wrapped ioctl_wrapped
  preloaded next = record {
    open_real = λ pathname flags mode. open_wrapped next pathname flags;
    ioctl_real = ioctl_wrapped next;
  }
