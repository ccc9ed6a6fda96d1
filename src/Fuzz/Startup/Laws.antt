-- ===== src/Fuzz/Startup/Laws.antt =====
-- What the start guarantees to the loops: names that fit the kernel's field, descriptors that are
-- open, and no descriptor left behind by a device that could not be opened.
use fuzzing_rdma.Base.{
  is_negative, inr, ltb→lt, inl, ltb, not, ℕ, ◌≤◌, ◌<◌, ◌≡◌, ◌⊎◌, refl, Bool, true, false, List, [],
  ◌∷◌, length, take, ℤ, arith, Bool-cases,
}
use fuzzing_rdma.Fuzz.Startup.{
  config, Syscall, open_clonedev, tunsetiff, close, Kernel, Opt, c, s, unknown, Exit, goes_on,
  exits, if_name_size, tun_alloc, parse_options, or_default, device_names, open_devices, start,
}

-- The descriptor is open behind the calls, if `open` gave one.
abbrev is_left_open : ℤ → List Syscall → Bool
is_left_open fd [] = not (is_negative fd)
is_left_open fd (open_clonedev ∷ calls) = is_left_open fd calls
is_left_open fd (tunsetiff _ _ _ ∷ calls) = is_left_open fd calls
is_left_open fd (close _ ∷ calls) = false

-- `tun_alloc` leaves a descriptor open exactly when it returns one, and returns one exactly if
-- both of its calls succeed; then `dev` is the name that the kernel gave, and otherwise `dev` is
-- unchanged.
tun_alloc_lem :
    (k : Kernel) (dev : List ℕ) (flags : ℕ)
    → let (fd, dev', calls) = tun_alloc k dev flags in
      (is_left_open k.open_result calls ≡ not (is_negative fd))
      × (((is_negative fd ≡ false)
            × (is_negative (k.tunsetiff_result (take if_name_size dev) flags) ≡ false)
            × (fd ≡ k.open_result)
            × (dev' ≡ k.interface_name (take if_name_size dev) flags))
          ⊎ ((is_negative fd ≡ true) × (dev' ≡ dev)))
unfolding tun_alloc
tun_alloc_lem k dev flags = ground arith

Fits : Exit (List ℕ × List ℕ) → Type 0
Fits (exits code) = code ≡ 1
Fits (goes_on (client, server)) = (length client < 16) × (length server < 16)

parse_options-Fits :
    (client server : List ℕ) (opts : List Opt)
    → length client < 16
    → length server < 16
    → Fits (parse_options client server opts)
unfolding parse_options Fits
parse_options-Fits client server [] h k = (h, k)
parse_options-Fits client server (c optarg ∷ opts) h k =
    elim (Bool-cases (ltb (length optarg) 16)) [
      | inl e ↦ rw e (parse_options-Fits optarg server opts (ltb→lt (length optarg) 16 e) k)
      | inr e ↦ rw e refl
    ]
parse_options-Fits client server (s optarg ∷ opts) h k =
    elim (Bool-cases (ltb (length optarg) 16)) [
      | inl e ↦ rw e (parse_options-Fits client optarg opts h (ltb→lt (length optarg) 16 e))
      | inr e ↦ rw e refl
    ]
parse_options-Fits client server (unknown ∷ opts) h k = refl

or_default_bounds :
    (name default : List ℕ)
    → length name < 16
    → 3 ≤ length default
    → length default < 16
    → (3 ≤ length (or_default name default)) × (length (or_default name default) < 16)
unfolding or_default
or_default_bounds name default h k l = ground arith

-- Status 1, or two names that are at least three characters long and fit the field of the request
-- with their terminating zero.
abbrev pub NamesFit : Exit (List ℕ × List ℕ) → Type 0
NamesFit (exits code) = code ≡ 1
NamesFit (goes_on (client, server)) =
    (3 ≤ length client) × (length client < 16) × (3 ≤ length server) × (length server < 16)

-- Whatever the options, `main` exits with status 1 or goes on with two names that are at least
-- three characters long and fit the field of the request with their terminating zero.
pub device_names-fit : (opts : List Opt) → NamesFit (device_names opts)
unfolding device_names Fits
device_names-fit opts =
    go (parse_options [] [] opts) (parse_options-Fits [] [] opts (omega arith) (omega arith))
  where
    go :
        (e : Exit (List ℕ × List ℕ))
        → Fits e
        → NamesFit (elim e [
          | exits code ↦ exits code
          | goes_on (client, server) ↦
              goes_on
                (or_default client config.client_dev_name, or_default server config.server_dev_name)
        ])
    go (exits code) h = h
    go (goes_on (client, server)) h =
        let (a, b) =
          or_default_bounds client config.client_dev_name h.0 (omega arith) (omega arith) in
        let (d, e) =
          or_default_bounds server config.server_dev_name h.1 (omega arith) (omega arith) in
        (a, b, d, e)

-- Status 1, or two descriptors that are no errors.
abbrev pub Opened : Exit (ℤ × ℤ) → Type 0
Opened (exits code) = code ≡ 1
Opened (goes_on (fd, fd')) = (is_negative fd ≡ false) × (is_negative fd' ≡ false)

pub start_of_names :
    (iff_tap : ℕ) (k k' : Kernel) (e : Exit (List ℕ × List ℕ))
    → NamesFit e
    → Opened (open_devices iff_tap k k' e)
unfolding open_devices
start_of_names iff_tap k k' (exits code) h = h
start_of_names iff_tap k k' (goes_on (client, server)) h =
    elim (Bool-cases (is_negative (tun_alloc k client iff_tap).0)) [
      | inl e ↦ rw e refl
      | inr e ↦ elim (Bool-cases (is_negative (tun_alloc k' server iff_tap).0)) [
        | inl e' ↦ rw (e, e') refl
        | inr e' ↦ rw (e, e') (e, e')
      ]
    ]

-- Whatever the options and the answers of the kernel, `main` reaches its loops with two
-- descriptors that are no errors, or exits with status 1.
pub start-Opened :
    (iff_tap : ℕ) (k k' : Kernel) (opts : List Opt) → Opened (start iff_tap k k' opts)
unfolding start
start-Opened iff_tap k k' opts =
    start_of_names iff_tap k k' (device_names opts) (device_names-fit opts)
