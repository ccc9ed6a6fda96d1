-- ===== src/Fuzz/Startup.antt =====
-- The start of programs/proxy-fuzzer/proxy-f.c: the options of `main`, and `tun_alloc`, which
-- opens a device. A C string is the list of its characters in front of the terminating zero.
-- What `getopt`, `open` and `ioctl` return is not the program's: they are parameters.
pub mod Laws
mod Tests
use fuzzing_rdma.Base.{
  is_negative, ℕ, zero, suc, ◌+◌, Bool, true, false, Option, none, some, List, [], ◌∷◌, length,
  take, ltb, if◌then◌else◌, ℤ, pos, negsuc,
}

-- IFNAMSIZ of <linux/if.h>
abbrev pub if_name_size : ℕ
if_name_size = 16

-- The calls of `tun_alloc` to the kernel: TUNSETIFF with the name and the flags of the request.
pub data Syscall : Type 0 where
  open_clonedev : Syscall
  tunsetiff : ℤ → List ℕ → ℕ → Syscall
  close : ℤ → Syscall

-- The answers of the kernel: a descriptor or a negative error, and for a request its result and
-- the name that the kernel puts into it.
pub record Kernel : Type 0 where
  pub open_result : ℤ
  pub tunsetiff_result : List ℕ → ℕ → ℤ
  pub interface_name : List ℕ → ℕ → List ℕ

-- The result is the descriptor or the error, the string `dev` behind the call, and the calls made.
-- `strncpy` into the cleared request keeps the first IFNAMSIZ characters.
unfoldable pub tun_alloc : Kernel → List ℕ → ℕ → ℤ × List ℕ × List Syscall
tun_alloc k dev flags =
    let fd = k.open_result in
    let ifr_name = take if_name_size dev in
    let err = k.tunsetiff_result ifr_name flags in
    if is_negative fd
    then (fd, dev, open_clonedev ∷ [])
    else if is_negative err
    then (err, dev, open_clonedev ∷ tunsetiff fd ifr_name flags ∷ close fd ∷ [])
    else (fd, k.interface_name ifr_name flags, open_clonedev ∷ tunsetiff fd ifr_name flags ∷ [])

-- What `getopt(argc, argv, "c:s:")` returns, with `optarg`.
pub data Opt : Type 0 where
  c : List ℕ → Opt
  s : List ℕ → Opt
  unknown : Opt

-- A run that goes on, or that ends with an exit status.
pub data Exit (A : Type 0) : Type 0 where
  goes_on : A → Exit A
  exits : ℕ → Exit A

abbrev pub exit_failure : ℕ
exit_failure = 1

-- `struct config_params config`: "tap2", "tap3" and "./packet_dump.log"
pub record ConfigParams : Type 0 where
  pub client_dev_name : List ℕ
  pub server_dev_name : List ℕ
  pub log_file : List ℕ

abbrev pub config : ConfigParams
config = record {
  log_file =
      b'.' ∷ b'/' ∷ b'p' ∷ b'a' ∷ b'c' ∷ b'k' ∷ b'e' ∷ b't' ∷ b'_' ∷ b'd' ∷ b'u' ∷ b'm' ∷ b'p'
      ∷ b'.' ∷ b'l' ∷ b'o' ∷ b'g' ∷ [];
  client_dev_name = b't' ∷ b'a' ∷ b'p' ∷ b'2' ∷ [];
  server_dev_name = b't' ∷ b'a' ∷ b'p' ∷ b'3' ∷ [];
}

-- The loop over the options, from the names so far.
unfoldable pub parse_options : List ℕ → List ℕ → List Opt → Exit (List ℕ × List ℕ)
parse_options client server [] = goes_on (client, server)
parse_options client server (c optarg ∷ opts) =
    let rest = parse_options optarg server opts in
    if ltb (length optarg) if_name_size then rest else exits exit_failure
parse_options client server (s optarg ∷ opts) =
    let rest = parse_options client optarg opts in
    if ltb (length optarg) if_name_size then rest else exits exit_failure
parse_options client server (unknown ∷ opts) = exits exit_failure

-- a name of fewer than three characters gives way to the configured one
pub or_default : List ℕ → List ℕ → List ℕ
or_default name default = if ltb (length name) 3 then default else name

-- The names that `main` opens.
unfoldable pub device_names : List Opt → Exit (List ℕ × List ℕ)
unfolding parse_options or_default
device_names opts = elim (parse_options [] [] opts) [
  | exits code ↦ exits code
  | goes_on (client, server) ↦
      goes_on (or_default client config.client_dev_name, or_default server config.server_dev_name)
]

-- The two calls of `tun_alloc`, with the exits between them.
pub open_devices : ℕ → Kernel → Kernel → Exit (List ℕ × List ℕ) → Exit (ℤ × ℤ)
open_devices iff_tap k k' (exits code) = exits code
open_devices iff_tap k k' (goes_on (client, server)) =
    let client_tap_fd = (tun_alloc k client iff_tap).0 in
    let server_tap_fd = (tun_alloc k' server iff_tap).0 in
    if is_negative client_tap_fd
    then exits 1
    else if is_negative server_tap_fd
    then exits 1
    else goes_on (client_tap_fd, server_tap_fd)

-- `main` up to `fork`: the descriptors of the client's and of the server's device. `iff_tap` is
-- the flag IFF_TAP, and the two kernels answer for the two devices.
unfoldable pub start : ℕ → Kernel → Kernel → List Opt → Exit (ℤ × ℤ)
unfolding device_names open_devices tun_alloc
start iff_tap k k' opts = open_devices iff_tap k k' (device_names opts)
