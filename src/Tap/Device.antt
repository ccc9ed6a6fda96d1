-- ===== src/Tap/Device.antt =====
-- programs/tapdev/tapdev.c and programs/proxy-fuzzer/tapdev.c: the tests of a device, which open
-- it and read from it for ever. They differ in the request of `ioctl` and in the name. What `open`
-- and `ioctl` return is not the programs': it is a parameter.
pub mod Laws
use fuzzing_rdma.Base.{
  is_negative, ℕ, zeros, Option, some, List, [], ◌∷◌, take, if◌then◌else◌, ◌>>=◌, ℤ,
}
use fuzzing_rdma.Fuzz.Startup.{if_name_size}
use fuzzing_rdma.Fuzz.Tunnel.{Read, read}

-- The requests of `ioctl`: TUNSETIFF in programs/tapdev, TUNGETIFF in programs/proxy-fuzzer.
pub data Request : Type 0 where
  tunsetiff : Request
  tungetiff : Request

-- The answers of the kernel: a descriptor or a negative error, and for a request its result and
-- the name that the kernel puts into it.
pub record Kernel : Type 0 where
  pub open_result : ℤ
  pub ioctl_result : Request → List ℕ → ℕ → ℤ
  pub interface_name : Request → List ℕ → ℕ → List ℕ

-- The calls of `tun_alloc` to the kernel, a request with its name and flags.
pub data Syscall : Type 0 where
  open_clonedev : Syscall
  ioctl : ℤ → Request → List ℕ → ℕ → Syscall
  close : ℤ → Syscall

-- The result is the descriptor or the error, the string `dev` behind the call, and the calls made.
pub tun_alloc : Request → Kernel → List ℕ → ℕ → ℤ × List ℕ × List Syscall
tun_alloc request k dev flags =
    let fd = k.open_result in
    let ifr_name = take if_name_size dev in
    let err = k.ioctl_result request ifr_name flags in
    if is_negative fd
    then (fd, dev, open_clonedev ∷ [])
    else if is_negative err
    then (err, dev, open_clonedev ∷ ioctl fd request ifr_name flags ∷ close fd ∷ [])
    else (
      fd,
      k.interface_name request ifr_name flags,
      open_clonedev ∷ ioctl fd request ifr_name flags ∷ [],
    )

-- What is printed behind the start: the name of the device, and the result of each `read`.
pub data Report : Type 0 where
  error_report : Report
  connected : List ℕ → Report
  nread_report : ℤ → List ℕ → Report

-- How far a run comes: to `return 1`, with the calls made, or to the loop, with what it has read.
-- `none` is an access out of bounds.
pub data Run : Type 0 where
  returns : ℕ → List Syscall → List Report → Run
  reads : List Syscall → Option (List ℕ × List Report) → Run

-- the size of the buffer
abbrev pub buffer_size : ℕ
buffer_size = 4096

-- The loop: the buffer, and the lines printed.
pub loop : List ℕ → List ℕ → List Read → Option (List ℕ × List Report)
loop dev_name buffer [] = some (buffer, [])
loop dev_name buffer (rd ∷ rds) = do
  (buffer', nread) ← read buffer rd
  (buffer'', lines) ← loop dev_name buffer' rds
  some (buffer'', nread_report nread dev_name ∷ lines)

-- `main` for the device of a name; `iff_tap` is the flag IFF_TAP.
pub test_device : Request → List ℕ → ℕ → Kernel → List Read → Run
unfolding tun_alloc loop
test_device request name iff_tap k rds =
    let (tapfd, dev_name, calls) = tun_alloc request k name iff_tap in
    if is_negative tapfd
    then returns 1 calls (error_report ∷ [])
    else reads calls (
        loop dev_name (zeros buffer_size) rds >>= λ (buffer, lines).
        some (buffer, connected dev_name ∷ lines))

-- programs/tapdev/tapdev.c
pub main_tapdev : ℕ → Kernel → List Read → Run
unfolding test_device
main_tapdev = test_device tunsetiff (b't' ∷ b'a' ∷ b'p' ∷ b'2' ∷ [])

-- programs/proxy-fuzzer/tapdev.c
pub main_proxy_tapdev : ℕ → Kernel → List Read → Run
unfolding test_device
main_proxy_tapdev = test_device tungetiff (b't' ∷ b'a' ∷ b'p' ∷ b'1' ∷ [])
