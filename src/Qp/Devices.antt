-- ===== src/Qp/Devices.antt =====
-- `main` of programs/rdma-progs/client-server/client.c and server.c: the options, and the search
-- for the device that is named. What `getopt` and `ibv_get_device_list` return is a parameter.
pub mod Laws
use fuzzing_rdma.Base.{
  ℕ, zero, suc, ◌+◌, Bool, true, false, Option, none, some, List, [], ◌∷◌, length, get_elem?, ltb,
  if◌then◌else◌, same_text,
}

-- How a `main` goes on: with exit(1), with a write beyond a buffer, or with the run of a device,
-- by its index, and the name of the database file.
pub data Main : Type 0 where
  exits : Main
  overflows : Main
  runs : ℕ → List ℕ → Main

-- The loop over the devices from index `i` on.
pub find_device : List ℕ → List (List ℕ) → ℕ → Option ℕ → Option ℕ
find_device dev_name [] i device = device
find_device dev_name (name ∷ names) i device =
    find_device dev_name names (i + 1) (if same_text dev_name name then some i else device)

-- From the device list on; a null pointer is `none`.
pub run_device : List ℕ → List ℕ → Option (List (List ℕ)) → Main
run_device dev_name db_file none = exits
run_device dev_name db_file (some names) = elim (find_device dev_name names 0 none) [
  | none ↦ exits
  | some i ↦ runs i db_file
]

-- `main` of the client, on `argv`; `dev_name` has 50 bytes.
unfoldable pub main_client : List (List ℕ) → Option (List (List ℕ)) → Main
unfolding run_device
main_client argv device_list = elim (get_elem? argv 1) [
  | none ↦ exits
  | some arg ↦ if ltb (length arg) 50 then run_device arg [] device_list else overflows
]

-- What `getopt(argc, argv, "hd:")` returns, with `optarg`.
pub data ServerOption : Type 0 where
  d : List ℕ → ServerOption
  h : ServerOption
  unknown : ServerOption

abbrev pub default_db : List ℕ
default_db = b'd' ∷ b'b' ∷ b'.' ∷ b't' ∷ b'x' ∷ b't' ∷ []

-- The loop over the options, from the database file so far, and the search behind it. `db_file`
-- has 30 bytes; `print_usage` exits.
pub read_options : List ℕ → List ℕ → List ServerOption → Option (List (List ℕ)) → Main
unfolding run_device
read_options dev_name db_file [] device_list = run_device dev_name db_file device_list
read_options dev_name db_file (d optarg ∷ opts) device_list =
    let rest = read_options dev_name optarg opts device_list in
    if ltb (length optarg) 30 then rest else overflows
read_options dev_name db_file (h ∷ opts) device_list = exits
read_options dev_name db_file (unknown ∷ opts) device_list = exits

-- `main` of the server.
unfoldable pub main_server : List (List ℕ) → List ServerOption → Option (List (List ℕ)) → Main
unfolding read_options
main_server argv opts device_list = elim (get_elem? argv 1) [
  | none ↦ exits
  | some arg ↦
      if ltb (length arg) 50 then read_options arg default_db opts device_list else overflows
]
