-- ===== src/Listing.antt =====
-- vagrant-environment/list_devices/list_devices.c: the names of the devices and their GIDs. The
-- verbs library is a parameter; what is printed is a list of texts.
pub mod Laws
mod Tests
use fuzzing_rdma.Base.{
  ℕ, ◌+◌, ◌/◌, ◌%◌, Bool, Option, none, some, List, [], ◌∷◌, ◌++◌, ltb, ◌==◌, if◌then◌else◌, length,
}

-- "%X" of a digit and of a byte
abbrev pub hex_digit : ℕ → ℕ
hex_digit d = if ltb d 10 then b'0' + d else 55 + d

unfoldable pub hex_byte : ℕ → List ℕ
hex_byte b = if ltb b 16 then hex_digit b ∷ [] else hex_digit (b / 16) ∷ hex_digit (b % 16) ∷ []

-- The loop over all bytes but the last, with a colon behind each, and the last byte.
unfoldable pub gid_text : List ℕ → List ℕ
unfolding hex_byte
gid_text [] = []
gid_text (b ∷ []) = hex_byte b
gid_text (b ∷ c ∷ raw) = hex_byte b ++ (b':' ∷ gid_text (c ∷ raw))

-- A device: its name, whether it opens, and the answers to the two queries.
pub record Device : Type 0 where
  pub name : List ℕ
  pub opens : Bool
  pub query_port : ℕ
  pub query_gid : Option (List ℕ)

-- A line that is printed.
pub data Line : Type 0 where
  found : ℕ → Line
  device_name : List ℕ → Line
  gid : List ℕ → Line

-- A round of the loop; `none` is the exit with status 1.
abbrev pub device_gid : Device → Option (List ℕ)
device_gid device =
    if device.opens then (if device.query_port == 0 then device.query_gid else none) else none

-- The lines and the status of a round, from those of the rounds behind it.
abbrev pub print_device : List ℕ → Option (List ℕ) → List Line × ℕ → List Line × ℕ
print_device name none rest = (device_name name ∷ [], 1)
print_device name (some raw) (lines, status) =
    (device_name name ∷ gid (gid_text raw) ∷ lines, status)

-- The loop over the devices.
unfoldable pub print_devices : List Device → List Line × ℕ
print_devices [] = ([], 0)
print_devices (device ∷ devices) =
    print_device device.name (device_gid device) (print_devices devices)

unfoldable pub print_device_information : List Device → List Line × ℕ
unfolding print_devices
print_device_information device_list =
    let (lines, status) = print_devices device_list in (found (length device_list) ∷ lines, status)

unfoldable pub main : Option (List Device) → List Line × ℕ
unfolding print_device_information
main none = ([], 1)
main (some device_list) = print_device_information device_list
