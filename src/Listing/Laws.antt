-- ===== src/Listing/Laws.antt =====
-- The text of a GID tells the GID, and the program ends with status 0 exactly if every device
-- answers.
use fuzzing_rdma.Base.{
  ap₂, map, ◌-◌, ◌-◌, ℕ, ◌+◌, ◌*◌, ◌/◌, ◌%◌, ◌<◌, ◌≡◌, inl, inr, refl, sym, ap, ◌∙◌, true, false,
  Bool-cases, none, some, List, [], ◌∷◌, ◌++◌, length, ltb, ◌==◌, if◌then◌else◌, arith, ltb→lt,
}
use mathlib.Core.List.{append-nil}
use fuzzing_rdma.Listing.{
  hex_digit, hex_byte, gid_text, Device, Line, found, device_name, gid, device_gid, print_device,
  print_devices, print_device_information, main,
}

-- The value of a digit.
abbrev pub digit_value : ℕ → ℕ
digit_value ch = if ltb ch 58 then ch - 48 else ch - 55

-- An independent reader of such a text: `v` is the byte so far.
abbrev pub read_gid : ℕ → List ℕ → List ℕ
read_gid v [] = v ∷ []
read_gid v (ch ∷ text) =
    let next = read_gid 0 text in
    let more = read_gid (v * 16 + digit_value ch) text in if ch == 58 then v ∷ next else more

digit_value-hex_digit : (d : ℕ) → d < 16 → digit_value (hex_digit d) ≡ d
digit_value-hex_digit d h = ground arith

hex_digit-ne-colon : (d : ℕ) → d < 16 → (hex_digit d == 58) ≡ false
hex_digit-ne-colon d h = ground arith

read_digit :
    (v d : ℕ) (text : List ℕ)
    → d < 16
    → read_gid v (hex_digit d ∷ text) ≡ read_gid (v * 16 + d) text
read_digit v d text h = rw (hex_digit-ne-colon d h, digit_value-hex_digit d h) refl

read_byte : (b : ℕ) (text : List ℕ) → b < 256 → read_gid 0 (hex_byte b ++ text) ≡ read_gid b text
unfolding hex_byte
read_byte b text h = elim (Bool-cases (ltb b 16)) [
  | inl e ↦
      let small : b < 16 = ltb→lt b 16 e in
      let n : 0 * 16 + b ≡ b = omega arith in
      rw e (read_digit 0 b text small ∙ ap (λ v. read_gid v text) n)
  | inr e ↦
      let n : (0 * 16 + b / 16) * 16 + b % 16 ≡ b = omega arith in
      rw e (
        read_digit 0 (b / 16) (hex_digit (b % 16) ∷ text) (omega arith)
        ∙ read_digit (0 * 16 + b / 16) (b % 16) text (omega arith)
        ∙ ap (λ v. read_gid v text) n)
]

-- A number of bytes, one at least.
abbrev pub AreBytes : List ℕ → Type 0
AreBytes [] = ⊥
AreBytes (b ∷ []) = b < 256
AreBytes (b ∷ c ∷ raw) = (b < 256) × AreBytes (c ∷ raw)

-- The text that is printed for a GID is read back as the GID.
pub read_gid-gid_text : (raw : List ℕ) → AreBytes raw → read_gid 0 (gid_text raw) ≡ raw
unfolding gid_text
read_gid-gid_text [] h = absurd h
read_gid-gid_text (b ∷ []) h =
    ap (λ t. read_gid 0 t) (sym (append-nil (hex_byte b))) ∙ read_byte b [] h
read_gid-gid_text (b ∷ c ∷ raw) (h, k) =
    read_byte b (b':' ∷ gid_text (c ∷ raw)) h ∙ ap (λ t. b ∷ t) (read_gid-gid_text (c ∷ raw) k)

-- A device that answers, with its name and its GID.
abbrev pub answering : List ℕ × List ℕ → Device
answering (name, raw) = record { name = name; opens = true; query_port = 0; query_gid = some raw }

-- An independent reader of the lines: the names and the GIDs.
abbrev pub read_lines : List Line → List (List ℕ × List ℕ)
read_lines [] = []
read_lines (device_name name ∷ gid text ∷ lines) = (name, read_gid 0 text) ∷ read_lines lines
read_lines (device_name name ∷ lines) = read_lines lines
read_lines (gid text ∷ lines) = read_lines lines
read_lines (found n ∷ lines) = read_lines lines

-- All GIDs are of bytes.
abbrev pub AllBytes : List (List ℕ × List ℕ) → Type 0
AllBytes [] = Unit {0}
AllBytes ((name, raw) ∷ ds) = AreBytes raw × AllBytes ds

print_answering :
    (ds : List (List ℕ × List ℕ))
    → AllBytes ds
    → (lines : List Line) × (print_devices (map answering ds) ≡ (lines, 0))
      × (read_lines lines ≡ ds)
unfolding print_devices
print_answering [] h = ([], refl, refl)
print_answering ((name, raw) ∷ ds) (h, k) =
    let (lines, e, r) = print_answering ds k in
    (
      device_name name ∷ gid (gid_text raw) ∷ lines,
      rw e refl,
      ap₂ (λ g rest. (name, g) ∷ rest) (read_gid-gid_text raw h) r,
    )

print_silent :
    (ds : List (List ℕ × List ℕ)) (device : Device) (rest : List Device)
    → device_gid device ≡ none
    → (print_devices (map answering ds ++ (device ∷ rest))).1 ≡ 1
unfolding print_devices
print_silent [] device rest e = ap (λ o. (print_device device.name o (print_devices rest)).1) e
print_silent ((name, raw) ∷ ds) device rest e = print_silent ds device rest e

-- Devices that answer with GIDs of one byte or more are listed: the lines behind the number are
-- read back as the names and the GIDs of all of them, in order, and the status is 0. A device that
-- does not answer, wherever it stands, makes the status 1.
pub listing_lem :
    (ds : List (List ℕ × List ℕ)) (device : Device) (rest : List Device)
    → AllBytes ds
    → device_gid device ≡ none
    → ((lines : List Line) × (main (some (map answering ds))
          ≡ (found (length (map answering ds)) ∷ lines, 0))
        × (read_lines lines ≡ ds))
      × ((main (some (map answering ds ++ (device ∷ rest)))).1 ≡ 1)
unfolding main print_device_information
listing_lem ds device rest h silent =
    let (lines, e, k) = print_answering ds h in
    ((lines, rw e refl, k), print_silent ds device rest silent)
