-- ===== src/Qp/Devices/Laws.antt =====
-- Which device is run, and that short arguments stay inside their buffers.
use fuzzing_rdma.Base.{
  Option-cases, ℕ, suc, ◌+◌, ◌<◌, ◌≡◌, refl, sym, ap, ◌∙◌, Bool, true, false, Bool-cases, inl, inr,
  Option, none, some, List, [], ◌∷◌, length, get_elem?, lt→ltb, if◌then◌else◌, same_text,
  same_text_lem, some_inj, arith,
}
use fuzzing_rdma.Qp.Devices.{
  Main, exits, overflows, runs, find_device, run_device, main_client, ServerOption, d, h, unknown,
  default_db, read_options, main_server,
}

-- The index of the last device with a name, counted from the end.
abbrev pub last_index : List ℕ → List (List ℕ) → Option ℕ
last_index dev_name [] = none
last_index dev_name (name ∷ names) = elim (last_index dev_name names) [
  | some i ↦ some (suc i)
  | none ↦ if same_text dev_name name then some 0 else none
]

find_device_from :
    (dev_name : List ℕ) (names : List (List ℕ)) (i : ℕ) (device : Option ℕ)
    → find_device dev_name names i device
      ≡ elim (last_index dev_name names) [ none ↦ device | some k ↦ some (i + k) ]
unfolding find_device
find_device_from dev_name [] i device = refl
find_device_from dev_name (name ∷ names) i device =
    find_device_from dev_name names (i + 1) (if same_text dev_name name then some i else device)
    ∙ (elim (Option-cases (last_index dev_name names)) [
      | inl e ↦ elim (Bool-cases (same_text dev_name name)) [
        | inl f ↦ rw (e, f) (ap some (omega arith))
        | inr f ↦ rw (e, f) refl
      ]
      | inr (k, e) ↦ rw e (ap some (omega arith))
    ])

-- The loop over the devices ends with the last device of the name, if there is one.
pub find_device-eq-last_index :
    (dev_name : List ℕ) (names : List (List ℕ))
    → find_device dev_name names 0 none ≡ last_index dev_name names
find_device-eq-last_index dev_name names =
    find_device_from dev_name names 0 none ∙ (elim (Option-cases (last_index dev_name names)) [
      | inl e ↦ rw e refl
      | inr (k, e) ↦ rw e (ap some (omega arith))
    ])

last_index-some :
    (dev_name : List ℕ) (names : List (List ℕ)) (k : ℕ)
    → last_index dev_name names ≡ some k
    → get_elem? names k ≡ some dev_name
last_index-some dev_name [] k e = absurd (cc)
last_index-some dev_name (name ∷ names) k e =
    go (λ i f. last_index-some dev_name names i f) (last_index dev_name names) refl
      (same_text dev_name name) refl e
  where
    go :
        ((i : ℕ) → last_index dev_name names ≡ some i → get_elem? names i ≡ some dev_name)
        → (o : Option ℕ) → last_index dev_name names ≡ o
        → (b : Bool) → same_text dev_name name ≡ b
        → elim o [ some i ↦ some (suc i) | none ↦ if b then some 0 else none ] ≡ some k
        → get_elem? (name ∷ names) k ≡ some dev_name
    go ih none f true g e = rw (← some_inj e) (ap some (sym (same_text_lem dev_name name g)))
    go ih none f false g e = absurd (cc)
    go ih (some i) f b g e = rw (← some_inj e) (ih i f)

-- No write beyond a buffer; a device that is run has the name, and its file a short name.
abbrev pub IsRun : List ℕ → Option (List (List ℕ)) → Main → Type 0
IsRun dev_name device_list exits = Unit {0}
IsRun dev_name device_list overflows = ⊥
IsRun dev_name none (runs i db_file) = ⊥
IsRun dev_name (some names) (runs i db_file) =
    (get_elem? names i ≡ some dev_name) × (length db_file < 30)

-- Every file name among the options fits its buffer.
abbrev pub AreShort : List ServerOption → Type 0
AreShort [] = Unit {0}
AreShort (d optarg ∷ opts) = (length optarg < 30) × AreShort opts
AreShort (h ∷ opts) = AreShort opts
AreShort (unknown ∷ opts) = AreShort opts

run_device-IsRun :
    (dev_name db_file : List ℕ) (device_list : Option (List (List ℕ)))
    → length db_file < 30
    → IsRun dev_name device_list (run_device dev_name db_file device_list)
unfolding run_device
run_device-IsRun dev_name db_file none l = tt
run_device-IsRun dev_name db_file (some names) l = go (find_device dev_name names 0 none) refl
  where
    go :
        (o : Option ℕ)
        → find_device dev_name names 0 none ≡ o
        → IsRun dev_name (some names) (elim o [ none ↦ exits | some i ↦ runs i db_file ])
    go none e = tt
    go (some i) e =
        (last_index-some dev_name names i (sym (find_device-eq-last_index dev_name names) ∙ e), l)

read_options-IsRun :
    (dev_name db_file : List ℕ) (opts : List ServerOption) (device_list : Option (List (List ℕ)))
    → length db_file < 30
    → AreShort opts
    → IsRun dev_name device_list (read_options dev_name db_file opts device_list)
unfolding read_options
read_options-IsRun dev_name db_file [] list l s = run_device-IsRun dev_name db_file list l
read_options-IsRun dev_name db_file (d optarg ∷ opts) list l (k, s) =
    rw (lt→ltb (length optarg) 30 k) (read_options-IsRun dev_name optarg opts list k s)
read_options-IsRun dev_name db_file (h ∷ opts) list l s = tt
read_options-IsRun dev_name db_file (unknown ∷ opts) list l s = tt

-- If the name of the device has fewer than 50 characters and each file name fewer than 30, `main`
-- of the server exits, or it runs a device of that name with such a file name; it never writes
-- beyond its two buffers.
pub main_server-IsRun :
    (program arg : List ℕ) (args : List (List ℕ)) (opts : List ServerOption)
    (device_list : Option (List (List ℕ)))
    → length arg < 50
    → AreShort opts
    → IsRun arg device_list (main_server (program ∷ arg ∷ args) opts device_list)
unfolding main_server
main_server-IsRun program arg args opts list l s =
    rw (lt→ltb (length arg) 50 l) (read_options-IsRun arg default_db opts list (omega arith) s)

-- If the name of the device has fewer than 50 characters, `main` of the client exits, or it runs
-- a device of that name; it never writes beyond its buffer.
pub main_client-IsRun :
    (program arg : List ℕ) (args : List (List ℕ)) (device_list : Option (List (List ℕ)))
    → length arg < 50
    → IsRun arg device_list (main_client (program ∷ arg ∷ args) device_list)
unfolding main_client
main_client-IsRun program arg args list l =
    rw (lt→ltb (length arg) 50 l) (run_device-IsRun arg [] list (omega arith))
