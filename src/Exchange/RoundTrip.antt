-- ===== src/Exchange/RoundTrip.antt =====
-- What one side prepares, the other side parses.
use fuzzing_rdma.Base.{
  inr, inl, ltb_ℕ, Bool-cases, length-drop, drop-append, take_self, take-append, false,
  length-append, ℕ, zero, suc, ◌+◌, ◌^◌, ◌<◌, ◌≤◌, ◌≡◌, refl, ap, ◌∙◌, none, some, List, [], ◌∷◌,
  ◌++◌, length, take, drop, zeros, overwrite_lem, clear_lem, length-zeros, ltb, ℤ, pos, arith,
}
use mathlib.Core.List.{append-nil, append_assoc}
use fuzzing_rdma.Exchange.{ConnInf, read_bytes, prepare_msg, set_qpn, parse_conn_inf}
use fuzzing_rdma.Exchange.Decimal.{print_int}
use fuzzing_rdma.Exchange.Decimal.Laws.{
  scan_int_total, HasZero, scan_int-print_int, length-print_int,
}

read_bytes_lem : (n : ℕ) (p : List ℕ) → n ≤ length p → read_bytes n p ≡ some (take n p)
unfolding read_bytes
read_bytes_lem zero p h = refl
read_bytes_lem (suc n) [] h = absurd (omega arith)
read_bytes_lem (suc n) (b ∷ p) h = rw (read_bytes_lem n p (omega arith)) refl

-- The message: the GID, the text of the number, and zeros up to the size of the object.
abbrev pub message : List ℕ → List ℕ → ℕ → List ℕ
message gid qpn size = gid ++ (qpn ++ (0 ∷ drop (length gid + length qpn + 1) (zeros size)))

drop_text : (gid qpn rest : List ℕ) → (gid ++ (qpn ++ 0 ∷ [])) ++ rest ≡ gid ++ (qpn ++ (0 ∷ rest))
drop_text gid qpn rest =
    append_assoc gid (qpn ++ 0 ∷ []) rest ∙ ap (λ t. gid ++ t) (append_assoc qpn (0 ∷ []) rest)

length_text : (gid qpn : List ℕ) → length (gid ++ (qpn ++ 0 ∷ [])) ≡ length gid + length qpn + 1
length_text gid qpn = omega (arith, length-append gid (qpn ++ 0 ∷ []), length-append qpn (0 ∷ []))

pub length-message :
    (gid qpn : List ℕ) (size : ℕ)
    → length gid + length qpn + 1 ≤ size
    → length (message gid qpn size) ≡ size
length-message gid qpn size h = omega (
  arith,
  length-append gid (qpn ++ 0 ∷ drop (length gid + length qpn + 1) (zeros size)),
  length-append qpn (0 ∷ drop (length gid + length qpn + 1) (zeros size)),
  length-drop (length gid + length qpn + 1) (zeros size),
  length-zeros size,
)

-- What `prepare_msg` puts into an object that holds it, whatever the object held.
pub prepare_msg_lem :
    (gid qpn msg : List ℕ)
    → length gid ≡ 16
    → 20 ≤ length msg
    → length qpn + 17 ≤ length msg
    → prepare_msg qpn gid msg ≡ some (0, message gid qpn (length msg))
unfolding prepare_msg
prepare_msg_lem gid qpn msg g h k =
    rw
      (
        not_short,
        clear_lem msg (length msg) (omega arith),
        drop_all msg,
        append-nil,
        read_bytes_lem 16 gid (omega arith),
        take_gid,
        overwrite_lem (zeros (length msg)) (gid ++ (qpn ++ 0 ∷ []))
            (omega (arith, length_text gid qpn, length-zeros (length msg))),
        drop_text,
        length_text gid qpn,
      )
      refl
  where
    not_short : ltb (length msg) 20 ≡ false
    not_short = ground arith

    drop_all : (p : List ℕ) → drop (length p) p ≡ []
    drop_all [] = refl
    drop_all (x ∷ p) = drop_all p

    take_gid : take 16 gid ≡ gid
    take_gid = rw (← g) (take_self gid)

set_qpn_lem :
    (n : ℕ) (rest : List ℕ) (cinf : ConnInf)
    → n < 10 ^ 10
    → set_qpn (print_int n ++ (0 ∷ rest)) cinf ≡ some (record cinf { qpn = pos n })
unfolding set_qpn
set_qpn_lem n rest cinf h = rw (scan_int-print_int n rest h) refl

-- The parser, on a message of that form.
pub parse_message :
    (gid rest : List ℕ) (n size : ℕ) (cinf : ConnInf)
    → length gid ≡ 16
    → n < 10 ^ 10
    → 18 ≤ size
    → parse_conn_inf (gid ++ (print_int n ++ (0 ∷ rest))) (pos size) cinf
      ≡ some (0, record { gid = gid; qpn = pos n })
unfolding parse_conn_inf
parse_message gid rest n size cinf g h k =
    rw
      (
        not_short,
        read_bytes_lem 16 (gid ++ text) (omega (arith, length-append gid text)),
        take_gid,
        drop_gid,
        set_qpn_lem n rest (record { gid = gid; qpn = cinf.qpn }) h,
      )
      refl
  where
    text : List ℕ
    text = print_int n ++ (0 ∷ rest)

    not_short : ltb size 18 ≡ false
    not_short = ground arith

    take_gid : take 16 (gid ++ text) ≡ gid
    take_gid = rw (← g) (take-append gid text)

    drop_gid : drop 16 (gid ++ text) ≡ text
    drop_gid = rw (← g) (drop-append gid text)

-- The message that `prepare_msg` makes of a GID and of the number of a queue pair, which has 24
-- bits, in a buffer of 100 bytes, is parsed into that GID and that number, whatever the record
-- held before; both calls succeed.
pub parse_conn_inf-prepare_msg :
    (gid msg : List ℕ) (n : ℕ) (cinf : ConnInf)
    → length gid ≡ 16
    → length msg ≡ 100
    → n < 2 ^ 24
    → (sent : List ℕ) × (prepare_msg (print_int n) gid msg ≡ some (0, sent))
      × (length sent ≡ 100)
      × (parse_conn_inf sent (pos 100) cinf ≡ some (0, record { gid = gid; qpn = pos n }))
parse_conn_inf-prepare_msg gid msg n cinf g h k =
    let fits : length (print_int n) ≤ 8 =
      length-print_int 8 n (omega arith) (omega arith) (omega arith) in
    (
      message gid (print_int n) (length msg),
      prepare_msg_lem gid (print_int n) msg g (omega arith) (omega arith),
      length-message gid (print_int n) (length msg) (omega arith) ∙ h,
      parse_message gid (drop (length gid + length (print_int n) + 1) (zeros (length msg))) n 100
          cinf g (omega arith) (omega arith),
    )

set_qpn_total :
    (text : List ℕ) (cinf : ConnInf) → HasZero text → (c : ConnInf) × (set_qpn text cinf ≡ some c)
unfolding set_qpn
set_qpn_total text cinf h =
    let (z, e) = scan_int_total text h in
    (elim z [ none ↦ cinf | some n ↦ record cinf { qpn = n } ], rw e refl)

-- The parser ends inside a buffer whose text has a terminating zero, whatever the size passed.
pub parse_conn_inf_total :
    (msg : List ℕ) (size : ℤ) (cinf : ConnInf)
    → 16 ≤ length msg
    → HasZero (drop 16 msg)
    → (status : ℕ) × (c : ConnInf) × (parse_conn_inf msg size cinf ≡ some (status, c))
unfolding parse_conn_inf
parse_conn_inf_total msg size cinf h z = elim (Bool-cases (ltb_ℕ size 18)) [
  | inl e ↦ (1, cinf, rw e refl)
  | inr e ↦
      let (c, f) = set_qpn_total (drop 16 msg) (record { gid = take 16 msg; qpn = cinf.qpn }) z in
      (0, c, rw (e, read_bytes_lem 16 msg h, f) refl)
]
