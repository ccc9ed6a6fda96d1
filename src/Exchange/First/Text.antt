-- ===== src/Exchange/First/Text.antt =====
-- The texts of the first exchange: what is printed, received and copied.
use fuzzing_rdma.Base.{
  ℕ, zero, suc, ◌+◌, ◌-◌, ◌≤◌, ◌≡◌, refl, ap, ◌∙◌, some, List, [], ◌∷◌, ◌++◌, length, drop, zeros,
  overwrite_lem, length-zeros, drop-zeros, length-append, length-append-drop, IsText, arith,
}
use mathlib.Core.List.{append_assoc}
use fuzzing_rdma.Exchange.First.{first_text, print_msg, padded_text, strncpy, receive}

IsText-append : (xs ys : List ℕ) → IsText xs → IsText ys → IsText (xs ++ ys)
IsText-append [] ys h k = k
IsText-append (x ∷ xs) ys (h, t) k = (h, IsText-append xs ys t k)

pub first_text-IsText :
    (qpn guid : List ℕ) → IsText qpn → IsText guid → IsText (first_text qpn guid)
first_text-IsText qpn guid h k =
    let tail : IsText (b' ' ∷ b'g' ∷ b'i' ∷ b'u' ∷ b'd' ∷ b':' ∷ guid) =
      (omega arith, (omega arith, (omega arith, (omega arith, (omega arith, (omega arith, k)))))) in
    (omega arith, (omega arith, (omega arith, (omega arith, IsText-append qpn _ h tail))))

pub length-first_text :
    (qpn guid : List ℕ) → length (first_text qpn guid) ≡ 10 + length qpn + length guid
length-first_text qpn guid =
    omega (arith, length-append qpn (b' ' ∷ b'g' ∷ b'i' ∷ b'u' ∷ b'd' ∷ b':' ∷ guid))

-- What `strncpy` writes for a text that fits.
padded_text_lem :
    (n : ℕ) (text rest : List ℕ)
    → IsText text
    → length text ≤ n
    → padded_text n (text ++ 0 ∷ rest) ≡ some (text ++ zeros (n - length text))
unfolding padded_text zeros
padded_text_lem zero [] rest h l = let e : 0 ≡ 0 - 0 = omega arith in ap (λ t. some (zeros t)) e
padded_text_lem (suc n) [] rest h l =
    let e : suc n ≡ suc n - 0 = omega arith in ap (λ t. some (zeros t)) e
padded_text_lem zero (x ∷ text) rest h l = absurd (omega arith)
padded_text_lem (suc n) (zero ∷ text) rest (h, t) l = absurd (omega arith)
padded_text_lem (suc n) (suc x ∷ text) rest (h, t) l =
    let e : n - length text ≡ suc n - suc (length text) = omega arith in
    rw (padded_text_lem n text rest t (omega arith)) (ap (λ k. some (suc x ∷ (text ++ zeros k))) e)

-- It never reads beyond a source that is long enough.
pub padded_text_total :
    (n : ℕ) (buf : List ℕ)
    → n ≤ length buf
    → (t : List ℕ) × (padded_text n buf ≡ some t) × (length t ≡ n)
unfolding padded_text
padded_text_total zero buf h = ([], refl, refl)
padded_text_total (suc n) [] h = absurd (omega arith)
padded_text_total (suc n) (zero ∷ buf) h = (zeros (suc n), refl, length-zeros (suc n))
padded_text_total (suc n) (suc b ∷ buf) h =
    let (t, e, l) = padded_text_total n buf (omega arith) in (suc b ∷ t, rw e refl, ap suc l)

-- The buffer of the caller behind the exchange: a text, zeros up to the length given, and what
-- the rest held.
abbrev pub told : List ℕ → ℕ → List ℕ → List ℕ
told text ci_len conn_inf = (text ++ zeros (ci_len - length text)) ++ drop ci_len conn_inf

pub strncpy_lem :
    (conn_inf text rest : List ℕ) (ci_len : ℕ)
    → IsText text
    → length text ≤ ci_len
    → ci_len ≤ length conn_inf
    → strncpy conn_inf (text ++ 0 ∷ rest) ci_len ≡ some (told text ci_len conn_inf)
unfolding strncpy
strncpy_lem conn_inf text rest ci_len h l k =
    let n : length (text ++ zeros (ci_len - length text)) ≡ ci_len = omega (
      arith,
      length-append text (zeros (ci_len - length text)),
      length-zeros (ci_len - length text),
    ) in
    rw
      (
        padded_text_lem ci_len text rest h l,
        overwrite_lem conn_inf (text ++ zeros (ci_len - length text)) (omega (arith, n)),
        n,
      )
      refl

-- A side with its two texts, which fit its message, and its message of 100 bytes.
abbrev pub IsSide : List ℕ → List ℕ → List ℕ → Type 0
IsSide qpn guid msg =
    IsText qpn × IsText guid × (length qpn + length guid ≤ 89) × (length msg ≡ 100)

-- A buffer with room for a text in its first `ci_len` bytes.
abbrev pub HasRoom : List ℕ → ℕ → List ℕ → Type 0
HasRoom text ci_len conn_inf = (length text ≤ ci_len) × (ci_len ≤ length conn_inf)

-- the message of a side
abbrev pub whole : List ℕ → List ℕ → List ℕ → List ℕ
whole msg qpn guid =
    (first_text qpn guid ++ (0 ∷ [])) ++ drop (length (first_text qpn guid ++ (0 ∷ []))) msg

module _ (qpn guid msg : List ℕ) (side : IsSide qpn guid msg) where
  length-line : length (first_text qpn guid ++ (0 ∷ [])) ≡ 11 + length qpn + length guid
  length-line =
      omega (arith, length-append (first_text qpn guid) (0 ∷ []), length-first_text qpn guid)

  pub print_msg_lem : print_msg msg qpn guid ≡ some (whole msg qpn guid)
  print_msg_lem =
      overwrite_lem msg (first_text qpn guid ++ (0 ∷ []))
        (omega (arith, length-line, side.2, side.3))

  length-whole : length (whole msg qpn guid) ≡ 100
  length-whole =
      length-append-drop (first_text qpn guid ++ (0 ∷ [])) msg
        (omega (arith, length-line, side.2, side.3))
      ∙ side.3

  -- The text that the partner finds, in the message of the client and in that of the server.
  pub receive-whole :
      (rest : List ℕ) × (receive (some (whole msg qpn guid))
        ≡ some (first_text qpn guid ++ 0 ∷ rest))
  receive-whole =
      let line : List ℕ = first_text qpn guid ++ (0 ∷ []) in
      let end : List ℕ = drop (length (whole msg qpn guid)) (zeros 500) in
      (
        drop (length line) msg ++ end,
        overwrite_lem (zeros 500) (whole msg qpn guid)
              (omega (arith, length-whole, length-zeros 500))
            ∙ ap some (
                append_assoc line (drop (length line) msg) end
                ∙ append_assoc (first_text qpn guid) (0 ∷ []) (drop (length line) msg ++ end)),
      )

  pub receive_text :
      (rest : List ℕ) × (receive (some (first_text qpn guid))
        ≡ some (first_text qpn guid ++ 0 ∷ rest))
  unfolding zeros
  receive_text =
      let n : length (first_text qpn guid) ≤ 99 =
        omega (arith, length-first_text qpn guid, side.2) in
      let e : 500 - length (first_text qpn guid) ≡ suc (499 - length (first_text qpn guid)) =
        omega (arith, n) in
      (
        zeros (499 - length (first_text qpn guid)),
        overwrite_lem (zeros 500) (first_text qpn guid) (omega (arith, n, length-zeros 500))
            ∙ ap (λ t. some (first_text qpn guid ++ t))
                (drop-zeros (length (first_text qpn guid)) 500 ∙ ap zeros e),
      )
