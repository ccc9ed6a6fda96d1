-- ===== src/Qp/Typestate.antt =====
-- The protocol of a queue pair as a type: the sequences of calls of `ibv_modify_qp` that lead from
-- one state to another by documented steps, each with all the attributes that it requires.
use fuzzing_rdma.Base.{
  if◌then◌else◌, ap, true, ◌≡◌, ◌↔◌, ◌⊎◌, inl, inr, refl, sym, ◌∙◌, Bool-cases, Option, none, some,
  some_inj, List, [], ◌∷◌, ◌++◌,
}
use fuzzing_rdma.Qp.Transitions.{QpState, reset, rts, QpAttr, AttrMask}
use fuzzing_rdma.Qp.Transitions.Laws.{Modify, has_all, required, accept, walk}
use fuzzing_rdma.Qp.Setup.{End, Trace, stopped, Verbs, modify, modify_known}

pub data Protocol : QpState → List Modify → QpState → Type 0 where
  stay : {from : QpState} → Protocol from [] from
  step :
      {from to : QpState} {attr : QpAttr} {mask flags : List AttrMask} {calls : List Modify}
      → required from attr.qp_state ≡ some flags
      → has_all mask flags ≡ true
      → Protocol attr.qp_state calls to
      → Protocol from ((attr, mask) ∷ calls) to

-- `accept` and `walk` on a decision at hand.
abbrev decide : Option (List AttrMask) → List AttrMask → QpState → Option QpState
decide o mask to = elim o [
  | none ↦ none
  | some flags ↦ if has_all mask flags then some to else none
]

abbrev follow : Option QpState → List Modify → Option QpState
follow o calls = elim o [ none ↦ none | some to ↦ walk to calls ]

decide-some :
    (o : Option (List AttrMask)) (mask : List AttrMask) (next to : QpState)
    → decide o mask next ≡ some to
    → (flags : List AttrMask) × (o ≡ some flags) × (has_all mask flags ≡ true) × (next ≡ to)
decide-some none mask next to e = absurd (cc)
decide-some (some flags) mask next to e = elim (Bool-cases (has_all mask flags)) [
  | inl f ↦ (flags, refl, f, some_inj (sym (rw f refl) ∙ e))
  | inr f ↦ let g : decide (some flags) mask next ≡ none = rw f refl in absurd (cc)
]

follow-some :
    (o : Option QpState) (calls : List Modify) (to : QpState)
    → follow o calls ≡ some to
    → (next : QpState) × (o ≡ some next) × (walk next calls ≡ some to)
follow-some none calls to e = absurd (cc)
follow-some (some next) calls to e = (next, refl, e)

-- The type against the execution of the documented steps.
walk_of_Protocol :
    {from to : QpState} {calls : List Modify} → Protocol from calls to → walk from calls ≡ some to
walk_of_Protocol stay = refl
walk_of_Protocol {from} (step {attr} {mask} {flags} {calls} e f p) =
    ap (λ o. follow (decide o mask attr.qp_state) calls) e
    ∙ ap (λ b. follow (if b then some attr.qp_state else none) calls) f
    ∙ walk_of_Protocol p

Protocol-of_walk :
    (calls : List Modify) (from to : QpState) → walk from calls ≡ some to → Protocol from calls to
Protocol-of_walk [] from to e = rw (some_inj e) stay
Protocol-of_walk ((attr, mask) ∷ calls) from to e =
    let (next, f, g) = follow-some (accept from (attr, mask)) calls to e in
    let (flags, h, k, l) = decide-some (required from attr.qp_state) mask attr.qp_state next f in
    step h k (Protocol-of_walk calls attr.qp_state to (rw l g))

-- The type is inhabited exactly by the sequences that the documented state machine accepts.
Protocol_iff :
    (calls : List Modify) (from to : QpState) → Protocol from calls to ↔ (walk from calls ≡ some to)
Protocol_iff calls from to = (walk_of_Protocol, Protocol-of_walk calls from to)

-- The calls are a path from RESET.
abbrev pub IsPath : List Modify → Type 0
IsPath calls = (to : QpState) × Protocol reset calls to

-- A run whose calls are a path from RESET, to RTS if anything is sent or printed.
abbrev pub IsTyped : Trace → Type 0
IsTyped t = (to : QpState) × Protocol reset t.modified to × ((t.messages ≡ []) ⊎ (to ≡ rts))

pub IsPath-of_walk :
    (calls : List Modify) (to : QpState) → walk reset calls ≡ some to → IsPath calls
IsPath-of_walk calls to e = (to, Protocol-of_walk calls reset to e)

pub stopped-IsTyped : (e : End) (calls : List Modify) → IsPath calls → IsTyped (stopped e calls)
stopped-IsTyped e calls (to, p) = (to, p, inl refl)

-- A run that has made all the calls to RTS.
pub IsTyped-of_modified :
    (t : Trace) (calls : List Modify) → walk reset calls ≡ some rts → t.modified ≡ calls → IsTyped t
IsTyped-of_modified t calls e f = (rts, Protocol-of_walk t.modified reset rts (rw f e), inr refl)

-- Two calls, and what follows them.
pub modify-modify-IsTyped :
    (v : Verbs) (log : List Modify) (m m' : Modify) (k : List Modify → Trace)
    → IsPath (log ++ (m ∷ []))
    → IsPath ((log ++ (m ∷ [])) ++ (m' ∷ []))
    → IsTyped (k ((log ++ (m ∷ [])) ++ (m' ∷ [])))
    → IsTyped (modify v log m (λ log'. modify v log' m' k))
modify-modify-IsTyped v log m m' k p q h =
    modify_known IsPath IsTyped stopped-IsTyped v log m (λ log'. modify v log' m' k) p
      (modify_known IsPath IsTyped stopped-IsTyped v (log ++ (m ∷ [])) m' k q h)
