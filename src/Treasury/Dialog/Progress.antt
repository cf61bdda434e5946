-- ===== src/Treasury/Dialog/Progress.antt =====
-- The questions of a conversation come to an end
-- (treasury/src/core/domain/services/DialogEngine.ts).
use ledger_system.Prelude.{
  ℕ, zero, suc, ◌+◌, ◌≤◌, ◌<◌, String, true, false, none, some, List, [], ◌∷◌, ◌==◌, nat_eq,
  string_eq, find, filter, not, length, if◌then◌else◌, ◌≡◌, refl, ap, inl, inr, Bool-cases,
  Option-cases, arith, Bool, all, any, ◌||◌, All, ==_true, Result, ok, err, sym, ==_refl,
  some_injective, subst,
}
use ledger_system.Prelude.Dict.{Dict, lookup, insert, lookup-insert}
use ledger_system.Prelude.Strings.{is_blank}
use ledger_system.Treasury.Dialog.Advance.{
  Resolution, DialogError, accepted_value, confirm_if_ready, advance,
}
use ledger_system.Treasury.Dialog.{
  SlotDefinition, Scenario, DialogState, IntentProps, is_blank_answer, is_asked, state_of,
  next_state, record_answer,
}

-- The number of slots that are to be asked.
open_slots : Dict String → List SlotDefinition → ℕ
open_slots answers [] = 0
open_slots answers (s ∷ ss) = (if is_asked answers s then 1 else 0) + open_slots answers ss

abbrev pub IsReady : DialogState → Type 0
IsReady state = (answered : ℕ) × (total : ℕ) × (state ≡ DialogState.ready answered total)

-- An answer that is not blank asks no slot anew.
asked_less :
    (answers : Dict String) (key value : String) (s : SlotDefinition)
    → is_blank value ≡ false
    → is_asked (insert key value answers) s ≡ true
    → is_asked answers s ≡ true
asked_less answers key value s filled h = elim (Bool-cases (s.key == key)) [
  | inl same ↦ ground (arith, h, same, filled, lookup-insert s.key key value answers)
  | inr other ↦ ground (arith, h, other, lookup-insert s.key key value answers)
]

answered_not_asked :
    (answers : Dict String) (value : String) (s : SlotDefinition)
    → is_blank value ≡ false
    → is_asked (insert s.key value answers) s ≡ false
answered_not_asked answers value s filled =
    ground (arith, filled, ==_refl s.key, lookup-insert s.key s.key value answers)

open_slots_le :
    (answers : Dict String) (key value : String) (ss : List SlotDefinition)
    → is_blank value ≡ false
    → open_slots (insert key value answers) ss ≤ open_slots answers ss
unfolding open_slots
open_slots_le answers key value [] filled = omega arith
open_slots_le answers key value (s ∷ ss) filled =
    let rest = open_slots_le answers key value ss filled in
    elim (Bool-cases (is_asked (insert key value answers) s)) [
      | inl asked ↦ rw (asked, asked_less answers key value s filled asked) (omega (arith, rest))
      | inr closed ↦ rw closed (omega (arith, rest))
    ]

open_slots_lt :
    (answers : Dict String) (value : String) (ss : List SlotDefinition) {slot : SlotDefinition}
    → is_blank value ≡ false
    → find (is_asked answers) ss ≡ some slot
    → open_slots (insert slot.key value answers) ss < open_slots answers ss
unfolding open_slots
open_slots_lt answers value [] filled found = cc found
open_slots_lt answers value (s ∷ ss) {slot} filled found = elim (Bool-cases (is_asked answers s)) [
  | inl asked ↦
      let same : s ≡ slot = some_injective (rw asked at found) in
      subst (λ t. open_slots (insert t.key value answers) (s ∷ ss) < open_slots answers (s ∷ ss))
        same
        (rw (asked, answered_not_asked answers value s filled)
          (omega (arith, open_slots_le answers s.key value ss filled)))
  | inr closed ↦
      let still : is_asked (insert slot.key value answers) s ≡ false =
        elim (Bool-cases (is_asked (insert slot.key value answers) s)) [
          | inl asked ↦ cc (asked_less answers slot.key value s filled asked, closed)
          | inr f ↦ f
        ] in
      let rest : open_slots (insert slot.key value answers) ss < open_slots answers ss =
        open_slots_lt answers value ss filled (rw closed at found) in
      rw (closed, still) (omega (arith, rest))
]

open_slots-length :
    (answers : Dict String) (ss : List SlotDefinition) → open_slots answers ss ≤ length ss
unfolding open_slots
open_slots-length answers [] = omega arith
open_slots-length answers (s ∷ ss) = ground (arith, open_slots-length answers ss)

closed_none :
    (answers : Dict String) (ss : List SlotDefinition)
    → open_slots answers ss ≤ 0
    → find (is_asked answers) ss ≡ none
unfolding open_slots
closed_none answers [] h = refl
closed_none answers (s ∷ ss) h = elim (Bool-cases (is_asked answers s)) [
  | inl asked ↦ absurd (omega (arith, rw asked at h))
  | inr closed ↦ rw closed (closed_none answers ss (omega (arith, h)))
]

none_open :
    (answers : Dict String) (ss : List SlotDefinition)
    → find (is_asked answers) ss ≡ none
    → open_slots answers ss ≡ 0
unfolding open_slots
none_open answers [] h = refl
none_open answers (s ∷ ss) h = elim (Bool-cases (is_asked answers s)) [
  | inl asked ↦ cc (rw asked at h)
  | inr closed ↦ rw closed (omega (arith, none_open answers ss (rw closed at h)))
]

-- Whether each required slot has an answer that is not blank.
abbrev pub is_complete : Dict String → List SlotDefinition → Bool
is_complete answers ss =
    all (λ s. not s.required || not (is_blank_answer (lookup s.key answers))) ss

none_asked_complete :
    (answers : Dict String) (ss : List SlotDefinition)
    → find (is_asked answers) ss ≡ none
    → is_complete answers ss ≡ true
none_asked_complete answers [] h = refl
none_asked_complete answers (s ∷ ss) h = elim (Bool-cases (is_asked answers s)) [
  | inl asked ↦ cc (rw asked at h)
  | inr closed ↦ ground (arith, closed, none_asked_complete answers ss (rw closed at h))
]

module _ (is_date : String → Bool) (resolve : String → Resolution) (scenario : Scenario)
    (user : String → String) (now : String) where
  -- What `advance` leaves; an error leaves the intent.
  abbrev left_by : IntentProps → Result DialogError IntentProps → IntentProps
  left_by intent (ok after) = after
  left_by intent (err e) = intent

  -- The user answers the question of a state, by its key; without a question there is no answer.
  abbrev pub answer_to : DialogState → IntentProps → IntentProps
  answer_to (DialogState.question slot answered total) intent =
      left_by intent (advance is_date resolve now scenario slot.key (user slot.key) intent)
  answer_to (DialogState.ready answered total) intent = intent

  -- The intent after a number of answers.
  abbrev pub converse : ℕ → IntentProps → IntentProps
  converse zero intent = intent
  converse (suc n) intent = converse n (answer_to (next_state scenario intent.answers) intent)

  -- The answer for a slot is accepted, and what is recorded of it is not blank.
  abbrev pub IsAnswered : SlotDefinition → Type 0
  IsAnswered s =
      (v : String) × (accepted_value is_date resolve s (user s.key) ≡ some v) × (is_blank v ≡ false)

  -- The first slot of the key of a slot, and the value recorded for it.
  slot_of_key :
      (ss : List SlotDefinition) (key : String)
      → All IsAnswered ss
      → any (λ s. s.key == key) ss ≡ true
      → (slot : SlotDefinition) × (find (λ s. s.key == key) ss ≡ some slot)
        × ((v : String) × (accepted_value is_date resolve slot (user key) ≡ some v)
            × (is_blank v ≡ false))
  slot_of_key [] key answered h = cc h
  slot_of_key (s ∷ ss) key (here, rest) h = elim (Bool-cases (s.key == key)) [
    | inl hit ↦ (
      s,
      rw hit refl,
      subst
          (λ k.
            (v : String) × (accepted_value is_date resolve s (user k) ≡ some v)
            × (is_blank v ≡ false))
          (==_true s.key key hit) here,
    )
    | inr miss ↦
        let (slot, found, value) = slot_of_key ss key rest (ground (arith, h, miss)) in
        (slot, rw miss found, value)
  ]

  found_key :
      (answers : Dict String) (ss : List SlotDefinition) {slot : SlotDefinition}
      → find (is_asked answers) ss ≡ some slot
      → any (λ s. s.key == slot.key) ss ≡ true
  found_key answers [] h = cc h
  found_key answers (s ∷ ss) {slot} h = elim (Bool-cases (is_asked answers s)) [
    | inl asked ↦
        let same : s ≡ slot = some_injective (rw asked at h) in
        subst (λ t. any (λ x. x.key == t.key) (s ∷ ss) ≡ true) same (ground (arith, ==_refl s.key))
    | inr closed ↦ ground (arith, found_key answers ss (rw closed at h))
  ]

  confirmed_answers :
      (state : DialogState) (intent : IntentProps)
      → (confirm_if_ready now state intent).answers ≡ intent.answers
  confirmed_answers (DialogState.question slot answered total) intent = refl
  confirmed_answers (DialogState.ready answered total) intent = refl

  advance_answers :
      (intent : IntentProps) (key : String) (slot : SlotDefinition) (v : String)
      → find (λ s. s.key == key) scenario.slots ≡ some slot
      → accepted_value is_date resolve slot (user key) ≡ some v
      → (left_by intent (advance is_date resolve now scenario key (user key) intent)).answers
        ≡ insert key v intent.answers
  unfolding advance
  advance_answers intent key slot v found accepted =
      rw (advance, found)
        (rw accepted (
          confirmed_answers (next_state scenario (insert key v intent.answers))
            (record_answer key v now intent)))

  answer_to-less :
      (intent : IntentProps) (n : ℕ)
      → All IsAnswered scenario.slots
      → open_slots intent.answers scenario.slots ≤ suc n
      → open_slots (answer_to (next_state scenario intent.answers) intent).answers scenario.slots
        ≤ n
  unfolding next_state
  answer_to-less intent n answered h =
      elim (Option-cases (find (is_asked intent.answers) scenario.slots)) [
        | inl none_asked ↦
            rw none_asked (omega (arith, none_open intent.answers scenario.slots none_asked))
        | inr (slot, asked) ↦
            let (first, found, (v, accepted, filled)) =
              slot_of_key scenario.slots slot.key answered
                (found_key intent.answers scenario.slots asked) in
            rw asked (
              subst (λ a. open_slots a scenario.slots ≤ n)
                (sym (advance_answers intent slot.key first v found accepted))
                (omega (arith, h, open_slots_lt intent.answers v scenario.slots filled asked)))
      ]

  converse-closed :
      (n : ℕ) (intent : IntentProps)
      → All IsAnswered scenario.slots
      → open_slots intent.answers scenario.slots ≤ n
      → find (is_asked (converse n intent).answers) scenario.slots ≡ none
  converse-closed zero intent answered h = closed_none intent.answers scenario.slots h
  converse-closed (suc n) intent answered h =
      converse-closed n (answer_to (next_state scenario intent.answers) intent) answered
        (answer_to-less intent n answered h)

  -- A conversation ends: for a user whose answer for each slot of the scenario is valid and, where
  -- the slot is for a party, resolves to a known one, and is not blank as it is recorded, whatever
  -- was answered before, as many answers as the scenario has slots leave the dialog ready, with an
  -- answer that is not blank for every required slot.
  pub converse-IsReady :
      (intent : IntentProps)
      → All IsAnswered scenario.slots
      → IsReady (next_state scenario (converse (length scenario.slots) intent).answers)
        × (is_complete (converse (length scenario.slots) intent).answers scenario.slots ≡ true)
  unfolding next_state
  converse-IsReady intent answered =
      let answers = (converse (length scenario.slots) intent).answers in
      let filled =
        length (filter (λ s. not (is_blank_answer (lookup s.key answers))) scenario.slots) in
      let closed =
        converse-closed (length scenario.slots) intent answered
          (open_slots-length intent.answers scenario.slots) in
      (
        (
          filled,
          length scenario.slots,
          ap (λ next. state_of next filled (length scenario.slots)) closed,
        ),
        none_asked_complete answers scenario.slots closed,
      )
