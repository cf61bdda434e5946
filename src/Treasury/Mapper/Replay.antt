-- ===== src/Treasury/Mapper/Replay.antt =====
-- What the answers of a plan of `planReissue` hold
-- (treasury/src/core/application/services/CandidateMapper.ts).
use ledger_system.Prelude.{
  String, true, false, ◌==◌, string_eq, Option, none, some, List, ◌++◌, truthy, if◌then◌else◌, ◌≡◌,
  refl, subst, inl, inr, Bool-cases, arith, ==_true, ==_refl, ◌∙◌,
}
use ledger_system.Prelude.Dict.{Dict, lookup}
use ledger_system.Treasury.Mapper.Slots.{ReissueEvent, answer, answer_text}
use ledger_system.Treasury.Mapper.Branches.{is_free, is_slot, is_apart}
use ledger_system.Treasury.Mapper.Selections.{answers_with, lookup-answer_text}

other_slot : (a b : String) → is_slot (some a) b ≡ false → is_slot (some b) a ≡ false
other_slot a b h = elim (Bool-cases (a == b)) [
  | inl same ↦ cc (subst (λ x. (x == a) ≡ true) (==_true a b same) (==_refl a), h)
  | inr differ ↦ differ
]

lookup-answer_other :
    (k : String) (slot value : Option String) (rest : List (String × String))
    → is_slot slot k ≡ false
    → lookup k (answer slot value ++ rest) ≡ lookup k rest
lookup-answer_other k none value rest h = refl
lookup-answer_other k (some j) none rest h = refl
lookup-answer_other k (some j) (some v) rest h = rw h refl

-- A text that is kept where it is not empty.
abbrev pub kept : Option String → Option String
kept x = if truthy x then x else none

-- The answers behind the selection.
abbrev tail_of : (c o r : Option String) → (v w x : Option String) → List (String × String)
tail_of c o r v w x = answer c v ++ (answer o w ++ answer_text r x)

lookup-last_other :
    (k : String) (slot value : Option String)
    → is_slot slot k ≡ false
    → lookup k (answer_text slot value) ≡ none
lookup-last_other k slot none h = refl
lookup-last_other k none (some v) h = elim (Bool-cases (truthy (some v))) [
  | inl there ↦ rw there refl
  | inr empty ↦ rw empty refl
]
lookup-last_other k (some j) (some v) h = elim (Bool-cases (truthy (some v))) [
  | inl there ↦ rw there (rw h refl)
  | inr empty ↦ rw empty refl
]

lookup-last :
    (k : String) (value : Option String) → lookup k (answer_text (some k) value) ≡ kept value
lookup-last k none = refl
lookup-last k (some v) = elim (Bool-cases (truthy (some v))) [
  | inl there ↦ rw there (rw (==_refl k) refl)
  | inr empty ↦ rw empty refl
]

lookup-answer :
    (k : String) (value : Option String) (rest : List (String × String))
    → lookup k rest ≡ none
    → lookup k (answer (some k) value ++ rest) ≡ value
lookup-answer k none rest h = h
lookup-answer k (some v) rest h = rw (==_refl k) refl

tail_none :
    (k : String) (c o r v w x : Option String)
    → is_slot c k ≡ false
    → is_slot o k ≡ false
    → is_slot r k ≡ false
    → lookup k (tail_of c o r v w x) ≡ none
tail_none k c o r v w x hc ho hr =
    lookup-answer_other k c v _ hc ∙ lookup-answer_other k o w _ ho ∙ lookup-last_other k r x hr

-- A slot that is there has the answer.
abbrev pub Answered : Option String → Dict String → Option String → Type 0
Answered none answers value = Unit
Answered (some k) answers value = lookup k answers ≡ value

-- A selection is passed over by the slots that are not the selector.
abbrev Passed : Option String → List (String × String) → Type 0
Passed selector selection =
    (k : String) (rest : List (String × String))
    → is_slot selector k ≡ false
    → lookup k (selection ++ rest) ≡ lookup k rest

behind :
    (event : ReissueEvent) (selector : Option String) (selection rest : List (String × String))
    (k : String)
    → Passed selector selection
    → is_free k ≡ true
    → is_slot selector k ≡ false
    → lookup k (answers_with event selection rest) ≡ lookup k rest
unfolding is_free
behind event selector selection rest k passed free other =
    let skip =
      lookup-answer_text k "description" event.description (selection ++ rest)
        (ground (arith, free)) in
    ground (arith, free, skip, passed k rest other)

counterparty-Answered :
    (event : ReissueEvent) (s c o r : Option String) (selection : List (String × String))
    (v w x : Option String)
    → Passed s selection
    → is_apart c s none none ≡ true
    → is_apart o s c none ≡ true
    → is_apart r s c o ≡ true
    → Answered c (answers_with event selection (tail_of c o r v w x)) v
counterparty-Answered event s none o r selection v w x passed hc ho hr = tt
counterparty-Answered event s (some k) o r selection v w x passed hc ho hr =
    behind event s selection _ k passed (ground (arith, hc)) (ground (arith, hc))
    ∙ lookup-answer k v _
        (lookup-answer_other k o w _ (no_object o ho) ∙ lookup-last_other k r x (no_related r hr))
  where
    no_object : (o : Option String) → is_apart o s (some k) none ≡ true → is_slot o k ≡ false
    no_object none h = refl
    no_object (some j) h = other_slot k j (ground (arith, h))

    no_related : (r : Option String) → is_apart r s (some k) o ≡ true → is_slot r k ≡ false
    no_related none h = refl
    no_related (some j) h = other_slot k j (ground (arith, h))

object-Answered :
    (event : ReissueEvent) (s c o r : Option String) (selection : List (String × String))
    (v w x : Option String)
    → Passed s selection
    → is_apart o s c none ≡ true
    → is_apart r s c o ≡ true
    → Answered o (answers_with event selection (tail_of c o r v w x)) w
object-Answered event s c none r selection v w x passed ho hr = tt
object-Answered event s c (some k) r selection v w x passed ho hr =
    behind event s selection _ k passed (ground (arith, ho)) (ground (arith, ho))
    ∙ lookup-answer_other k c v _ (ground (arith, ho))
    ∙ lookup-answer k w _ (lookup-last_other k r x (no_related r hr))
  where
    no_related : (r : Option String) → is_apart r s c (some k) ≡ true → is_slot r k ≡ false
    no_related none h = refl
    no_related (some j) h = other_slot k j (ground (arith, h))

related-Answered :
    (event : ReissueEvent) (s c o r : Option String) (selection : List (String × String))
    (v w x : Option String)
    → Passed s selection
    → is_apart r s c o ≡ true
    → Answered r (answers_with event selection (tail_of c o r v w x)) (kept x)
related-Answered event s c o none selection v w x passed hr = tt
related-Answered event s c o (some k) selection v w x passed hr =
    behind event s selection _ k passed (ground (arith, hr)) (ground (arith, hr))
    ∙ lookup-answer_other k c v _ (ground (arith, hr))
    ∙ lookup-answer_other k o w _ (ground (arith, hr))
    ∙ lookup-last k x

not_due : (slot a b c : Option String) → is_apart slot a b c ≡ true → is_slot slot "dueAt" ≡ false
not_due none a b c h = refl
not_due (some k) a b c h = other_slot "dueAt" k (ground (arith, h))

-- The slots of the selector, the counterparty, the position and the origin are different ones.
abbrev pub Apart : Option String → Option String → Option String → Option String → Type 0
Apart s c o r =
    (is_apart s none none none ≡ true)
    × (is_apart c s none none ≡ true)
    × (is_apart o s c none ≡ true)
    × (is_apart r s c o ≡ true)

pub plan-Answered :
    (event : ReissueEvent) (s c o r : Option String) (selection : List (String × String))
    (v w x : Option String)
    → Passed s selection
    → Apart s c o r
    → Answered c (answers_with event selection (tail_of c o r v w x)) v
      × Answered o (answers_with event selection (tail_of c o r v w x)) w
      × Answered r (answers_with event selection (tail_of c o r v w x)) (kept x)
      × (lookup "dueAt" (answers_with event selection (tail_of c o r v w x)) ≡ none)
unfolding is_free
plan-Answered event s c o r selection v w x passed (hs, hc, ho, hr) = (
  counterparty-Answered event s c o r selection v w x passed hc ho hr,
  object-Answered event s c o r selection v w x passed ho hr,
  related-Answered event s c o r selection v w x passed hr,
  behind event s selection _ "dueAt" passed refl (not_due s none none none hs)
      ∙ tail_none "dueAt" c o r v w x (not_due c _ _ _ hc) (not_due o _ _ _ ho)
          (not_due r _ _ _ hr),
)
