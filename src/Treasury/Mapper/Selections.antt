-- ===== src/Treasury/Mapper/Selections.antt =====
-- The answers that `planReissue` selects
-- (treasury/src/core/application/services/CandidateMapper.ts).
use ledger_system.Prelude.{
  String, true, false, ◌==◌, string_eq, Option, none, some, List, [], ◌∷◌, ◌++◌, map, find, not,
  truthy, ◌≡◌, refl, ap, inl, inr, ◌⊎◌, Bool-cases, Option-cases, arith, ==_true, ==_refl,
}
use ledger_system.Prelude.Dict.{Dict, lookup}
use ledger_system.Treasury.Mapper.{
  ScenarioMapping, Variants, TupleOverride, ObjectTemplate, override_of, object_templates, or_else,
}
use ledger_system.Treasury.Mapper.Slots.{
  ReissueEvent, ReissueObject, selected, only_choice, answer_text,
}
use ledger_system.Treasury.Mapper.Branches.{
  same_templates-eq, gives, choices, single_gives, is_free, can_tell, recorded_template, is_slot,
  selector_of,
}

pub lookup-answer_text :
    (k j : String) (value : Option String) (rest : List (String × String))
    → (k == j) ≡ false
    → lookup k (answer_text (some j) value ++ rest) ≡ lookup k rest
lookup-answer_text k j none rest h = refl
lookup-answer_text k j (some v) rest h = elim (Bool-cases (truthy (some v))) [
  | inl there ↦ ground (arith, h, there)
  | inr empty ↦ ground (arith, h, empty)
]

-- The answers of a plan, from the selection on.
abbrev pub answers_with :
    ReissueEvent → List (String × String) → List (String × String) → List (String × String)
answers_with event selection rest =
    ("amount", event.amount)
    ∷ ("currency", event.currency)
    ∷ ("occurredAt", event.occurred_at)
    ∷ (answer_text (some "description") event.description ++ (selection ++ rest))

lookup-answers_with :
    (event : ReissueEvent) (slot key : String) (rest : List (String × String))
    → is_free slot ≡ true
    → lookup slot (answers_with event ((slot, key) ∷ []) rest) ≡ some key
unfolding is_free
lookup-answers_with event slot key rest h =
    let skip =
      lookup-answer_text slot "description" event.description ((slot, key) ∷ rest)
        (ground (arith, h)) in
    ground (arith, h, skip, ==_refl slot)

pub gives-eq :
    (m : ScenarioMapping) (p : TupleOverride) (effect : String) (ts : List ObjectTemplate)
    → gives m p effect ts ≡ true
    → (or_else p.economic_effect m.economic_effect ≡ effect) × (object_templates m.objects p ≡ ts)
unfolding gives
gives-eq m p effect ts h = (
  ==_true (or_else p.economic_effect m.economic_effect) effect (ground (arith, h)),
  same_templates-eq (object_templates m.objects p) ts (ground (arith, h)),
)

-- The selection that `planReissue` makes, and the override that its answers pick.
abbrev pub Selects : ScenarioMapping → Option Variants → ReissueEvent → Type 0
Selects m variants event =
    (selection : List (String × String)) × (selected variants event
        (find (λ o. not (o.relation == "references")) event.objects)
      ≡ some selection)
    × ((rest : List (String × String))
        → gives m (override_of variants (answers_with event selection rest)) event.economic_effect
            (map recorded_template event.objects)
          ≡ true)
    × ((k : String) (rest : List (String × String))
        → is_slot (selector_of variants) k ≡ false
        → lookup k (selection ++ rest) ≡ lookup k rest)

single_gives-eq :
    (m : ScenarioMapping) (by_choice : Dict TupleOverride) (effect : String)
    (ts : List ObjectTemplate) (cs : Dict TupleOverride)
    → single_gives m by_choice effect ts cs ≡ true
    → (key : String) × (o : TupleOverride) × (p : TupleOverride) × (cs ≡ (key, o) ∷ [])
      × (lookup key by_choice ≡ some p)
      × (gives m p effect ts ≡ true)
unfolding single_gives
single_gives-eq m by_choice effect ts [] h = cc h
single_gives-eq m by_choice effect ts ((key, o) ∷ []) h =
    elim (Option-cases (lookup key by_choice)) [
      | inl absent ↦ cc (rw (single_gives, absent) at h)
      | inr (p, found) ↦ (key, o, p, refl, found, rw (single_gives, found) at h)
    ]
single_gives-eq m by_choice effect ts (c ∷ d ∷ ds) h = cc h

choice-Selects :
    (m : ScenarioMapping) (v : Variants) (event : ReissueEvent) (x : ReissueObject)
    (xs : List ReissueObject) (key : String) (o p : TupleOverride)
    → event.objects ≡ x ∷ xs
    → (x.relation == "references") ≡ false
    → is_free v.selector_slot ≡ true
    → choices v.by_choice event.economic_effect (recorded_template x) ≡ (key, o) ∷ []
    → lookup key v.by_choice ≡ some p
    → gives m p event.economic_effect (map recorded_template (x ∷ xs)) ≡ true
    → Selects m (some v) event
unfolding choices override_of
choice-Selects m v event x xs key o p objects moving free one found given =
    let moved : find (λ o. not (o.relation == "references")) event.objects ≡ some x =
      rw objects (rw moving refl) in
    (
      (v.selector_slot, key) ∷ [],
      rw moved (ap (only_choice v.selector_slot) one),
      λ rest.
          rw objects
            (rw (lookup-answers_with event v.selector_slot key rest free) (rw found given)),
      λ k rest other. rw other refl,
    )

first-Selects :
    (m : ScenarioMapping) (v : Variants) (event : ReissueEvent) (x : ReissueObject)
    (xs : List ReissueObject)
    → event.objects ≡ x ∷ xs
    → can_tell m (some v) event.economic_effect (map recorded_template (x ∷ xs)) ≡ true
    → Selects m (some v) event
unfolding can_tell
first-Selects m v event x xs objects h =
    let (key, o, p, one, found, given) =
      single_gives-eq m v.by_choice event.economic_effect (map recorded_template (x ∷ xs))
        (choices v.by_choice event.economic_effect (recorded_template x)) (ground (arith, h)) in
    choice-Selects m v event x xs key o p objects (ground (arith, h)) (ground (arith, h)) one found
      given

list-cases : {A : Type 0} (xs : List A) → (xs ≡ []) ⊎ ((y : A) × (ys : List A) × (xs ≡ y ∷ ys))
list-cases [] = inl refl
list-cases (y ∷ ys) = inr (y, ys, refl)

pub can_tell-Selects :
    (m : ScenarioMapping) (variants : Option Variants) (event : ReissueEvent)
    → can_tell m variants event.economic_effect (map recorded_template event.objects) ≡ true
    → Selects m variants event
unfolding can_tell override_of
can_tell-Selects m none event h = ([], refl, λ rest. h, λ k rest other. refl)
can_tell-Selects m (some v) event h = elim (list-cases event.objects) [
  | inl empty ↦ cc (rw empty at h)
  | inr (x, xs, some_objects) ↦ first-Selects m v event x xs some_objects (rw some_objects at h)
]
