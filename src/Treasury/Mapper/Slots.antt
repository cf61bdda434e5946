-- ===== src/Treasury/Mapper/Slots.antt =====
-- What the rest of the treasury asks of the mapping
-- (treasury/src/core/application/services/CandidateMapper.ts).
use ledger_system.Prelude.{
  String, Bool, true, false, not, ◌&&◌, ◌||◌, Option, none, some, List, [], ◌∷◌, ◌++◌, ◌==◌,
  string_eq, find, filter, any, truthy, if◌then◌else◌,
}
use ledger_system.Prelude.Dict.{Dict, lookup}
use ledger_system.Treasury.Mapper.{
  ScenarioMapping, Variants, TupleOverride, ObjectTemplate, ContinuityMode, or_else,
}
use ledger_system.Treasury.Mapper.Table.{mappings}

abbrev mapping : String → Option ScenarioMapping
mapping id = lookup id mappings

-- The object type of the branch that the answers choose.
abbrev branch_type : Option Variants → ObjectTemplate → Dict String → Option String
branch_type none o answers = some o.object_type
branch_type (some v) o answers = elim (lookup v.selector_slot answers) [
  | none ↦ none
  | some choice ↦ elim (lookup choice v.by_choice) [
    | none ↦ none
    | some override ↦ some (or_else override.object_type o.object_type)
  ]
]

-- Where the mapping has one object.
abbrev continued : ScenarioMapping → List ObjectTemplate → Dict String → Option String
continued m (o ∷ []) answers = branch_type m.variants o answers
continued m _ answers = none

unfoldable pub continuity_object_type : String → Dict String → Option String
continuity_object_type id answers = elim (mapping id) [
  | none ↦ none
  | some m ↦ elim (m.object_id_slot) [ none ↦ none | some slot ↦ continued m m.objects answers ]
]

unfoldable pub continuity_slot : String → Option String
continuity_slot id = elim (mapping id) [ none ↦ none | some m ↦ m.object_id_slot ]

unfoldable pub continuity_mode_of : String → ContinuityMode
continuity_mode_of id = elim (mapping id) [
  | none ↦ ContinuityMode.open_positions
  | some m ↦ or_else m.continuity_mode ContinuityMode.open_positions
]

unfoldable pub lineage_slot : String → Option String
lineage_slot id = elim (mapping id) [ none ↦ none | some m ↦ m.related_event_slot ]

unfoldable pub counterparty_slot_of : String → Option String
counterparty_slot_of id = elim (mapping id) [ none ↦ none | some m ↦ m.counterparty_slot ]

unfoldable pub inherits : String → Bool
inherits id = elim (mapping id) [ none ↦ false | some m ↦ m.inherits_counterparty ]

abbrev selector : Option Variants → Option String
selector none = none
selector (some v) = some v.selector_slot

unfoldable pub variant_slot : String → Option String
variant_slot id = elim (mapping id) [ none ↦ none | some m ↦ selector m.variants ]

-- `fieldToSlot`
unfoldable pub field_to_slot : String → String → Option String
field_to_slot id field = elim (mapping id) [
  | none ↦ none
  | some m ↦
      if field == "parties"
      then m.counterparty_slot
      else if field == "relatedEventId"
      then m.related_event_slot
      else if field == "amount"
          || field == "currency"
          || field == "occurredAt"
          || field == "description"
      then some field
      else none
]

-- The event that a correction is about.
pub record ReissueObject : Type 0 where
  pub object_id : String
  pub object_type : String
  pub relation : String

pub record ReissueEvent : Type 0 where
  pub event_type : String
  pub economic_effect : String
  pub amount : String
  pub currency : String
  pub occurred_at : String
  pub description : Option String
  pub related_event_id : Option String
  pub objects : List ReissueObject
  pub party_ids : List String

pub data ReissuePlan : Type 0 where
  reissuable : (scenario_id : String) (answers : List (String × String)) → ReissuePlan
  no_scenario ambiguous_variant is_a_correction : ReissuePlan

-- `x === undefined || x === y?.field`
abbrev pub allows : Option String → Option String → Bool
allows none actual = true
allows (some s) none = false
allows (some s) (some t) = s == t

abbrev type_of_object : Option ReissueObject → Option String
type_of_object none = none
type_of_object (some o) = some o.object_type

abbrev relation_of_object : Option ReissueObject → Option String
relation_of_object none = none
relation_of_object (some o) = some o.relation

-- The choices that would have produced the object.
abbrev matching : Dict TupleOverride → ReissueEvent → Option ReissueObject → Dict TupleOverride
matching by_choice event moved =
    filter
      (λ c.
        allows c.1.object_type (type_of_object moved)
        && allows c.1.relation (relation_of_object moved)
        && allows c.1.economic_effect (some event.economic_effect))
      by_choice

abbrev pub answer : Option String → Option String → List (String × String)
answer (some key) (some value) = (key, value) ∷ []
answer _ _ = []

-- `if (x) answers.push(…)` for a nullable text.
abbrev pub answer_text : Option String → Option String → List (String × String)
answer_text key value = if truthy value then answer key value else []

abbrev pub object_id_of : Option ReissueObject → Option String
object_id_of none = none
object_id_of (some o) = some o.object_id

-- The answer that names the only choice; `none` where the branch cannot be told.
abbrev pub only_choice : String → Dict TupleOverride → Option (List (String × String))
only_choice slot (c ∷ []) = some ((slot, c.0) ∷ [])
only_choice slot _ = none

-- The answer to the selector.
abbrev pub selected :
    Option Variants → ReissueEvent → Option ReissueObject → Option (List (String × String))
selected none event moved = some []
selected (some v) event moved = only_choice v.selector_slot (matching v.by_choice event moved)

abbrev pub moved_object : ReissueEvent → Option ReissueObject
moved_object event = find (λ o. not (o.relation == "references")) event.objects

-- The plan, from the answer to the selector.
abbrev pub plan_with :
    String
    → ScenarioMapping
    → ReissueEvent
    → (usina_party_id : String) → Option (List (String × String))
    → ReissuePlan
plan_with id m event usina_party_id none = ambiguous_variant
plan_with id m event usina_party_id (some selection) = reissuable id (
    ("amount", event.amount)
    ∷ ("currency", event.currency)
    ∷ ("occurredAt", event.occurred_at)
    ∷ (answer_text (some "description") event.description
        ++ (selection
            ++ (answer m.counterparty_slot (find (λ p. not (p == usina_party_id)) event.party_ids)
                ++ (answer m.object_id_slot (object_id_of (moved_object event))
                    ++ answer_text m.related_event_slot event.related_event_id)))))

abbrev pub plan_for : String → ScenarioMapping → ReissueEvent → String → ReissuePlan
plan_for id m event usina_party_id =
    plan_with id m event usina_party_id (selected m.variants event (moved_object event))

-- The plan, from the first scenario with the type of the event.
abbrev pub plan_entry :
    ReissueEvent → (usina_party_id : String) → Option (String × ScenarioMapping) → ReissuePlan
plan_entry event usina_party_id none = no_scenario
plan_entry event usina_party_id (some (id, m)) =
    if any (λ o. o.relation == "retracts") m.objects
    then is_a_correction
    else plan_for id m event usina_party_id

-- `planReissue`
unfoldable pub plan_reissue : ReissueEvent → (usina_party_id : String) → ReissuePlan
plan_reissue event usina_party_id =
    plan_entry event usina_party_id (find (λ e. e.1.event_type == event.event_type) mappings)
