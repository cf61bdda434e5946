-- ===== src/Treasury/Dialog.antt =====
-- The conversation: `DialogEngine` (treasury/src/core/domain/services/DialogEngine.ts) and the answers
-- and the states of an intent (treasury/src/core/domain/entities/Intent.ts). `Date.parse` is an
-- argument that tells which texts are dates; the keywords of a scenario are left out.
pub mod Advance
pub mod Progress
use ledger_system.Prelude.{
  ℕ, String, string_eq, Bool, true, false, not, ◌&&◌, Option, none, some, List, ◌==◌, nat_eq, find,
  filter, any, includes, length, if◌then◌else◌, Result, ok, err,
}
use ledger_system.Prelude.Dict.{Dict, lookup, insert}
use ledger_system.Prelude.Texts.{codes}
use ledger_system.Prelude.Strings.{is_blank, join, ◌<>◌}
use ledger_system.Domain.Money.{is_decimal}

pub data SlotType : Type 0 where
  string money date choice party event_ref : SlotType

pub record SlotDefinition : Type 0 where
  pub key : String
  pub type : SlotType
  pub prompt : String
  pub required : Bool
  pub help : Option String
  pub choices : Option (List String)
  pub suggestion_source : Option String
  pub allow_unidentifiable : Option Bool

pub record Scenario : Type 0 where
  pub id : String
  pub title : String
  pub description : String
  pub slots : List SlotDefinition

pub data DialogState : Type 0 where
  question : (slot : SlotDefinition) (answered total : ℕ) → DialogState
  ready : (answered total : ℕ) → DialogState

pub record SlotValidationError : Type 0 where
  pub key : String
  pub message : String

-- `isBlank`
abbrev pub is_blank_answer : Option String → Bool
is_blank_answer none = true
is_blank_answer (some v) = is_blank v

abbrev pub is_asked : Dict String → SlotDefinition → Bool
is_asked answers s = s.required && is_blank_answer (lookup s.key answers)

abbrev pub state_of : Option SlotDefinition → ℕ → ℕ → DialogState
state_of none answered total = DialogState.ready answered total
state_of (some next) answered total = DialogState.question next answered total

-- `DialogEngine.nextState`
unfoldable pub next_state : Scenario → Dict String → DialogState
next_state scenario answers =
    state_of (find (is_asked answers) scenario.slots)
      (length (filter (λ s. not (is_blank_answer (lookup s.key answers))) scenario.slots))
      (length scenario.slots)

abbrev fault : SlotDefinition → String → Option SlotValidationError
fault slot message = some (record { key = slot.key; message = message })

-- `Number(value) > 0` of a text of digits with a point.
abbrev is_positive : List ℕ → Bool
is_positive cs = any (λ c. not (c == b'0') && not (c == b'.')) cs

abbrev validate_type :
    (is_date : String → Bool) → SlotType → SlotDefinition → String → Option SlotValidationError
validate_type is_date SlotType.money slot value =
    if not (is_decimal (codes value))
    then fault slot "Enter a valid amount, e.g. 1500.00."
    else if not (is_positive (codes value))
    then fault slot "Amount must be greater than zero."
    else none
validate_type is_date SlotType.date slot value =
    if is_date value then none else fault slot "Enter a valid date."
validate_type is_date SlotType.choice slot value = elim (slot.choices) [
  | none ↦ none
  | some choices ↦
      if includes choices value
      then none
      else fault slot ("Choose one of: " <> join ", " choices <> ".")
]
validate_type is_date _ slot value = none

-- `DialogEngine.validateAnswer`
unfoldable pub validate_answer :
    (is_date : String → Bool) → SlotDefinition → String → Option SlotValidationError
validate_answer is_date slot value =
    if slot.required && is_blank value
    then fault slot (slot.prompt <> " is required.")
    else if is_blank value
    then none
    else validate_type is_date slot.type slot value

pub data IntentStatus : Type 0 where
  draft gathering awaiting_confirmation confirmed submitted awaiting_correction : IntentStatus
  accepted rejected : IntentStatus

pub record IntentProps : Type 0 where
  pub id : String
  pub scenario_id : String
  pub user_id : String
  pub status : IntentStatus
  pub answers : Dict String
  pub created_at : String
  pub updated_at : String
  pub ledger_reference : Option String
  pub rejection_reason : Option String

abbrev pub start : String → String → String → (now : String) → IntentProps
start id scenario_id user_id now = record {
  id = id;
  scenario_id = scenario_id;
  user_id = user_id;
  status = IntentStatus.gathering;
  answers = List.[];
  created_at = now;
  updated_at = now;
  ledger_reference = none;
  rejection_reason = none;
}

-- `Intent.record`
abbrev pub record_answer : String → String → (now : String) → IntentProps → IntentProps
record_answer key value now intent = record intent {
  answers = insert key value intent.answers;
  status = IntentStatus.gathering;
  updated_at = now;
}

abbrev pub mark_awaiting_confirmation : (now : String) → IntentProps → IntentProps
mark_awaiting_confirmation now intent = record intent {
  status = IntentStatus.awaiting_confirmation;
  updated_at = now;
}

pub data IntentError : Type 0 where
  -- `throw new Error("Intent … is not ready to submit …")`
  not_ready : (id : String) (status : IntentStatus) → IntentError

abbrev pub mark_submitted : (now : String) → IntentProps → Result IntentError IntentProps
mark_submitted now intent = elim (intent.status) [
  | awaiting_confirmation ↦ ok (record intent { status = IntentStatus.submitted; updated_at = now })
  | other ↦ err (not_ready intent.id other)
]

abbrev pub mark_awaiting_correction : (now : String) → IntentProps → IntentProps
mark_awaiting_correction now intent = record intent {
  status = IntentStatus.awaiting_correction;
  updated_at = now;
}

abbrev pub mark_accepted : (ledger_reference now : String) → IntentProps → IntentProps
mark_accepted ledger_reference now intent = record intent {
  status = IntentStatus.accepted;
  ledger_reference = some ledger_reference;
  updated_at = now;
}

abbrev pub mark_rejected : (reason now : String) → IntentProps → IntentProps
mark_rejected reason now intent = record intent {
  status = IntentStatus.rejected;
  rejection_reason = some reason;
  updated_at = now;
}
