-- ===== src/Treasury/Dialog/Advance.antt =====
-- One answer of the user: `AdvanceDialogUseCase`
-- (treasury/src/core/application/use-cases/AdvanceDialog.ts) with
-- treasury/src/core/application/services/IdentitySlotResolution.ts, from the intent and its scenario
-- on. The directory of parties is an argument, and so is the time, which is read once; the entries of
-- the audit log are left out.
use ledger_system.Prelude.{
  String, string_eq, Bool, false, Option, none, some, find, ◌==◌, Result, ok, err,
}
use ledger_system.Treasury.Dialog.{
  SlotType, SlotDefinition, Scenario, DialogState, IntentProps, next_state, validate_answer,
  record_answer, mark_awaiting_confirmation,
}

-- What the directory makes of a mention (treasury/src/core/domain/services/PartyResolution.ts); of a
-- known party its identifier, and whether the user has to confirm it.
pub data Resolution : Type 0 where
  resolved : (party_id : String) (needs_confirmation : Bool) → Resolution
  ambiguous : Resolution
  new : Resolution

-- `recordableId`
abbrev pub recordable_id : Resolution → Option String
recordable_id (Resolution.resolved party_id false) = some party_id
recordable_id _ = none

-- The value to record for an answer that is valid; `none` where the party does not resolve.
abbrev pub value_to_record : (resolve : String → Resolution) → SlotType → String → Option String
value_to_record resolve SlotType.party value = recordable_id (resolve value)
value_to_record resolve _ value = some value

-- The value to record for an answer; `none` where it is refused.
unfoldable pub accepted_value :
    (is_date : String → Bool) (resolve : String → Resolution)
    → SlotDefinition
    → String
    → Option String
accepted_value is_date resolve slot value = elim (validate_answer is_date slot value) [
  | some error ↦ none
  | none ↦ value_to_record resolve slot.type value
]

-- `if (state.kind === "ready") intent.markAwaitingConfirmation(…)`
abbrev pub confirm_if_ready : (now : String) → DialogState → IntentProps → IntentProps
confirm_if_ready now (DialogState.question slot answered total) intent = intent
confirm_if_ready now (DialogState.ready answered total) intent =
    mark_awaiting_confirmation now intent

-- The intent behind an answer for a slot; an answer that is refused is not recorded.
abbrev pub record_accepted :
    (now : String) → Scenario → (key : String) → Option String → IntentProps → IntentProps
record_accepted now scenario key none intent = intent
record_accepted now scenario key (some value) intent =
    let recorded = record_answer key value now intent in
    confirm_if_ready now (next_state scenario recorded.answers) recorded

pub data DialogError : Type 0 where
  -- `throw new Error("Unknown slot …")`
  unknown_slot : (key scenario_id : String) → DialogError

-- `AdvanceDialogUseCase.execute`: the intent that it leaves.
unfoldable pub advance :
    (is_date : String → Bool) (resolve : String → Resolution) (now : String)
    → Scenario
    → (key value : String) → IntentProps
    → Result DialogError IntentProps
advance is_date resolve now scenario key value intent =
    elim (find (λ s. s.key == key) scenario.slots) [
      | none ↦ err (unknown_slot key scenario.id)
      | some slot ↦
          ok (record_accepted now scenario key (accepted_value is_date resolve slot value) intent)
    ]
