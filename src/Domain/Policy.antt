-- ===== src/Domain/Policy.antt =====
-- The semantic checks of an event against the formal matrices and the contract of its type
-- (ledger/src/core/domain/policies/InvariantPolicy.ts, `validateSemantic`): one definition for each
-- numbered step, in the order in which the source runs them.
mod Steps
pub mod Objects
pub mod Relations
pub mod Corrections
pub mod Terms
use ledger_system.Prelude.{
  ℕ, String, Bool, true, false, not, ◌&&◌, ◌||◌, Option, none, some, List, [], ◌∷◌, ◌==◌, ltb,
  truthy, is_some, any, filter, find, includes, ok, err, ◌>>=◌, ◌>>◌, throw_if, for_each,
}
use ledger_system.Domain.Errors.{
  Throws, effect_not_allowed, relation_not_allowed_for_effect, relation_not_allowed_for_object,
  object_not_allowed, relation_not_allowed_on_event, reason_required, reason_not_allowed,
  reason_not_allowed_for_effect, reason_incompatible, insufficient_confidence,
  reversal_without_previous_hash, previous_hash_required, related_event_required,
  contextual_must_reference, retraction_without_target, retraction_with_flow, due_at_not_admitted,
  due_at_without_origination,
}
use ledger_system.Domain.Enums.{
  EventType, event_type_eq, EconomicEffect, economic_effect_eq, Relation, relation_eq, ObjectType,
  object_type_eq, ObjectNature, object_nature_eq, ReasonType, reason_type_eq, ConfidenceLevel,
}
use ledger_system.Domain.Matrices.{
  economic_effect_relation_matrix, object_nature_matrix, object_relation_matrix,
  reason_effect_matrix, reason_relation_matrix,
}
use ledger_system.Domain.Contracts.{ContractObject, EventSemanticContract, event_contracts}
use ledger_system.Domain.Entities.{LedgerEventObject, EventReason, CreateLedgerEventProps, Instant}

abbrev pub is_contextual : LedgerEventObject → Bool
unfolding object_nature_matrix
is_contextual o = object_nature_matrix o.object_type == ObjectNature.contextual

abbrev pub has_relation : Relation → LedgerEventObject → Bool
has_relation r o = o.relation == r

unfoldable pub positional_objects : List LedgerEventObject → List LedgerEventObject
positional_objects = filter (λ o. not (is_contextual o))

unfoldable pub contextual_objects : List LedgerEventObject → List LedgerEventObject
contextual_objects = filter is_contextual

-- Step 1.
pub check_contract_effect : EventSemanticContract → CreateLedgerEventProps → Throws (Unit {0})
check_contract_effect contract props =
    throw_if (not (includes contract.economic_effects props.economic_effect))
      (effect_not_allowed props.economic_effect props.event_type)

-- Step 2.
pub check_effect_relation : EconomicEffect → LedgerEventObject → Throws (Unit {0})
check_effect_relation effect obj =
    throw_if (not (includes (economic_effect_relation_matrix effect) obj.relation))
      (relation_not_allowed_for_effect obj.relation effect)

-- Step 3, with the row of the matrix.
abbrev pub check_row : Option (List Relation) → LedgerEventObject → Throws (Unit {0})
check_row none obj = ok tt
check_row (some allowed) obj =
    throw_if (not (includes allowed obj.relation))
      (relation_not_allowed_for_object obj.relation obj.object_type)

pub check_object_relation : LedgerEventObject → Throws (Unit {0})
check_object_relation obj = check_row (object_relation_matrix obj.object_type) obj

-- Step 4, with the entry of the contract.
abbrev pub check_entry : Option ContractObject → EventType → LedgerEventObject → Throws (Unit {0})
check_entry none event_type obj = err (object_not_allowed obj.object_type event_type)
check_entry (some entry) event_type obj =
    throw_if (not (includes entry.relations obj.relation))
      (relation_not_allowed_on_event obj.relation obj.object_type event_type)

pub check_contract_object :
    EventSemanticContract → EventType → LedgerEventObject → Throws (Unit {0})
check_contract_object contract event_type obj =
    check_entry (find (λ c. c.object_type == obj.object_type) contract.objects) event_type obj

-- Step 5.
abbrev pub check_reason :
    Option (List ReasonType) → Option EventReason → EventType → Throws (Unit {0})
check_reason none reason event_type = ok tt
check_reason (some reasons) none event_type = err reason_required
check_reason (some reasons) (some reason) event_type =
    throw_if (not (includes reasons reason.type)) (reason_not_allowed reason.type event_type)

-- Step 6, with the row of the matrix.
abbrev pub check_effect_row :
    Option (List EconomicEffect) → ReasonType → EconomicEffect → Throws (Unit {0})
check_effect_row none reason effect = ok tt
check_effect_row (some allowed) reason effect =
    throw_if (not (includes allowed effect)) (reason_not_allowed_for_effect reason effect)

pub check_reason_effect : Option EventReason → EconomicEffect → Throws (Unit {0})
check_reason_effect none effect = ok tt
check_reason_effect (some reason) effect =
    check_effect_row (reason_effect_matrix reason.type) reason.type effect

-- Step 7, with the row of the matrix.
abbrev pub check_relation_row :
    Option (List Relation) → ReasonType → List LedgerEventObject → Throws (Unit {0})
check_relation_row none reason objects = ok tt
check_relation_row (some allowed) reason objects = for_each objects (λ obj.
    throw_if (not (includes allowed obj.relation)) (reason_incompatible reason obj.relation))

pub check_reason_relation : Option EventReason → List LedgerEventObject → Throws (Unit {0})
check_reason_relation none objects = ok tt
check_reason_relation (some reason) objects =
    check_relation_row (reason_relation_matrix reason.type) reason.type objects

-- The `hierarchy` of step 8.
abbrev pub hierarchy : ConfidenceLevel → ℕ
hierarchy ConfidenceLevel.low = 1
hierarchy ConfidenceLevel.medium = 2
hierarchy ConfidenceLevel.high = 3

-- Step 8.
abbrev pub check_confidence : Option ConfidenceLevel → Option EventReason → Throws (Unit {0})
check_confidence (some least) (some reason) =
    throw_if (ltb (hierarchy reason.confidence) (hierarchy least)) insufficient_confidence
check_confidence _ _ = ok tt

-- Step 9.
pub check_previous_hash :
    EventSemanticContract → CreateLedgerEventProps → List LedgerEventObject → Throws (Unit {0})
check_previous_hash contract props positional = do
  throw_if (any (has_relation Relation.reverses) positional && not (is_some props.previous_hash))
      reversal_without_previous_hash
  throw_if (contract.requires_previous_hash && not (is_some props.previous_hash))
      (previous_hash_required props.event_type)

-- `declaresUnresolvedOrigin`
abbrev pub declares_unresolved_origin : Option EventReason → Bool
declares_unresolved_origin none = false
declares_unresolved_origin (some reason) =
    reason.type == ReasonType.unknown_origin && reason.requires_followup

-- Step 10.
pub check_related_event : EventSemanticContract → CreateLedgerEventProps → Throws (Unit {0})
check_related_event contract props =
    throw_if
      (contract.requires_related_event_id
        && not (truthy props.related_event_id)
        && not (declares_unresolved_origin props.reason))
      (related_event_required props.event_type)

-- Step 11.
pub check_contextual : LedgerEventObject → Throws (Unit {0})
check_contextual obj =
    throw_if (not (obj.relation == Relation.references)) (contextual_must_reference obj.object_type)

-- Step 12.
pub check_retraction : CreateLedgerEventProps → Throws (Unit {0})
check_retraction props = do
  let retracting = any (has_relation Relation.retracts) props.objects
  throw_if (retracting && not (truthy props.related_event_id)) retraction_without_target
  throw_if (retracting && any (λ o. not (o.relation == Relation.retracts)) props.objects)
      retraction_with_flow

-- Step 13.
pub check_due_at : EventSemanticContract → CreateLedgerEventProps → Throws (Unit {0})
check_due_at contract props = do
  throw_if (is_some props.due_at && not contract.admits_due_at)
      (due_at_not_admitted props.event_type)
  throw_if (is_some props.due_at && not (any (has_relation Relation.originates) props.objects))
      due_at_without_origination

-- `validateSemantic`. Every event type has a contract, so the missing one is not an outcome.
unfoldable pub validate_semantic : CreateLedgerEventProps → Throws (Unit {0})
unfolding check_contract_effect check_effect_relation check_object_relation check_contract_object
    check_reason_effect check_reason_relation check_previous_hash check_related_event
    check_contextual check_retraction check_due_at
validate_semantic props = do
  let contract = event_contracts props.event_type
  let positional = positional_objects props.objects
  let contextual = contextual_objects props.objects
  check_contract_effect contract props
  for_each positional (check_effect_relation props.economic_effect)
  for_each props.objects check_object_relation
  for_each positional (check_contract_object contract props.event_type)
  check_reason contract.reasons props.reason props.event_type
  check_reason_effect props.reason props.economic_effect
  check_reason_relation props.reason positional
  check_confidence contract.min_confidence props.reason
  check_previous_hash contract props positional
  check_related_event contract props
  for_each contextual check_contextual
  check_retraction props
  check_due_at contract props
