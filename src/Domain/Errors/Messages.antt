-- ===== src/Domain/Errors/Messages.antt =====
-- The message of each error that the ledger throws, as the `throw` statements write it
-- (ledger/src/core/domain, CreateLedgerEventUseCase.ts, InMemoryLedgerEventRepository.ts,
-- ReceiptLineageResolver.ts).
pub mod Visible
use ledger_system.Prelude.{String, map}
use ledger_system.Prelude.Strings.{◌<>◌, join}
use ledger_system.Domain.Enums.{
  event_type_text, economic_effect_text, relation_text, object_type_text, reason_type_text,
}
use ledger_system.Domain.Errors.{LedgerError}

-- `err.message`
unfoldable pub message : LedgerError → String
message LedgerError.money_negative = "Money cannot be negative"
message LedgerError.invalid_currency = "Invalid currency format (must be ISO-4217)"
message LedgerError.invalid_decimal = "Invalid decimal format (max 2 decimal places, positive only)"
message LedgerError.currency_mismatch = "Currency mismatch"
message LedgerError.negative_subtraction = "Money subtraction would result in negative value"
message LedgerError.invalid_event_id = "Invalid EventId"
message LedgerError.source_system_required = "Source system required"
message LedgerError.source_reference_required = "Source reference required"
message LedgerError.normalization_version_required = "Normalization version required"
message LedgerError.worker_id_required = "Worker id required"
message LedgerError.staging_id_required = "StagingId is required"
message LedgerError.description_required = "Description is required"
message LedgerError.amount_zero = "Event amount cannot be zero"
message LedgerError.no_party = "Event must contain at least one party"
message LedgerError.no_object = "Event must reference at least one economic object"
message (LedgerError.payer_inbound id) = "Party " <> id <> ": PAYER cannot have direction IN"
message (LedgerError.payee_outbound id) = "Party " <> id <> ": PAYEE cannot have direction OUT"
message LedgerError.party_currency_mismatch = "Party amount currency mismatch"
message LedgerError.internal_unbalanced = "Internal transfer must balance"
message LedgerError.internal_total_mismatch = "Internal transfer total must match event amount"
message LedgerError.cash_in_without_inbound = "Cash in must have inbound flow"
message LedgerError.cash_in_total_mismatch = "Cash in total must match event amount"
message LedgerError.cash_in_with_outbound = "Cash in cannot have outbound flow"
message LedgerError.cash_out_without_outbound = "Cash out must have outbound flow"
message LedgerError.cash_out_total_mismatch = "Cash out total must match event amount"
message LedgerError.cash_out_with_inbound = "Cash out cannot have inbound flow"
message LedgerError.non_cash_flow = "Non-cash event cannot alter cash flow"
message LedgerError.contingent_flow = "Contingent event cannot generate cash flow"
message LedgerError.allocation_gap =
    "Allocated amounts (neutral parties) must account for all directional cash flow"
message LedgerError.non_cash_without_reason = "Non-cash events require a reason"
message LedgerError.contingent_without_followup = "Contingent events must require follow-up"
message (LedgerError.effect_not_allowed e t) =
    "Invalid economic effect " <> economic_effect_text e <> " for " <> event_type_text t
message (LedgerError.relation_not_allowed_for_effect r e) =
    "Relation " <> relation_text r <> " not allowed for economic effect " <> economic_effect_text e
message (LedgerError.relation_not_allowed_for_object r o) =
    "Relation " <> relation_text r <> " not allowed for object " <> object_type_text o
message (LedgerError.object_not_allowed o t) =
    "Object type " <> object_type_text o <> " not allowed for event type " <> event_type_text t
message (LedgerError.relation_not_allowed_on_event r o t) =
    "Relation "
    <> relation_text r
    <> " not allowed for object "
    <> object_type_text o
    <> " on event type "
    <> event_type_text t
message LedgerError.reason_required = "Reason required"
message (LedgerError.reason_not_allowed r t) =
    "Reason " <> reason_type_text r <> " not allowed for " <> event_type_text t
message (LedgerError.reason_not_allowed_for_effect r e) =
    "Reason " <> reason_type_text r <> " not allowed for economic effect " <> economic_effect_text e
message (LedgerError.reason_incompatible r l) =
    "Reason " <> reason_type_text r <> " incompatible with relation " <> relation_text l
message LedgerError.insufficient_confidence = "Insufficient confidence level"
message LedgerError.reversal_without_previous_hash = "Reversal events require previousHash"
message (LedgerError.previous_hash_required t) =
    "Event type " <> event_type_text t <> " requires previousHash"
message (LedgerError.related_event_required t) =
    "Event type "
    <> event_type_text t
    <> " requires relatedEventId pointing to its originating event"
message (LedgerError.contextual_must_reference o) =
    "Contextual object " <> object_type_text o <> " must use relation REFERENCES"
message LedgerError.retraction_without_target =
    "A retraction requires relatedEventId pointing to the event being retracted"
message LedgerError.retraction_with_flow =
    "A retraction cannot also move a position: RETRACTS must be the only relation on the event"
message (LedgerError.due_at_not_admitted t) =
    "Event type "
    <> event_type_text t
    <> " cannot carry a dueAt: only an event that originates an obligation falls due"
message LedgerError.due_at_without_origination =
    "A dueAt requires an object with relation ORIGINATES: a due date belongs to the obligation being originated"
message (LedgerError.duplicate_source_reference reference) =
    "Duplicate source reference: " <> reference
message (LedgerError.origin_not_found id) = "Origin event not found: " <> id
message (LedgerError.origin_wrong_type allowed found) =
    "relatedEventId must point to a "
    <> join " or " (map event_type_text allowed)
    <> " event, but found "
    <> event_type_text found
message (LedgerError.already_retracted target retraction) =
    "Event " <> target <> " has already been retracted by " <> retraction
message LedgerError.retraction_chain_too_deep =
    "Retraction chain too deep: a retraction of a retraction cannot itself be retracted"
message (LedgerError.over_settlement id outstanding) =
    "Over-settlement: the outstanding balance of " <> id <> " is " <> outstanding
message (LedgerError.immutability_violation id) =
    "Immutability violation: event " <> id <> " already exists in the ledger"
message LedgerError.receivable_missing =
    "commission_received has no commission_receivable object; cannot resolve lineage"
message LedgerError.no_rejection_reason = "At least one rejection reason is required"
message LedgerError.reduce_of_empty = "Reduce of empty array with no initial value"
message LedgerError.unchecked_cast = "A value outside of its type"
