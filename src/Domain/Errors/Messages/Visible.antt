-- ===== src/Domain/Errors/Messages/Visible.antt =====
-- The messages of errors as `RejectionReason` takes them: none is blank
-- (the `throw` statements under ledger/src/core/domain and application).
use ledger_system.Prelude.{refl}
use ledger_system.Prelude.Strings.{is_blank, trim, trim_start, trim_end}
use ledger_system.Prelude.Strings.Blank.{IsVisible, append-IsVisible}
use ledger_system.Domain.Errors.{LedgerError}
use ledger_system.Domain.Errors.Messages.{message}

pub message-IsVisible : (e : LedgerError) → IsVisible (message e)
unfolding message is_blank trim trim_start trim_end
message-IsVisible LedgerError.money_negative = record { visible = refl }
message-IsVisible LedgerError.invalid_currency = record { visible = refl }
message-IsVisible LedgerError.invalid_decimal = record { visible = refl }
message-IsVisible LedgerError.currency_mismatch = record { visible = refl }
message-IsVisible LedgerError.negative_subtraction = record { visible = refl }
message-IsVisible LedgerError.invalid_event_id = record { visible = refl }
message-IsVisible LedgerError.source_system_required = record { visible = refl }
message-IsVisible LedgerError.source_reference_required = record { visible = refl }
message-IsVisible LedgerError.normalization_version_required = record { visible = refl }
message-IsVisible LedgerError.worker_id_required = record { visible = refl }
message-IsVisible LedgerError.staging_id_required = record { visible = refl }
message-IsVisible LedgerError.description_required = record { visible = refl }
message-IsVisible LedgerError.amount_zero = record { visible = refl }
message-IsVisible LedgerError.no_party = record { visible = refl }
message-IsVisible LedgerError.no_object = record { visible = refl }
message-IsVisible (LedgerError.payer_inbound id) = append-IsVisible "Party " _ refl
message-IsVisible (LedgerError.payee_outbound id) = append-IsVisible "Party " _ refl
message-IsVisible LedgerError.party_currency_mismatch = record { visible = refl }
message-IsVisible LedgerError.internal_unbalanced = record { visible = refl }
message-IsVisible LedgerError.internal_total_mismatch = record { visible = refl }
message-IsVisible LedgerError.cash_in_without_inbound = record { visible = refl }
message-IsVisible LedgerError.cash_in_total_mismatch = record { visible = refl }
message-IsVisible LedgerError.cash_in_with_outbound = record { visible = refl }
message-IsVisible LedgerError.cash_out_without_outbound = record { visible = refl }
message-IsVisible LedgerError.cash_out_total_mismatch = record { visible = refl }
message-IsVisible LedgerError.cash_out_with_inbound = record { visible = refl }
message-IsVisible LedgerError.non_cash_flow = record { visible = refl }
message-IsVisible LedgerError.contingent_flow = record { visible = refl }
message-IsVisible LedgerError.allocation_gap = record { visible = refl }
message-IsVisible LedgerError.non_cash_without_reason = record { visible = refl }
message-IsVisible LedgerError.contingent_without_followup = record { visible = refl }
message-IsVisible (LedgerError.effect_not_allowed e t) =
    append-IsVisible "Invalid economic effect " _ refl
message-IsVisible (LedgerError.relation_not_allowed_for_effect r e) =
    append-IsVisible "Relation " _ refl
message-IsVisible (LedgerError.relation_not_allowed_for_object r o) =
    append-IsVisible "Relation " _ refl
message-IsVisible (LedgerError.object_not_allowed o t) = append-IsVisible "Object type " _ refl
message-IsVisible (LedgerError.relation_not_allowed_on_event r o t) =
    append-IsVisible "Relation " _ refl
message-IsVisible LedgerError.reason_required = record { visible = refl }
message-IsVisible (LedgerError.reason_not_allowed r t) = append-IsVisible "Reason " _ refl
message-IsVisible (LedgerError.reason_not_allowed_for_effect r e) =
    append-IsVisible "Reason " _ refl
message-IsVisible (LedgerError.reason_incompatible r l) = append-IsVisible "Reason " _ refl
message-IsVisible LedgerError.insufficient_confidence = record { visible = refl }
message-IsVisible LedgerError.reversal_without_previous_hash = record { visible = refl }
message-IsVisible (LedgerError.previous_hash_required t) = append-IsVisible "Event type " _ refl
message-IsVisible (LedgerError.related_event_required t) = append-IsVisible "Event type " _ refl
message-IsVisible (LedgerError.contextual_must_reference o) =
    append-IsVisible "Contextual object " _ refl
message-IsVisible LedgerError.retraction_without_target = record { visible = refl }
message-IsVisible LedgerError.retraction_with_flow = record { visible = refl }
message-IsVisible (LedgerError.due_at_not_admitted t) = append-IsVisible "Event type " _ refl
message-IsVisible LedgerError.due_at_without_origination = record { visible = refl }
message-IsVisible (LedgerError.duplicate_source_reference reference) =
    append-IsVisible "Duplicate source reference: " _ refl
message-IsVisible (LedgerError.origin_not_found id) =
    append-IsVisible "Origin event not found: " _ refl
message-IsVisible (LedgerError.origin_wrong_type allowed found) =
    append-IsVisible "relatedEventId must point to a " _ refl
message-IsVisible (LedgerError.already_retracted target retraction) =
    append-IsVisible "Event " _ refl
message-IsVisible LedgerError.retraction_chain_too_deep = record { visible = refl }
message-IsVisible (LedgerError.over_settlement id outstanding) =
    append-IsVisible "Over-settlement: the outstanding balance of " _ refl
message-IsVisible (LedgerError.immutability_violation id) =
    append-IsVisible "Immutability violation: event " _ refl
message-IsVisible LedgerError.receivable_missing = record { visible = refl }
message-IsVisible LedgerError.no_rejection_reason = record { visible = refl }
message-IsVisible LedgerError.reduce_of_empty = record { visible = refl }
message-IsVisible LedgerError.unchecked_cast = record { visible = refl }
