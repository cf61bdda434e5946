-- ===== src/Domain/Errors.antt =====
-- What the ledger throws: one constructor for each `throw new Error(...)`, with the values that its
-- message shows.
pub mod Messages
use ledger_system.Prelude.{String, List}
use ledger_system.Prelude.{Result}
use ledger_system.Domain.Enums.{EventType, EconomicEffect, Relation, ObjectType, ReasonType}

pub data LedgerError : Type 0 where
  -- Money
  money_negative invalid_currency invalid_decimal currency_mismatch : LedgerError
  negative_subtraction : LedgerError
  -- value objects
  invalid_event_id source_system_required source_reference_required : LedgerError
  normalization_version_required worker_id_required : LedgerError
  staging_id_required description_required : LedgerError
  -- LedgerEvent.validateBasic
  amount_zero no_party no_object : LedgerError
  payer_inbound payee_outbound : (party_id : String) → LedgerError
  -- LedgerEvent.validateFlow
  party_currency_mismatch : LedgerError
  internal_unbalanced internal_total_mismatch : LedgerError
  cash_in_without_inbound cash_in_total_mismatch cash_in_with_outbound : LedgerError
  cash_out_without_outbound cash_out_total_mismatch cash_out_with_inbound : LedgerError
  non_cash_flow contingent_flow allocation_gap : LedgerError
  -- LedgerEvent.validateReasonRules
  non_cash_without_reason contingent_without_followup : LedgerError
  -- InvariantPolicy.validateSemantic
  effect_not_allowed : EconomicEffect → EventType → LedgerError
  relation_not_allowed_for_effect : Relation → EconomicEffect → LedgerError
  relation_not_allowed_for_object : Relation → ObjectType → LedgerError
  object_not_allowed : ObjectType → EventType → LedgerError
  relation_not_allowed_on_event : Relation → ObjectType → EventType → LedgerError
  reason_required : LedgerError
  reason_not_allowed : ReasonType → EventType → LedgerError
  reason_not_allowed_for_effect : ReasonType → EconomicEffect → LedgerError
  reason_incompatible : ReasonType → Relation → LedgerError
  insufficient_confidence reversal_without_previous_hash : LedgerError
  previous_hash_required related_event_required : EventType → LedgerError
  contextual_must_reference : ObjectType → LedgerError
  retraction_without_target retraction_with_flow : LedgerError
  due_at_not_admitted : EventType → LedgerError
  due_at_without_origination : LedgerError
  -- CreateLedgerEventUseCase
  duplicate_source_reference origin_not_found : String → LedgerError
  origin_wrong_type : List EventType → EventType → LedgerError
  already_retracted : (target retraction : String) → LedgerError
  retraction_chain_too_deep : LedgerError
  over_settlement : (object_id outstanding : String) → LedgerError
  -- InMemoryLedgerEventRepository.save
  immutability_violation : String → LedgerError
  -- ReceiptLineageResolver.resolve
  receivable_missing : LedgerError
  -- RejectedEvent.create
  no_rejection_reason : LedgerError
  -- A cast that the source does not check, of a value that its type does not admit.
  unchecked_cast : LedgerError
  -- `reduce` of an empty array without an initial value
  reduce_of_empty : LedgerError

-- A computation of the ledger that may throw.
abbrev pub Throws {ℓ} : Type ℓ → Type ℓ
Throws A = Result LedgerError A
