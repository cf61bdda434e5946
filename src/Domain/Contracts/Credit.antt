-- ===== src/Domain/Contracts/Credit.antt =====
-- Contracts of advances and loans (ledger/src/core/domain/contracts/EventContract.ts).
use ledger_system.Prelude.{true, false, none, some, [], ◌∷◌}
use ledger_system.Domain.Enums.{EventType, EconomicEffect, Relation, ObjectType, ReasonType}
use ledger_system.Domain.Contracts.Shape.{EventSemanticContract}

abbrev pub advance_payment_contract : EventSemanticContract
advance_payment_contract = record {
  economic_effects = EconomicEffect.cash_out ∷ EconomicEffect.non_cash ∷ [];
  objects =
      record {
        object_type = ObjectType.advance;
        relations = Relation.originates ∷ Relation.adjusts ∷ Relation.settles ∷ [];
      }
      ∷ [];
  reasons = some (ReasonType.advance_payment ∷ []);
  min_confidence = none;
  requires_previous_hash = false;
  requires_related_event_id = false;
  allowed_origin_types = none;
  admits_due_at = false;
}

abbrev pub advance_settlement_contract : EventSemanticContract
advance_settlement_contract = record {
  economic_effects = EconomicEffect.cash_in ∷ EconomicEffect.non_cash ∷ [];
  objects =
      record {
        object_type = ObjectType.advance;
        relations = Relation.settles ∷ Relation.adjusts ∷ [];
      }
      ∷ [];
  reasons = some (
      ReasonType.advance_payment ∷ ReasonType.loss_recognition ∷ ReasonType.debt_restructuring
      ∷ []);
  min_confidence = none;
  requires_previous_hash = false;
  requires_related_event_id = true;
  allowed_origin_types = some (EventType.advance_payment ∷ []);
  admits_due_at = false;
}

abbrev pub loan_origination_contract : EventSemanticContract
loan_origination_contract = record {
  economic_effects = EconomicEffect.cash_out ∷ [];
  objects = record { object_type = ObjectType.loan; relations = Relation.originates ∷ [] } ∷ [];
  reasons = some (ReasonType.loan_origination ∷ []);
  min_confidence = none;
  requires_previous_hash = false;
  requires_related_event_id = false;
  allowed_origin_types = none;
  admits_due_at = false;
}

abbrev pub loan_repayment_contract : EventSemanticContract
loan_repayment_contract = record {
  economic_effects = EconomicEffect.cash_in ∷ EconomicEffect.non_cash ∷ [];
  objects =
      record { object_type = ObjectType.loan; relations = Relation.settles ∷ Relation.adjusts ∷ [] }
      ∷ [];
  reasons = some (
      ReasonType.loan_repayment ∷ ReasonType.loan_repayment_via_commission
      ∷ ReasonType.debt_restructuring ∷ []);
  min_confidence = none;
  requires_previous_hash = false;
  requires_related_event_id = true;
  allowed_origin_types = some (EventType.loan_origination ∷ []);
  admits_due_at = false;
}
