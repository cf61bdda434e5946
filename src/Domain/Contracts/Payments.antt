-- ===== src/Domain/Contracts/Payments.antt =====
-- Contracts of the payments that go out (ledger/src/core/domain/contracts/EventContract.ts).
use ledger_system.Prelude.{false, none, some, [], ◌∷◌}
use ledger_system.Domain.Enums.{EconomicEffect, Relation, ObjectType, ReasonType, ConfidenceLevel}
use ledger_system.Domain.Contracts.Shape.{EventSemanticContract}

abbrev pub payroll_payment_contract : EventSemanticContract
payroll_payment_contract = record {
  economic_effects = EconomicEffect.cash_out ∷ [];
  objects = record { object_type = ObjectType.payroll; relations = Relation.settles ∷ [] } ∷ [];
  reasons = some (ReasonType.payroll_payment ∷ []);
  min_confidence = some ConfidenceLevel.medium;
  requires_previous_hash = false;
  requires_related_event_id = false;
  allowed_origin_types = none;
  admits_due_at = false;
}

abbrev pub penalty_payment_contract : EventSemanticContract
penalty_payment_contract = record {
  economic_effects = EconomicEffect.cash_out ∷ [];
  objects = record { object_type = ObjectType.penalty; relations = Relation.settles ∷ [] } ∷ [];
  reasons = some (ReasonType.penalty_payment ∷ []);
  min_confidence = none;
  requires_previous_hash = false;
  requires_related_event_id = false;
  allowed_origin_types = none;
  admits_due_at = false;
}

abbrev pub infrastructure_expense_contract : EventSemanticContract
infrastructure_expense_contract = record {
  economic_effects = EconomicEffect.cash_out ∷ [];
  objects =
      record { object_type = ObjectType.infrastructure_cost; relations = Relation.settles ∷ [] }
      ∷ [];
  reasons = some (ReasonType.infrastructure_expense ∷ []);
  min_confidence = none;
  requires_previous_hash = false;
  requires_related_event_id = false;
  allowed_origin_types = none;
  admits_due_at = false;
}

abbrev pub service_fee_payment_contract : EventSemanticContract
service_fee_payment_contract = record {
  economic_effects = EconomicEffect.cash_out ∷ [];
  objects = record { object_type = ObjectType.service_fee; relations = Relation.settles ∷ [] } ∷ [];
  reasons = some (ReasonType.service_fee_payment ∷ []);
  min_confidence = none;
  requires_previous_hash = false;
  requires_related_event_id = false;
  allowed_origin_types = none;
  admits_due_at = false;
}

abbrev pub tax_payment_contract : EventSemanticContract
tax_payment_contract = record {
  economic_effects = EconomicEffect.cash_out ∷ [];
  objects = record { object_type = ObjectType.tax; relations = Relation.settles ∷ [] } ∷ [];
  reasons = some (ReasonType.tax_payment ∷ []);
  min_confidence = none;
  requires_previous_hash = false;
  requires_related_event_id = false;
  allowed_origin_types = none;
  admits_due_at = false;
}

abbrev pub outbound_payment_contract : EventSemanticContract
outbound_payment_contract = record {
  economic_effects = EconomicEffect.cash_out ∷ [];
  objects = record { object_type = ObjectType.payable; relations = Relation.settles ∷ [] } ∷ [];
  reasons = some (ReasonType.ordinary_settlement ∷ []);
  min_confidence = some ConfidenceLevel.medium;
  requires_previous_hash = false;
  requires_related_event_id = false;
  allowed_origin_types = none;
  admits_due_at = false;
}

abbrev pub incentive_payment_contract : EventSemanticContract
incentive_payment_contract = record {
  economic_effects = EconomicEffect.cash_out ∷ EconomicEffect.non_cash ∷ [];
  objects =
      record {
        object_type = ObjectType.incentive;
        relations = Relation.originates ∷ Relation.settles ∷ [];
      }
      ∷ record {
        object_type = ObjectType.bonus;
        relations = Relation.originates ∷ Relation.settles ∷ [];
      }
      ∷ [];
  reasons = some (ReasonType.incentive_payment ∷ []);
  min_confidence = none;
  requires_previous_hash = false;
  requires_related_event_id = false;
  allowed_origin_types = none;
  admits_due_at = false;
}
