-- ===== src/Domain/Contracts/Commissions.antt =====
-- Contracts of the commission events (ledger/src/core/domain/contracts/EventContract.ts).
use ledger_system.Prelude.{true, false, none, some, [], ◌∷◌}
use ledger_system.Domain.Enums.{
  EventType, EconomicEffect, Relation, ObjectType, ReasonType, ConfidenceLevel,
}
use ledger_system.Domain.Contracts.Shape.{EventSemanticContract}

abbrev pub commission_split_contract : EventSemanticContract
commission_split_contract = record {
  economic_effects = EconomicEffect.cash_out ∷ EconomicEffect.cash_internal ∷ [];
  objects =
      record {
        object_type = ObjectType.commission_pool;
        relations = Relation.adjusts ∷ Relation.settles ∷ [];
      }
      ∷ record {
        object_type = ObjectType.commission_payable;
        relations = Relation.originates ∷ Relation.settles ∷ [];
      }
      ∷ [];
  reasons = some (ReasonType.commission_split ∷ []);
  min_confidence = none;
  requires_previous_hash = false;
  requires_related_event_id = false;
  allowed_origin_types = none;
  admits_due_at = false;
}

abbrev pub commission_received_contract : EventSemanticContract
commission_received_contract = record {
  economic_effects = EconomicEffect.cash_in ∷ [];
  objects =
      record { object_type = ObjectType.commission_receivable; relations = Relation.settles ∷ [] }
      ∷ [];
  reasons = some (
      ReasonType.commission_payment ∷ ReasonType.direct_commission_payment_authorized
      ∷ ReasonType.unknown_origin ∷ []);
  min_confidence = some ConfidenceLevel.medium;
  requires_previous_hash = false;
  requires_related_event_id = true;
  allowed_origin_types = some (EventType.commission_expected ∷ []);
  admits_due_at = false;
}

abbrev pub commission_waiver_contract : EventSemanticContract
commission_waiver_contract = record {
  economic_effects = EconomicEffect.non_cash ∷ [];
  objects =
      record {
        object_type = ObjectType.commission_entitlement;
        relations = Relation.settles ∷ Relation.reverses ∷ [];
      }
      ∷ [];
  reasons = some (ReasonType.commission_waiver ∷ []);
  min_confidence = none;
  requires_previous_hash = false;
  requires_related_event_id = false;
  allowed_origin_types = none;
  admits_due_at = false;
}

abbrev pub direct_payment_acknowledged_contract : EventSemanticContract
direct_payment_acknowledged_contract = record {
  economic_effects = EconomicEffect.non_cash ∷ [];
  objects =
      record { object_type = ObjectType.commission_receivable; relations = Relation.settles ∷ [] }
      ∷ record {
        object_type = ObjectType.commission_entitlement;
        relations = Relation.settles ∷ [];
      }
      ∷ [];
  reasons = some (ReasonType.late_awareness ∷ ReasonType.direct_commission_payment_authorized ∷ []);
  min_confidence = none;
  requires_previous_hash = false;
  requires_related_event_id = false;
  allowed_origin_types = none;
  admits_due_at = false;
}

abbrev pub commission_expected_contract : EventSemanticContract
commission_expected_contract = record {
  economic_effects = EconomicEffect.non_cash ∷ [];
  objects =
      record {
        object_type = ObjectType.commission_receivable;
        relations = Relation.originates ∷ [];
      }
      ∷ [];
  reasons = some (
      ReasonType.commission_accrual ∷ ReasonType.commission_payment
      ∷ ReasonType.late_identified_commission ∷ []);
  min_confidence = some ConfidenceLevel.medium;
  requires_previous_hash = false;
  requires_related_event_id = false;
  allowed_origin_types = none;
  admits_due_at = false;
}
