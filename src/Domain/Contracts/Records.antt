-- ===== src/Domain/Contracts/Records.antt =====
-- Contracts of corrections and of recognized obligations (ledger/src/core/domain/contracts/EventContract.ts).
use ledger_system.Prelude.{true, false, none, some, [], ◌∷◌}
use ledger_system.Domain.Enums.{EconomicEffect, Relation, ObjectType, ReasonType, ConfidenceLevel}
use ledger_system.Domain.Contracts.Shape.{EventSemanticContract}

abbrev pub ledger_correction_contract : EventSemanticContract
ledger_correction_contract = record {
  economic_effects = EconomicEffect.non_cash ∷ [];
  objects =
      record {
        object_type = ObjectType.commission_receivable;
        relations = Relation.reverses ∷ Relation.adjusts ∷ Relation.retracts ∷ [];
      }
      ∷ record {
        object_type = ObjectType.commission_payable;
        relations = Relation.reverses ∷ Relation.adjusts ∷ Relation.retracts ∷ [];
      }
      ∷ record {
        object_type = ObjectType.commission_entitlement;
        relations = Relation.reverses ∷ Relation.adjusts ∷ Relation.retracts ∷ [];
      }
      ∷ record {
        object_type = ObjectType.commission_pool;
        relations = Relation.reverses ∷ Relation.adjusts ∷ Relation.retracts ∷ [];
      }
      ∷ record {
        object_type = ObjectType.loan;
        relations = Relation.reverses ∷ Relation.adjusts ∷ Relation.retracts ∷ [];
      }
      ∷ record {
        object_type = ObjectType.advance;
        relations = Relation.reverses ∷ Relation.adjusts ∷ Relation.retracts ∷ [];
      }
      ∷ record {
        object_type = ObjectType.receivable;
        relations = Relation.reverses ∷ Relation.adjusts ∷ Relation.retracts ∷ [];
      }
      ∷ record {
        object_type = ObjectType.payable;
        relations = Relation.reverses ∷ Relation.adjusts ∷ Relation.retracts ∷ [];
      }
      ∷ record {
        object_type = ObjectType.penalty;
        relations = Relation.reverses ∷ Relation.adjusts ∷ Relation.retracts ∷ [];
      }
      ∷ record {
        object_type = ObjectType.chargeback;
        relations = Relation.reverses ∷ Relation.adjusts ∷ Relation.retracts ∷ [];
      }
      ∷ record {
        object_type = ObjectType.incentive;
        relations = Relation.reverses ∷ Relation.adjusts ∷ Relation.retracts ∷ [];
      }
      ∷ record {
        object_type = ObjectType.bonus;
        relations = Relation.reverses ∷ Relation.adjusts ∷ Relation.retracts ∷ [];
      }
      ∷ record {
        object_type = ObjectType.payroll;
        relations = Relation.reverses ∷ Relation.adjusts ∷ Relation.retracts ∷ [];
      }
      ∷ record {
        object_type = ObjectType.service_fee;
        relations = Relation.reverses ∷ Relation.adjusts ∷ Relation.retracts ∷ [];
      }
      ∷ record {
        object_type = ObjectType.infrastructure_cost;
        relations = Relation.reverses ∷ Relation.adjusts ∷ Relation.retracts ∷ [];
      }
      ∷ record {
        object_type = ObjectType.tax;
        relations = Relation.reverses ∷ Relation.adjusts ∷ Relation.retracts ∷ [];
      }
      ∷ [];
  reasons = some (
      ReasonType.manual_correction ∷ ReasonType.data_reconciliation ∷ ReasonType.late_awareness
      ∷ []);
  min_confidence = some ConfidenceLevel.high;
  requires_previous_hash = true;
  requires_related_event_id = false;
  allowed_origin_types = none;
  admits_due_at = false;
}

abbrev pub obligation_recognized_contract : EventSemanticContract
obligation_recognized_contract = record {
  economic_effects = EconomicEffect.non_cash ∷ [];
  objects =
      record { object_type = ObjectType.payroll; relations = Relation.originates ∷ [] }
      ∷ record { object_type = ObjectType.service_fee; relations = Relation.originates ∷ [] }
      ∷ record {
        object_type = ObjectType.infrastructure_cost;
        relations = Relation.originates ∷ [];
      }
      ∷ record { object_type = ObjectType.tax; relations = Relation.originates ∷ [] }
      ∷ record { object_type = ObjectType.payable; relations = Relation.originates ∷ [] }
      ∷ [];
  reasons = some (ReasonType.obligation_recognition ∷ ReasonType.late_awareness ∷ []);
  min_confidence = some ConfidenceLevel.medium;
  requires_previous_hash = false;
  requires_related_event_id = false;
  allowed_origin_types = none;
  admits_due_at = true;
}
