-- ===== src/Domain/Contracts/Shape.antt =====
-- The shape of a contract (ledger/src/core/domain/contracts/EventSemanticContract.ts). A property that
-- a contract leaves out is `none`, or `false` where the source only tests it for truth.
use ledger_system.Prelude.{Bool, Option, List}
use ledger_system.Domain.Enums.{
  EventType, EconomicEffect, Relation, ObjectType, ReasonType, ConfidenceLevel,
}

pub record ContractObject : Type 0 where
  pub object_type : ObjectType
  pub relations : List Relation

pub record EventSemanticContract : Type 0 where
  pub economic_effects : List EconomicEffect
  pub objects : List ContractObject
  pub reasons : Option (List ReasonType)
  pub min_confidence : Option ConfidenceLevel
  pub requires_previous_hash : Bool
  pub requires_related_event_id : Bool
  pub allowed_origin_types : Option (List EventType)
  pub admits_due_at : Bool
