-- ===== src/Application/Projection/Shape.antt =====
-- What the projection of a position returns (ledger/src/core/application/dtos/PositionSummary.ts).
use ledger_system.Prelude.{ℕ, String, Bool, Option, List}
use ledger_system.Domain.Enums.{EventType, ObjectType, ReporterType, PartyRole, Direction}
use ledger_system.Domain.Money.{Money}
use ledger_system.Domain.Entities.{Instant, LedgerEventObject, LedgerEvent}
use ledger_system.Application.Positions.{PositionStatus, EconomicOutcome}

-- The variables of the loop.
pub record Figures : Type 0 where
  pub total_originated : Money
  pub total_settled : Money
  pub total_adjusted : Money
  pub cash_recovered : Money
  pub non_cash_closed : Money
  pub ref_cash_in : Money
  pub ref_cash_out : Money
  pub has_reversal : Bool
  pub has_unresolved_lineage : Bool

pub record OriginParty : Type 0 where
  pub party_id : String
  pub role : PartyRole
  pub direction : Direction
  pub amount : Option String

pub record PositionOrigin : Type 0 where
  pub event_id : String
  pub event_type : EventType
  pub occurred_at : Instant
  pub source_reference : String
  pub source_system : String
  pub description : Option String
  pub reporter_type : ReporterType
  pub reporter_id : String
  pub reporter_name : Option String
  pub channel : String
  pub parties : List OriginParty
  pub related_objects : List LedgerEventObject

pub record PositionSummary : Type 0 where
  pub object_id : String
  pub object_type : ObjectType
  pub status : PositionStatus
  pub total_originated : Money
  pub total_settled : Money
  pub total_adjusted : Money
  pub open_balance : Option Money
  pub over_settlement : Option Money
  pub cash_recovered : Money
  pub non_cash_closed : Money
  pub allocation_gap : Money
  pub outcome : EconomicOutcome
  pub event_count : ℕ
  pub events : List LedgerEvent
  pub origin : Option PositionOrigin
