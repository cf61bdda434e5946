-- ===== src/Application/Recording/Shape.antt =====
-- What a command carries (ledger/src/core/application/dtos/CreateLedgerEventInput.ts), the state of
-- the ledger, and what a run takes from outside.
use ledger_system.Prelude.{String, Option, List}
use ledger_system.Domain.Enums.{EventType, EconomicEffect, Direction, PartyRole, ReporterType}
use ledger_system.Domain.Entities.{Instant, LedgerEventObject, EventReason, LedgerEvent}

pub record CommandParty : Type 0 where
  pub party_id : String
  pub role : PartyRole
  pub direction : Direction
  pub amount : Option String

pub record CommandReporter : Type 0 where
  pub reporter_type : ReporterType
  pub reporter_id : String
  pub reporter_name : Option String
  pub channel : String

pub record CreateLedgerEventCommand : Type 0 where
  pub event_type : EventType
  pub economic_effect : EconomicEffect
  pub occurred_at : Instant
  pub source_at : Option Instant
  pub due_at : Option Instant
  pub amount : String
  pub currency : String
  pub description : Option String
  pub source_system : String
  pub source_reference : String
  pub normalization_version : String
  pub normalization_worker_id : String
  pub command_id : Option String
  pub related_event_id : Option String
  pub parties : List CommandParty
  pub objects : List LedgerEventObject
  pub reason : Option EventReason
  pub reporter : CommandReporter

-- The entry that `IAuditLogger.log` is given.
pub record AuditEntry : Type 0 where
  pub action : String
  pub timestamp : String
  pub source_system : String
  pub source_reference : String
  pub event_id : String
  pub event_type : EventType
  pub economic_effect : EconomicEffect
  pub command_id : Option String

-- The repository, and the entries of the audit log that recorded events leave. The log of the source
-- is one: the entries of rejections stand between these, and are kept apart in `Rejections`.
pub record Ledger : Type 0 where
  pub book : List LedgerEvent
  pub audit : List AuditEntry

-- One run's `crypto.randomUUID()`, its two readings of the clock, and SHA-256.
pub record Env : Type 0 where
  pub uuid : String
  pub reported_at : Instant
  pub recorded_at : Instant
  pub sha256 : String → String
