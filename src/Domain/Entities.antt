-- ===== src/Domain/Entities.antt =====
-- The value objects and entities that an event is made of (ledger/src/core/domain/value-objects
-- and entities). An instant is the number of milliseconds since the epoch, as `Date.getTime` gives it.
use ledger_system.Prelude.{ℕ, String, Bool, Option, List, ◌==◌, string_eq, ok, ◌>>◌, throw_if}
use ledger_system.Domain.Errors.{
  Throws, invalid_event_id, source_system_required, source_reference_required,
  normalization_version_required, worker_id_required,
}
use ledger_system.Domain.Enums.{
  EventType, EconomicEffect, Relation, ObjectType, ReasonType, ConfidenceLevel, Direction,
  PartyRole, ReporterType,
}
use ledger_system.Domain.Money.{Money}

abbrev pub Instant : Type 0
Instant = ℕ

-- `new EventId(value)`; the identifier itself is the text.
unfoldable pub new_event_id : String → Throws String
new_event_id value = do throw_if (value == "") invalid_event_id; ok value

pub record EventSource : Type 0 where
  pub system : String
  pub reference : String

unfoldable pub new_event_source : String → String → Throws EventSource
new_event_source system reference = do
  throw_if (system == "") source_system_required
  throw_if (reference == "") source_reference_required
  ok (record { system = system; reference = reference })

pub record NormalizationMetadata : Type 0 where
  pub version : String
  pub worker_id : String

unfoldable pub new_normalization : String → String → Throws NormalizationMetadata
new_normalization version worker_id = do
  throw_if (version == "") normalization_version_required
  throw_if (worker_id == "") worker_id_required
  ok (record { version = version; worker_id = worker_id })

pub record LedgerEventParty : Type 0 where
  pub party_id : String
  pub role : PartyRole
  pub direction : Direction
  pub amount : Option Money

pub record LedgerEventObject : Type 0 where
  pub object_id : String
  pub object_type : ObjectType
  pub relation : Relation

pub record EventReason : Type 0 where
  pub type : ReasonType
  pub description : String
  pub confidence : ConfidenceLevel
  pub requires_followup : Bool

pub record EventReporter : Type 0 where
  pub reporter_type : ReporterType
  pub reporter_id : String
  pub reporter_name : Option String
  pub reported_at : Instant
  pub channel : String

-- `CreateLedgerEventProps`. The hash of another event is its text.
pub record CreateLedgerEventProps : Type 0 where
  pub id : String
  pub event_type : EventType
  pub economic_effect : EconomicEffect
  pub occurred_at : Instant
  pub source_at : Option Instant
  pub due_at : Option Instant
  pub amount : Money
  pub description : Option String
  pub source : EventSource
  pub normalization : NormalizationMetadata
  pub previous_hash : Option String
  pub command_id : Option String
  pub related_event_id : Option String
  pub parties : List LedgerEventParty
  pub objects : List LedgerEventObject
  pub reason : Option EventReason
  pub reporter : EventReporter

pub record LedgerEvent : Type 0 where
  pub id : String
  pub event_type : EventType
  pub economic_effect : EconomicEffect
  pub occurred_at : Instant
  pub recorded_at : Instant
  pub source_at : Option Instant
  pub due_at : Option Instant
  pub amount : Money
  pub description : Option String
  pub source : EventSource
  pub normalization : NormalizationMetadata
  pub hash : String
  pub previous_hash : Option String
  pub command_id : Option String
  pub related_event_id : Option String
  pub parties : List LedgerEventParty
  pub objects : List LedgerEventObject
  pub reason : Option EventReason
  pub reporter : EventReporter
