-- ===== src/Application/Submission.antt =====
-- The synchronous submission of a candidate: `SubmitCandidateUseCase`
-- (ledger/src/core/application/use-cases/SubmitCandidateUseCase.ts).
mod Shape
pub mod Cast
pub mod Outcomes
pub use Shape.*
use ledger_system.Prelude.{
  ℕ, String, Bool, true, false, Option, none, some, List, [], ◌∷◌, map, Result, ok, err, ◌>>=◌,
}
use ledger_system.Prelude.Strings.{join}
use ledger_system.Domain.Errors.{LedgerError, Throws}
use ledger_system.Domain.Errors.Messages.{message}
use ledger_system.Domain.Enums.{
  EventType, EconomicEffect, ReporterType, event_type_values, event_type_text,
  economic_effect_values, economic_effect_text, reporter_type_values, reporter_type_text,
  party_role_values, party_role_text, direction_values, direction_text, object_type_values,
  object_type_text, relation_values, relation_text, reason_type_values, reason_type_text,
  confidence_level_values, confidence_level_text,
}
use ledger_system.Domain.Entities.{Instant, LedgerEvent, LedgerEventObject, EventReason}
use ledger_system.Infra.Memory.{get_by_command_id}
use ledger_system.Application.Recording.{
  CreateLedgerEventCommand, CommandParty, CommandReporter, Env, Ledger, execute,
}
use ledger_system.Application.Staging.{
  StagingRecord, StagingParty, StagingObject, StagingReason, StagingReporter, StagingStatus,
  ValidationFailure, validate, default_source_systems,
}
use ledger_system.Application.Staging.Instants.{parse_instant, parse_optional_instant}
use ledger_system.Application.Staging.Catalog.{
  RejectionDetail, classify_staging_failure, classify_error,
}
use ledger_system.Application.Staging.Command.{cast, map_all}

-- `SOURCE_SYSTEM`
abbrev pub source_system : String
source_system = "integration"

-- `NORMALIZATION_VERSION`
abbrev pub normalization_version : String
normalization_version = "1.0"

-- `NORMALIZATION_WORKER`
abbrev pub normalization_worker : String
normalization_worker = "user-app-submit"

abbrev pub staging_party : CandidateParty → StagingParty
staging_party p = record {
  party_id = some p.party_id;
  role = some p.role;
  direction = some p.direction;
  amount = p.amount;
}

abbrev pub staging_object : CandidateObject → StagingObject
staging_object o = record {
  object_id = some o.object_id;
  object_type = some o.object_type;
  relation = some o.relation;
}

abbrev pub staging_reason : Option CandidateReason → Option StagingReason
staging_reason none = none
staging_reason (some r) = some (record {
  type = some r.type;
  description = some r.description;
  confidence = some r.confidence;
  requires_followup = some r.requires_followup;
})

abbrev pub staging_reporter : CandidateReporter → StagingReporter
staging_reporter r = record {
  reporter_type = some r.reporter_type;
  reporter_id = some r.reporter_id;
  reporter_name = r.reporter_name;
  channel = some r.channel;
}

-- `toStagingRecord`; the identifier is a `randomUUID()`.
unfoldable pub to_staging_record : (uuid : String) → SubmitCandidateInput → StagingRecord
to_staging_record uuid input = record {
  id = uuid;
  status = StagingStatus.pending;
  event_type = some input.event_type;
  economic_effect = some input.economic_effect;
  occurred_at = some input.occurred_at;
  source_at = input.source_at;
  due_at = input.due_at;
  amount = some input.amount;
  currency = some input.currency;
  description = input.description;
  source_system = some source_system;
  source_reference = some input.source_reference;
  normalization_version = some normalization_version;
  normalization_worker_id = some normalization_worker;
  related_event_id = input.related_event_id;
  previous_hash = none;
  parties = some (map staging_party input.parties);
  objects = some (map staging_object input.objects);
  reason = staging_reason input.reason;
  reporter = some (staging_reporter input.reporter);
}

abbrev pub candidate_party : CandidateParty → Throws CommandParty
candidate_party p = do
  role ← cast party_role_values party_role_text p.role
  direction ← cast direction_values direction_text p.direction
  ok (record { party_id = p.party_id; role = role; direction = direction; amount = p.amount })

abbrev pub candidate_object : CandidateObject → Throws LedgerEventObject
candidate_object o = do
  type ← cast object_type_values object_type_text o.object_type
  relation ← cast relation_values relation_text o.relation
  ok (record { object_id = o.object_id; object_type = type; relation = relation })

abbrev pub candidate_reason : Option CandidateReason → Throws (Option EventReason)
candidate_reason none = ok none
candidate_reason (some r) = do
  type ← cast reason_type_values reason_type_text r.type
  confidence ← cast confidence_level_values confidence_level_text r.confidence
  ok (
      some (record {
        type = type;
        description = r.description;
        confidence = confidence;
        requires_followup = r.requires_followup;
      }))

-- The literal of `toCommand`, from the values that are cast.
abbrev pub command_with :
    (new_date : String → Instant)
    → SubmitCandidateInput
    → (key : String) → EventType
    → EconomicEffect
    → List CommandParty
    → List LedgerEventObject
    → Option EventReason
    → ReporterType
    → CreateLedgerEventCommand
command_with new_date input key event_type economic_effect parties objects reason reporter_type =
    record {
      event_type = event_type;
      economic_effect = economic_effect;
      occurred_at = parse_instant new_date input.occurred_at;
      source_at = parse_optional_instant new_date input.source_at;
      due_at = parse_optional_instant new_date input.due_at;
      amount = input.amount;
      currency = input.currency;
      description = input.description;
      source_system = source_system;
      source_reference = input.source_reference;
      normalization_version = normalization_version;
      normalization_worker_id = normalization_worker;
      command_id = some key;
      related_event_id = input.related_event_id;
      parties = parties;
      objects = objects;
      reason = reason;
      reporter = record {
        reporter_type = reporter_type;
        reporter_id = input.reporter.reporter_id;
        reporter_name = input.reporter.reporter_name;
        channel = input.reporter.channel;
      };
    }

-- `toCommand`. The source does not check the casts to enums; here a text that is no value is
-- `unchecked_cast`.
unfoldable pub to_command :
    (new_date : String → Instant)
    → SubmitCandidateInput
    → (key : String) → Throws CreateLedgerEventCommand
to_command new_date input key = do
  event_type ← cast event_type_values event_type_text input.event_type
  economic_effect ← cast economic_effect_values economic_effect_text input.economic_effect
  parties ← map_all candidate_party input.parties
  objects ← map_all candidate_object input.objects
  reason ← candidate_reason input.reason
  reporter_type ← cast reporter_type_values reporter_type_text input.reporter.reporter_type
  ok (
      command_with new_date input key event_type economic_effect parties objects reason
        reporter_type)

-- What one submission takes from outside: what the event takes, `new Date`, and the identifier of
-- the record that is validated.
pub record SubmitEnv : Type 0 where
  pub event : Env
  pub new_date : String → Instant
  pub staging_id : String

-- The `try` and `catch` of `execute`.
unfoldable pub submit_valid :
    SubmitEnv → SubmitCandidateInput → (key : String) → Ledger → SubmitOutcome × Ledger
submit_valid env input key ledger =
    elim (to_command env.new_date input key >>= λ c. execute env.event c ledger) [
      | ok result ↦ (SubmitOutcome.accepted result.0.id, result.1)
      | err e ↦ (SubmitOutcome.rejected (message e) (classify_error (message e) ∷ []), ledger)
    ]

-- The part of `execute` behind the test for a known key.
unfoldable pub submit_new :
    SubmitEnv → SubmitCandidateInput → (key : String) → Ledger → SubmitOutcome × Ledger
submit_new env input key ledger =
    elim (validate default_source_systems ledger.book (to_staging_record env.staging_id input)) [
      | [] ↦ submit_valid env input key ledger
      | f ∷ fs ↦ (
        SubmitOutcome.rejected (join "; " (map (λ d. d.description) (f ∷ fs)))
            (map classify_staging_failure (f ∷ fs)),
        ledger,
      )
    ]

-- `SubmitCandidateUseCase.execute`
unfoldable pub submit :
    SubmitEnv → SubmitCandidateInput → (key : String) → Ledger → SubmitOutcome × Ledger
submit env input key ledger = elim (get_by_command_id key ledger.book) [
  | some existing ↦ (SubmitOutcome.accepted existing.id, ledger)
  | none ↦ submit_new env input key ledger
]
