-- ===== src/Application/Staging/Command.antt =====
-- The command of a validated record: `StagingPostingJob.toCreateCommand`
-- (ledger/src/infra/jobs/StagingPostingJob.ts). `record as ValidatedStagingRecord` and the casts to
-- enums are not checked by the source; here a value that does not fit is `unchecked_cast`.
use ledger_system.Prelude.{
  String, Bool, false, Option, none, some, List, [], ◌∷◌, ◌==◌, string_eq, find, ok, err, ◌>>=◌,
}
use ledger_system.Domain.Errors.{Throws, unchecked_cast}
use ledger_system.Domain.Enums.{
  event_type_values, event_type_text, economic_effect_values, economic_effect_text,
  reporter_type_values, reporter_type_text, party_role_values, party_role_text, direction_values,
  direction_text, object_type_values, object_type_text, relation_values, relation_text,
  reason_type_values, reason_type_text, confidence_level_values, confidence_level_text,
}
use ledger_system.Domain.Entities.{Instant, LedgerEventObject, EventReason}
use ledger_system.Application.Recording.{CreateLedgerEventCommand, CommandParty, CommandReporter}
use ledger_system.Application.Staging.Shape.{
  StagingRecord, StagingParty, StagingObject, StagingReason, StagingReporter,
}
use ledger_system.Application.Staging.Instants.{parse_instant, parse_optional_instant}

-- A property that the validated record has.
abbrev pub given {ℓ} : {A : Type ℓ} → Option A → Throws A
given none = err unchecked_cast
given (some a) = ok a

-- `text as Enum`
abbrev pub cast : {A : Type 0} → List A → (A → String) → String → Throws A
cast values text s = given (find (λ v. text v == s) values)

abbrev pub cast_part : {A : Type 0} → List A → (A → String) → Option String → Throws A
cast_part values text value = do s ← given value; cast values text s

abbrev pub to_party : StagingParty → Throws CommandParty
to_party p = do
  id ← given p.party_id
  role ← cast_part party_role_values party_role_text p.role
  direction ← cast_part direction_values direction_text p.direction
  ok (record { party_id = id; role = role; direction = direction; amount = p.amount })

abbrev pub to_object : StagingObject → Throws LedgerEventObject
to_object o = do
  id ← given o.object_id
  object_type ← cast_part object_type_values object_type_text o.object_type
  relation ← cast_part relation_values relation_text o.relation
  ok (record { object_id = id; object_type = object_type; relation = relation })

-- `xs.map(f)`, where `f` may throw.
unfoldable pub map_all : {A B : Type 0} → (A → Throws B) → List A → Throws (List B)
map_all f [] = ok []
map_all f (x ∷ xs) = let rest = map_all f xs in do y ← f x; ys ← rest; ok (y ∷ ys)

abbrev pub or_false : Option Bool → Bool
or_false none = false
or_false (some b) = b

abbrev pub to_reason : Option StagingReason → Throws (Option EventReason)
to_reason none = ok none
to_reason (some r) = do
  type ← cast_part reason_type_values reason_type_text r.type
  description ← given r.description
  confidence ← cast_part confidence_level_values confidence_level_text r.confidence
  ok (
      some (record {
        type = type;
        description = description;
        confidence = confidence;
        requires_followup = or_false r.requires_followup;
      }))

abbrev pub to_reporter : StagingReporter → Throws CommandReporter
to_reporter r = do
  type ← cast_part reporter_type_values reporter_type_text r.reporter_type
  id ← given r.reporter_id
  channel ← given r.channel
  ok (record {
    reporter_type = type;
    reporter_id = id;
    reporter_name = r.reporter_name;
    channel = channel;
  })

-- `StagingPostingJob.toCreateCommand`; the command has no `commandId`.
unfoldable pub to_create_command :
    (new_date : String → Instant) → StagingRecord → Throws CreateLedgerEventCommand
unfolding map_all parse_instant parse_optional_instant
to_create_command new_date r = do
  event_type ← cast_part event_type_values event_type_text r.event_type
  economic_effect ← cast_part economic_effect_values economic_effect_text r.economic_effect
  occurred_at ← given r.occurred_at
  amount ← given r.amount
  currency ← given r.currency
  source_system ← given r.source_system
  source_reference ← given r.source_reference
  version ← given r.normalization_version
  worker_id ← given r.normalization_worker_id
  staged_parties ← given r.parties
  parties ← map_all to_party staged_parties
  staged_objects ← given r.objects
  objects ← map_all to_object staged_objects
  reason ← to_reason r.reason
  staged_reporter ← given r.reporter
  reporter ← to_reporter staged_reporter
  ok (record {
    event_type = event_type;
    economic_effect = economic_effect;
    occurred_at = parse_instant new_date occurred_at;
    source_at = parse_optional_instant new_date r.source_at;
    due_at = parse_optional_instant new_date r.due_at;
    amount = amount;
    currency = currency;
    description = r.description;
    source_system = source_system;
    source_reference = source_reference;
    normalization_version = version;
    normalization_worker_id = worker_id;
    command_id = none;
    related_event_id = r.related_event_id;
    parties = parties;
    objects = objects;
    reason = reason;
    reporter = reporter;
  })
