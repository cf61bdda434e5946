-- ===== src/Application/Staging/Accepted.antt =====
-- What a record without failures is, and the command that is made of it
-- (ledger/src/core/application/services/StagingRecordValidator.ts, ledger/src/infra/jobs/StagingPostingJob.ts).
use ledger_system.Prelude.{
  String, true, false, not, Option, none, some, List, [], ◌∷◌, string_eq, ◌≡◌, ◌≢◌, refl, ok, arith,
  All2,
}
use ledger_system.Prelude.Texts.{codes}
use ledger_system.Domain.Money.{is_decimal}
use ledger_system.Domain.Enums.{
  EventType, EconomicEffect, event_type_values, event_type_text, economic_effect_values,
  economic_effect_text, reporter_type_values, reporter_type_text,
}
use ledger_system.Domain.Entities.{Instant, LedgerEvent, LedgerEventObject, EventReason}
use ledger_system.Infra.Memory.{exists_by_source_reference}
use ledger_system.Application.Recording.{CreateLedgerEventCommand, CommandParty, CommandReporter}
use ledger_system.Application.Staging.{
  StagingRecord, StagingParty, StagingObject, StagingReporter, RejectionType, fail_if,
  fail_unless_value, missing_fields, required_fields, source_system_failures, has_reporter,
  validate_required_fields, validate_enum_fields, validate_amount, validate_parties,
  validate_objects, validate_reason, check_duplicate, validate, type_of_reporter,
}
use ledger_system.Application.Staging.Command.{
  cast_part, to_party, to_object, map_all, to_reason, to_reporter, to_create_command,
}
use ledger_system.Application.Staging.Instants.{parse_instant, parse_optional_instant}
use ledger_system.Application.Staging.Parts.{
  in_turn-eq-[], fail_if-eq-[], present, cast_part-value, SameParty, SameObject,
}
use ledger_system.Application.Staging.Fields.{
  SameReason, SameReporter, missing_fields-All, source_system-known, reason_fits, reporter_fits,
  amount_fits, reference_fits, parties_fit, objects_fit,
}

-- The command of a record without failures, and what both say.
pub record Fits (new_date : String → Instant) (book : List LedgerEvent) (r : StagingRecord)
    (c : CreateLedgerEventCommand) : Type 0 where
  pub event_type : r.event_type ≡ some (event_type_text c.event_type)
  pub economic_effect : r.economic_effect ≡ some (economic_effect_text c.economic_effect)
  pub amount : r.amount ≡ some c.amount
  pub is_amount : is_decimal (codes c.amount) ≡ true
  pub source_reference : r.source_reference ≡ some c.source_reference
  pub fresh : exists_by_source_reference c.source_reference book ≡ false
  pub related : r.related_event_id ≡ c.related_event_id
  pub parties : (ps : List StagingParty) × (r.parties ≡ some ps) × All2 SameParty ps c.parties
  pub objects : (os : List StagingObject) × (r.objects ≡ some os) × All2 SameObject os c.objects
  pub some_party : c.parties ≢ []
  pub some_object : c.objects ≢ []
  pub reason : SameReason r.reason c.reason
  pub no_command_id : c.command_id ≡ none
  pub occurred_at :
      (s : String) × (r.occurred_at ≡ some s) × (c.occurred_at ≡ parse_instant new_date s)
  pub source_at : c.source_at ≡ parse_optional_instant new_date r.source_at
  pub due_at : c.due_at ≡ parse_optional_instant new_date r.due_at
  pub currency : r.currency ≡ some c.currency
  pub description : r.description ≡ c.description
  pub source_system : r.source_system ≡ some c.source_system
  pub normalization_version : r.normalization_version ≡ some c.normalization_version
  pub normalization_worker_id : r.normalization_worker_id ≡ some c.normalization_worker_id
  pub reporter : (s : StagingReporter) × (r.reporter ≡ some s) × SameReporter s c.reporter

-- What the casts give for the parts of a record.
pub record Parts (book : List LedgerEvent) (r : StagingRecord) : Type 0 where
  pub type : EventType
  pub cast_type : cast_part event_type_values event_type_text r.event_type ≡ ok type
  pub is_type : r.event_type ≡ some (event_type_text type)
  pub effect : EconomicEffect
  pub cast_effect :
      cast_part economic_effect_values economic_effect_text r.economic_effect ≡ ok effect
  pub is_effect : r.economic_effect ≡ some (economic_effect_text effect)
  pub occurred : String
  pub currency : String
  pub system : String
  pub version : String
  pub worker : String
  pub is_occurred : r.occurred_at ≡ some occurred
  pub is_currency : r.currency ≡ some currency
  pub is_system : r.source_system ≡ some system
  pub is_version : r.normalization_version ≡ some version
  pub is_worker : r.normalization_worker_id ≡ some worker
  pub amount : (s : String) × (r.amount ≡ some s) × (is_decimal (codes s) ≡ true)
  pub reference :
      (s : String) × (r.source_reference ≡ some s) × (exists_by_source_reference s book ≡ false)
  pub parties :
      (ps : List StagingParty) × (cs : List CommandParty) × (r.parties ≡ some ps)
      × (map_all to_party ps ≡ ok cs)
      × All2 SameParty ps cs
      × (cs ≢ [])
  pub objects :
      (os : List StagingObject) × (cs : List LedgerEventObject) × (r.objects ≡ some os)
      × (map_all to_object os ≡ ok cs)
      × All2 SameObject os cs
      × (cs ≢ [])
  pub reason : (c : Option EventReason) × (to_reason r.reason ≡ ok c) × SameReason r.reason c
  pub reporter :
      (s : StagingReporter) × (c : CommandReporter) × (r.reporter ≡ some s)
      × (to_reporter s ≡ ok c)
      × SameReporter s c

pub validate-Parts :
    (known : List String) (book : List LedgerEvent) (r : StagingRecord)
    → validate known book r ≡ []
    → Parts book r
unfolding validate validate_required_fields validate_enum_fields
validate-Parts known book r h =
    let (no_field, (no_enum, (no_amount, (no_party, (no_object, (no_reason, (no_copy, _))))))) =
      in_turn-eq-[]
        (validate_required_fields known r
          ∷ validate_enum_fields r
          ∷ validate_amount r.amount
          ∷ validate_parties r.parties
          ∷ validate_objects r.objects
          ∷ validate_reason r.reason
          ∷ check_duplicate r.source_reference book
          ∷ [])
        h in
    let (no_missing, (no_system, (no_reporter, _))) =
      in_turn-eq-[]
        (missing_fields (required_fields r)
          ∷ source_system_failures known r.source_system
          ∷ fail_if (not (has_reporter r.reporter)) RejectionType.invalid_schema
              "Missing required reporter fields (reporterType, reporterId, channel)"
          ∷ [])
        no_field in
    let (no_type, (no_effect, (no_reporter_type, _))) =
      in_turn-eq-[]
        (fail_unless_value event_type_values event_type_text "Invalid eventType" r.event_type
          ∷ fail_unless_value economic_effect_values economic_effect_text "Invalid economicEffect"
              r.economic_effect
          ∷ fail_unless_value reporter_type_values reporter_type_text "Invalid reporterType"
              (type_of_reporter r.reporter)
          ∷ [])
        no_enum in
    let (f0, (f1, (f2, (f3, (f4, (f5, (f6, (f7, _)))))))) =
      missing_fields-All (required_fields r) no_missing in
    let (type, cast_type, is_type) =
      cast_part-value event_type_values event_type_text "Invalid eventType" r.event_type f0
        no_type in
    let (effect, cast_effect, is_effect) =
      cast_part-value economic_effect_values economic_effect_text "Invalid economicEffect"
        r.economic_effect f1 no_effect in
    let (occurred, is_occurred) = present r.occurred_at f2 in
    let (currency, is_currency) = present r.currency f4 in
    let (version, is_version) = present r.normalization_version f6 in
    let (worker, is_worker) = present r.normalization_worker_id f7 in
    let (system, is_system, is_known) = source_system-known known r.source_system no_system in
    let reported : not (has_reporter r.reporter) ≡ false =
      fail_if-eq-[] (not (has_reporter r.reporter)) RejectionType.invalid_schema
        "Missing required reporter fields (reporterType, reporterId, channel)" no_reporter in
    record {
      type = type;
      cast_type = cast_type;
      is_type = is_type;
      effect = effect;
      cast_effect = cast_effect;
      is_effect = is_effect;
      occurred = occurred;
      currency = currency;
      system = system;
      version = version;
      worker = worker;
      is_occurred = is_occurred;
      is_currency = is_currency;
      is_system = is_system;
      is_version = is_version;
      is_worker = is_worker;
      amount = amount_fits r.amount f3 no_amount;
      reference = reference_fits r.source_reference book f5 no_copy;
      parties = parties_fit r.parties no_party;
      objects = objects_fit r.objects no_object;
      reason = reason_fits r.reason no_reason;
      reporter = reporter_fits r.reporter (ground (arith, reported)) no_reporter_type;
    }

abbrev pub command_of :
    {book : List LedgerEvent} (new_date : String → Instant) (r : StagingRecord) (x : Parts book r)
    → CreateLedgerEventCommand
command_of new_date r x = record {
  event_type = x.type;
  economic_effect = x.effect;
  occurred_at = parse_instant new_date x.occurred;
  source_at = parse_optional_instant new_date r.source_at;
  due_at = parse_optional_instant new_date r.due_at;
  amount = x.amount.0;
  currency = x.currency;
  description = r.description;
  source_system = x.system;
  source_reference = x.reference.0;
  normalization_version = x.version;
  normalization_worker_id = x.worker;
  command_id = none;
  related_event_id = r.related_event_id;
  parties = x.parties.1;
  objects = x.objects.1;
  reason = x.reason.0;
  reporter = x.reporter.1;
}

pub to_create_command-Parts :
    {book : List LedgerEvent} (new_date : String → Instant) (r : StagingRecord) (x : Parts book r)
    → to_create_command new_date r ≡ ok (command_of new_date r x)
unfolding to_create_command
to_create_command-Parts new_date r x =
    rw
      (
        x.cast_type, x.cast_effect, x.is_occurred, x.amount.1, x.is_currency, x.is_system,
        x.reference.1, x.is_version, x.is_worker, x.parties.2, x.parties.3, x.objects.2,
        x.objects.3, x.reason.1, x.reporter.2, x.reporter.3,
      )
      refl

-- A record in which the validator finds no failure casts to a command: each text that stands for
-- an enum is one of its values, each required field, a party and an object are there, the amount
-- is a decimal, no event on the book has its source reference, and the command says what the
-- record says: the same texts, the instants of its dates, its parties, objects, reason and reporter
-- one by one, and no command identifier.
pub validate-Fits :
    (new_date : String → Instant) (known : List String) (book : List LedgerEvent)
    (r : StagingRecord)
    → validate known book r ≡ []
    → (c : CreateLedgerEventCommand) × (to_create_command new_date r ≡ ok c)
      × Fits new_date book r c
validate-Fits new_date known book r h =
    let x = validate-Parts known book r h in
    (
      command_of new_date r x,
      to_create_command-Parts new_date r x,
      record {
        event_type = x.is_type;
        economic_effect = x.is_effect;
        amount = x.amount.1;
        is_amount = x.amount.2;
        source_reference = x.reference.1;
        fresh = x.reference.2;
        related = refl;
        parties = (x.parties.0, x.parties.2, x.parties.4);
        objects = (x.objects.0, x.objects.2, x.objects.4);
        some_party = x.parties.5;
        some_object = x.objects.5;
        reason = x.reason.2;
        no_command_id = refl;
        occurred_at = (x.occurred, x.is_occurred, refl);
        source_at = refl;
        due_at = refl;
        currency = x.is_currency;
        description = refl;
        source_system = x.is_system;
        normalization_version = x.is_version;
        normalization_worker_id = x.is_worker;
        reporter = (x.reporter.0, x.reporter.2, x.reporter.4);
      },
    )
