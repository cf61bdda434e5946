-- ===== src/Application/Submission/Cast.antt =====
-- The command of a candidate without failures
-- (ledger/src/core/application/use-cases/SubmitCandidateUseCase.ts).
use ledger_system.Prelude.{
  String, Option, none, some, List, [], ◌∷◌, map, ◌≡◌, refl, sym, ap, ◌∙◌, ok, >>=-eq-ok,
  some_injective, ok_injective, subst, All2,
}
use ledger_system.Domain.Enums.{
  event_type_text, economic_effect_text, ReporterType, reporter_type_values, reporter_type_text,
}
use ledger_system.Domain.Entities.{Instant, LedgerEvent}
use ledger_system.Application.Recording.{CreateLedgerEventCommand, CommandReporter}
use ledger_system.Application.Staging.{validate, default_source_systems, StagingReporter}
use ledger_system.Application.Staging.Command.{
  cast, map_all, to_party, to_object, to_reason, to_reporter,
}
use ledger_system.Application.Staging.Accepted.{Parts, validate-Parts}
use ledger_system.Application.Staging.Fields.{SameReason, SameReporter}
use ledger_system.Application.Staging.Parts.{SameParty, SameObject}
use ledger_system.Application.Staging.Instants.{parse_instant, parse_optional_instant}
use ledger_system.Application.Submission.{
  CandidateReporter, staging_reporter, CandidateParty, CandidateObject, CandidateReason,
  SubmitCandidateInput, staging_party, staging_object, staging_reason, to_staging_record,
  candidate_party, candidate_object, candidate_reason, to_command, command_with,
}

parties_agree :
    (ps : List CandidateParty)
    → map_all to_party (map staging_party ps) ≡ map_all candidate_party ps
unfolding map_all
parties_agree [] = refl
parties_agree (p ∷ ps) = rw (parties_agree ps) refl

objects_agree :
    (os : List CandidateObject)
    → map_all to_object (map staging_object os) ≡ map_all candidate_object os
unfolding map_all
objects_agree [] = refl
objects_agree (o ∷ os) = rw (objects_agree os) refl

reason_agrees : (r : Option CandidateReason) → to_reason (staging_reason r) ≡ candidate_reason r
reason_agrees none = refl
reason_agrees (some r) = refl

reporter_casts :
    (r : CandidateReporter)
    → (s : StagingReporter) × (c : CommandReporter) × (some (staging_reporter r) ≡ some s)
      × (to_reporter s ≡ ok c)
      × SameReporter s c
    → (type : ReporterType) × (cast reporter_type_values reporter_type_text r.reporter_type
        ≡ ok type)
      × SameReporter (staging_reporter r) (record {
        reporter_type = type;
        reporter_id = r.reporter_id;
        reporter_name = r.reporter_name;
        channel = r.channel;
      })
reporter_casts r (s, c, same, made, says) =
    let here : to_reporter (staging_reporter r) ≡ ok c =
      ap to_reporter (some_injective same) ∙ made in
    let (type, known, rest) =
      >>=-eq-ok (cast reporter_type_values reporter_type_text r.reporter_type) _ here in
    (
      type,
      known,
      (
        subst (λ x. x.reporter_type ≡ some (reporter_type_text type)) (sym (some_injective same))
            (says.0
              ∙ ap (λ x. some (reporter_type_text x.reporter_type)) (sym (ok_injective rest))),
        refl,
        refl,
        refl,
      ),
    )

-- The command says what the candidate says, under the source of submissions, and carries the key.
pub record IsCommandOf (new_date : String → Instant) (input : SubmitCandidateInput) (key : String)
    (c : CreateLedgerEventCommand) : Type 0 where
  pub event_type : event_type_text c.event_type ≡ input.event_type
  pub economic_effect : economic_effect_text c.economic_effect ≡ input.economic_effect
  pub occurred_at : c.occurred_at ≡ parse_instant new_date input.occurred_at
  pub source_at : c.source_at ≡ parse_optional_instant new_date input.source_at
  pub due_at : c.due_at ≡ parse_optional_instant new_date input.due_at
  pub amount : c.amount ≡ input.amount
  pub currency : c.currency ≡ input.currency
  pub description : c.description ≡ input.description
  pub source_system : c.source_system ≡ "integration"
  pub source_reference : c.source_reference ≡ input.source_reference
  pub normalization_version : c.normalization_version ≡ "1.0"
  pub normalization_worker_id : c.normalization_worker_id ≡ "user-app-submit"
  pub related_event_id : c.related_event_id ≡ input.related_event_id
  pub command_id : c.command_id ≡ some key
  pub parties : All2 SameParty (map staging_party input.parties) c.parties
  pub objects : All2 SameObject (map staging_object input.objects) c.objects
  pub reason : SameReason (staging_reason input.reason) c.reason
  pub reporter : SameReporter (staging_reporter input.reporter) c.reporter

cast_of :
    {book : List LedgerEvent} (new_date : String → Instant) (uuid : String)
    (input : SubmitCandidateInput) (key : String)
    → Parts book (to_staging_record uuid input)
    → (c : CreateLedgerEventCommand) × (to_command new_date input key ≡ ok c)
      × IsCommandOf new_date input key c
unfolding to_command to_staging_record
cast_of new_date uuid input key x =
    let parties : map_all candidate_party input.parties ≡ ok x.parties.1 =
      sym (parties_agree input.parties)
      ∙ ap (λ ps. map_all to_party ps) (some_injective x.parties.2)
      ∙ x.parties.3 in
    let objects : map_all candidate_object input.objects ≡ ok x.objects.1 =
      sym (objects_agree input.objects)
      ∙ ap (λ os. map_all to_object os) (some_injective x.objects.2)
      ∙ x.objects.3 in
    let reason : candidate_reason input.reason ≡ ok x.reason.0 =
      sym (reason_agrees input.reason) ∙ x.reason.1 in
    let (reporter_type, reporter, same_reporter) =
      reporter_casts input.reporter
        (x.reporter.0, x.reporter.1, x.reporter.2, x.reporter.3, x.reporter.4) in
    (
      command_with new_date input key x.type x.effect x.parties.1 x.objects.1 x.reason.0
          reporter_type,
      rw (x.cast_type, x.cast_effect, parties, objects, reason, reporter) refl,
      record {
        event_type = sym (some_injective x.is_type);
        economic_effect = sym (some_injective x.is_effect);
        amount = refl;
        currency = refl;
        source_reference = refl;
        related_event_id = refl;
        command_id = refl;
        reason = x.reason.2;
        occurred_at = refl;
        source_at = refl;
        due_at = refl;
        description = refl;
        source_system = refl;
        normalization_version = refl;
        normalization_worker_id = refl;
        parties =
            subst (λ ps. All2 SameParty ps x.parties.1) (sym (some_injective x.parties.2))
              x.parties.4;
        objects =
            subst (λ os. All2 SameObject os x.objects.1) (sym (some_injective x.objects.2))
              x.objects.4;
        reporter = same_reporter;
      },
    )

-- A candidate without failures casts to a command.
pub to_command-IsCommandOf :
    (new_date : String → Instant) (book : List LedgerEvent) (uuid : String)
    (input : SubmitCandidateInput) (key : String)
    → validate default_source_systems book (to_staging_record uuid input) ≡ []
    → (c : CreateLedgerEventCommand) × (to_command new_date input key ≡ ok c)
      × IsCommandOf new_date input key c
to_command-IsCommandOf new_date book uuid input key h =
    cast_of new_date uuid input key (validate-Parts default_source_systems book _ h)
