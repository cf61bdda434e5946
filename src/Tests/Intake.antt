-- ===== src/Tests/Intake.antt =====
-- Staging, posting and submission at concrete records.
use ledger_system.Prelude.{
  ℕ, ◌≤◌, nat_eq, String, arith, inl, inr, Bool-cases, subst, ==_true, true, false, some, none, [],
  ◌∷◌, ◌≡◌, ◌≢◌, refl, ap, ok, ◌==◌, string_eq, All, length, for_each,
}
use ledger_system.Prelude.Texts.{read}
use ledger_system.Prelude.Strings.{is_blank, trim, trim_start, trim_end, join}
use ledger_system.Domain.Enums.{
  EventType, EconomicEffect, PartyRole, Direction, ObjectType, Relation, ReasonType,
  ConfidenceLevel, ReporterType,
}
use ledger_system.Domain.Contracts.{event_contracts}
use ledger_system.Domain.Matrices.{
  economic_effect_relation_matrix, object_nature_matrix, object_relation_matrix,
  reason_effect_matrix, reason_relation_matrix,
}
use ledger_system.Domain.Money.{from_decimal, zero_money, add, is_currency}
use ledger_system.Domain.Event.{validate_basic, validate_flow, validate_reason_rules, total_flow}
use ledger_system.Domain.Policy.{positional_objects, contextual_objects, validate_semantic}
use ledger_system.Domain.Hash.{generate_canonical}
use ledger_system.Domain.Creation
use ledger_system.Domain.Creation.{create}
use ledger_system.Domain.Entities.{new_event_id, new_event_source, new_normalization}
use ledger_system.Infra.Memory.{exists_by_source_reference, get_by_command_id, find_by_object_id}
use ledger_system.Infra.Staged.{claim_pending, is_claimable}
use ledger_system.Infra.Staged.Marks.{count_id, are_final}
use ledger_system.Application.Recording.Outcomes.{now}
use ledger_system.Infra.Staged.Claims.{Claims, claim_pending-Claims}
use ledger_system.Application.Recording.{
  CreateLedgerEventCommand, Ledger, execute, record_event, prepare, make_parties, check_settlement,
  find_origin,
}
use ledger_system.Application.Staging.{
  StagingRecord, StagingStatus, RejectionType, ValidationFailure, validate,
  validate_required_fields, validate_enum_fields, validate_amount, validate_parties,
  validate_objects, validate_reason, check_duplicate, default_source_systems,
}
use ledger_system.Application.Staging.Instants.{parse_instant, parse_optional_instant}
use ledger_system.Application.Staging.Command.{to_create_command, map_all}
use ledger_system.Application.Staging.Accepted.{Fits, validate-Fits}
use ledger_system.Application.Staging.Catalog.{classify_staging_failure, classify_error}
use ledger_system.Application.Staging.Catalog.Display.{IsDisplaySafe, classification-IsDisplaySafe}
use ledger_system.Application.Posting.{
  Intake, PostingJob, PostingEnv, handle, run, post_command, resolve, mark_orphan_if_unlinked,
  find_expected,
}
use ledger_system.Application.Posting.Outcomes.{IsHandled, handle_outcomes}
use ledger_system.Application.Posting.Liveness.{IsSettled, claimed_by_run, run-IsSettled}
use ledger_system.Application.Posting.Lineage.{IsLinked, post_command_links}
use ledger_system.Application.Submission.{
  SubmitCandidateInput, SubmitOutcome, SubmitEnv, submit, submit_new, submit_valid, to_command,
  to_staging_record,
}
use ledger_system.Application.Submission.Outcomes.{Ends, submit-Ends, submit_retry}
use ledger_system.Tests.Samples.{env_of, no_events}

-- A receipt whose expected commission is not on record.
abbrev receipt : StagingRecord
receipt = record {
  id = "s1";
  status = StagingStatus.pending;
  event_type = some "commission_received";
  economic_effect = some "cash_in";
  occurred_at = some "2026-09-14";
  source_at = none;
  due_at = none;
  amount = some "7.00";
  currency = some "BRL";
  description = none;
  source_system = some "integration";
  source_reference = some "row-9";
  normalization_version = some "1.0";
  normalization_worker_id = some "w";
  related_event_id = none;
  previous_hash = none;
  parties = some (
      record {
        party_id = some "usina";
        role = some "payee";
        direction = some "in";
        amount = some "7.00";
      }
      ∷ []);
  objects = some (
      record {
        object_id = some "receivable-1";
        object_type = some "commission_receivable";
        relation = some "settles";
      }
      ∷ []);
  reason = none;
  reporter = some (record {
    reporter_type = some "system";
    reporter_id = some "r";
    reporter_name = none;
    channel = some "sheet";
  });
}

-- A record that says nothing.
abbrev blank : StagingRecord
blank = record receipt { id = "s2"; amount = none; parties = none; event_type = some "gift" }

abbrev job : PostingJob
job = record { known_systems = default_source_systems; new_date = λ _. 1000; has_resolver = true }

abbrev post_env : PostingEnv
post_env = record { event = env_of "e1"; rejection_uuid = "x1"; rejected_at = 2000 }

abbrev intake : Intake
intake = record {
  ledger = no_events;
  staged = receipt ∷ blank ∷ [];
  rejections = record { events = []; entries = [] };
}

receipt_valid : validate default_source_systems [] receipt ≡ []
unfolding validate validate_required_fields validate_enum_fields validate_amount validate_parties
    validate_objects validate_reason check_duplicate exists_by_source_reference
receipt_valid = refl

-- The validator names every part of the other record that is missing or wrong.
blank_failures : length (validate default_source_systems [] blank) ≡ 3
unfolding validate validate_required_fields validate_enum_fields validate_amount validate_parties
    validate_objects validate_reason check_duplicate exists_by_source_reference join
blank_failures = refl

validate-Fits_example :
    (c : CreateLedgerEventCommand) × (to_create_command (λ _. 1000) receipt ≡ ok c)
    × Fits (λ _. 1000) [] receipt c
validate-Fits_example = validate-Fits (λ _. 1000) default_source_systems [] receipt receipt_valid

abbrev unknown_party : ValidationFailure
unknown_party = record {
  type = RejectionType.missing_party;
  description = "Party at index 0 is missing partyId";
}

classification-IsDisplaySafe_example :
    IsDisplaySafe (classify_staging_failure unknown_party)
    × IsDisplaySafe (classify_error "Duplicate source reference: row-9")
classification-IsDisplaySafe_example =
    classification-IsDisplaySafe unknown_party "Duplicate source reference: row-9"

processing_other : StagingStatus.processing ≢ StagingStatus.pending
processing_other h = cc h

claim_pending-Claims_example :
    Claims StagingStatus.processing 1 [] intake.staged
      (claim_pending StagingStatus.processing 1 [] intake.staged).0
      (claim_pending StagingStatus.processing 1 [] intake.staged).1
claim_pending-Claims_example =
    claim_pending-Claims StagingStatus.processing 1 [] intake.staged processing_other

visible_ids : (is_blank "s1" ≡ false) × (is_blank "s2" ≡ false)
unfolding is_blank trim trim_start trim_end
visible_ids = (refl, refl)

handle_outcomes_example :
    (after : Intake) × (handle job post_env receipt intake ≡ ok after)
    × IsHandled job post_env receipt intake after
handle_outcomes_example = handle_outcomes job post_env receipt intake visible_ids.0 refl

claimed_ids : All (λ r. is_blank r.id ≡ false) (claimed_by_run intake)
unfolding claim_pending is_claimable
claimed_ids = (visible_ids.0, (visible_ids.1, tt))

same_uuid : (k : ℕ) → (post_env.rejection_uuid == "") ≡ false
same_uuid k = refl

unique_ids : (id : String) → count_id id intake.staged ≤ 1
unfolding count_id
unique_ids id = elim (Bool-cases ("s1" == id)) [
  | inl first ↦ subst (λ i. count_id i intake.staged ≤ 1) (==_true "s1" id first) (omega arith)
  | inr other ↦ elim (Bool-cases ("s2" == id)) [
    | inl second ↦ rw (other, second) (omega arith)
    | inr third ↦ rw (other, third) (omega arith)
  ]
]

run-IsSettled_example :
    (after : Intake) × (run job (λ _. post_env) intake ≡ ok (claimed_by_run intake, after))
    × All
        (λ r. IsSettled after.staged r.id × (are_final r.id after.staged ≡ true))
        (claimed_by_run intake)
run-IsSettled_example = run-IsSettled job (λ _. post_env) intake same_uuid unique_ids claimed_ids

abbrev receipt_command : CreateLedgerEventCommand
receipt_command = record {
  event_type = EventType.commission_received;
  economic_effect = EconomicEffect.cash_in;
  occurred_at = 1000;
  source_at = none;
  due_at = none;
  amount = "7.00";
  currency = "BRL";
  description = none;
  source_system = "integration";
  source_reference = "row-9";
  normalization_version = "1.0";
  normalization_worker_id = "w";
  command_id = none;
  related_event_id = none;
  parties =
      record {
        party_id = "usina";
        role = PartyRole.payee;
        direction = Direction.inbound;
        amount = some "7.00";
      }
      ∷ [];
  objects =
      record {
        object_id = "receivable-1";
        object_type = ObjectType.commission_receivable;
        relation = Relation.settles;
      }
      ∷ [];
  reason = some (record {
    type = ReasonType.unknown_origin;
    description = "Commission received with unresolved origin";
    confidence = ConfidenceLevel.medium;
    requires_followup = true;
  });
  reporter = record {
    reporter_type = ReporterType.system;
    reporter_id = "r";
    reporter_name = none;
    channel = "sheet";
  };
}

receipt_posted : post_command job receipt [] ≡ ok receipt_command
unfolding post_command to_create_command map_all resolve mark_orphan_if_unlinked find_expected
    find_by_object_id parse_instant parse_optional_instant trim trim_start trim_end
receipt_posted = refl

post_command_links_example : IsLinked [] receipt receipt_command
post_command_links_example =
    post_command_links job receipt [] receipt_command refl refl refl receipt_valid receipt_posted

-- The payroll of the other tests, sent by the treasury.
abbrev candidate : SubmitCandidateInput
candidate = record {
  source_reference = "row-1";
  event_type = "obligation_recognized";
  economic_effect = "non_cash";
  occurred_at = "2026-09-14";
  source_at = none;
  due_at = some "2026-10-14";
  amount = "100.00";
  currency = "BRL";
  description = none;
  related_event_id = none;
  parties =
      record { party_id = "staff"; role = "payee"; direction = "neutral"; amount = none } ∷ [];
  objects =
      record { object_id = "payroll-1"; object_type = "payroll"; relation = "originates" }
      ∷ record { object_id = "contract-1"; object_type = "contract"; relation = "references" }
      ∷ [];
  reason = some (record {
    type = "obligation_recognition";
    description = "July";
    confidence = "high";
    requires_followup = false;
  });
  reporter = record {
    reporter_type = "user";
    reporter_id = "u";
    reporter_name = none;
    channel = "app";
  };
}

abbrev submit_env : SubmitEnv
submit_env = record { event = env_of "e1"; new_date = λ _. 1000; staging_id = "s9" }

abbrev submitted : SubmitOutcome × Ledger
submitted = submit submit_env candidate "intent-1" no_events

candidate_accepted : submitted.0 ≡ SubmitOutcome.accepted "e1"
unfolding submit submit_new submit_valid to_command to_staging_record map_all validate
    validate_required_fields validate_enum_fields validate_amount validate_parties validate_objects
    validate_reason check_duplicate is_blank trim trim_start trim_end parse_instant
    parse_optional_instant execute record_event prepare validate_semantic event_contracts for_each
    positional_objects contextual_objects object_nature_matrix economic_effect_relation_matrix
    object_relation_matrix reason_effect_matrix reason_relation_matrix from_decimal new_event_id
    new_event_source new_normalization make_parties check_settlement find_origin create
    Creation.validate validate_basic validate_flow validate_reason_rules zero_money is_currency add
    generate_canonical get_by_command_id read total_flow
candidate_accepted = refl

submit-Ends_example : Ends submit_env candidate "intent-1" no_events submitted
submit-Ends_example = submit-Ends submit_env candidate "intent-1" no_events

submit_retry_example :
    submit submit_env candidate "intent-1" submitted.1 ≡ (SubmitOutcome.accepted "e1", submitted.1)
submit_retry_example =
    submit_retry submit_env submit_env candidate candidate "intent-1" no_events "e1" submitted.1
      submitted.1 refl (ap (λ o. (o, submitted.1)) candidate_accepted) now
