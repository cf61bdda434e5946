-- ===== src/Application/Posting.antt =====
-- Posting staged records: `StagingPostingJob` (ledger/src/infra/jobs/StagingPostingJob.ts) with
-- `ReceiptLineageResolver` (ledger/src/core/application/services/ReceiptLineageResolver.ts). Each
-- step that throws has written nothing, so that `catch` goes on from the state of the `try`.
pub mod Outcomes
pub mod Liveness
pub mod Lineage
use ledger_system.Prelude.{
  ℕ, ◌+◌, String, Bool, true, false, not, ◌&&◌, ◌||◌, Option, none, some, List, [], ◌∷◌, ◌==◌,
  string_eq, truthy, find, is_some, Result, ok, err, ◌>>=◌, if◌then◌else◌,
}
use ledger_system.Domain.Errors.{Throws, receivable_missing, unchecked_cast}
use ledger_system.Domain.Errors.Messages.{message}
use ledger_system.Domain.Enums.{
  EventType, event_type_eq, event_type_text, ObjectType, object_type_text, ReasonType,
  ConfidenceLevel,
}
use ledger_system.Domain.Entities.{Instant, LedgerEvent, EventReason}
use ledger_system.Infra.Memory.{Book, find_by_object_id}
use ledger_system.Infra.Staged.{Store, claim_pending, mark_as}
use ledger_system.Application.Recording.{CreateLedgerEventCommand, Env, Ledger, execute}
use ledger_system.Application.Staging.{
  StagingRecord, StagingObject, StagingStatus, RejectionType, ValidationFailure, validate, or_empty,
}
use ledger_system.Application.Staging.Command.{given, to_create_command}
use ledger_system.Application.Rejection.{Rejections, reject}

-- `value === text` for a property that may be absent.
abbrev pub is_given : Option String → String → Bool
is_given none t = false
is_given (some s) t = s == t

abbrev event_id_of : Option LedgerEvent → Option String
event_id_of none = none
event_id_of (some e) = some e.id

-- `findExpected`: the first expected commission that names the receivable.
unfoldable pub find_expected : String → Book → Option String
find_expected id book =
    event_id_of
      (find (λ e. e.event_type == EventType.commission_expected) (find_by_object_id id book))

abbrev pub receivable_id : Option StagingObject → Option String
receivable_id none = none
receivable_id (some o) = o.object_id

abbrev pub is_receivable : StagingObject → Bool
is_receivable o = is_given o.object_type (object_type_text ObjectType.commission_receivable)

-- What `resolve` finds through the receivable.
abbrev pub resolve_receivable : Option String → Book → Throws (Option String)
resolve_receivable none book = err receivable_missing
resolve_receivable (some id) book =
    if id == "" then err receivable_missing else ok (find_expected id book)

-- `ReceiptLineageResolver.resolve`
unfoldable pub resolve : StagingRecord → Book → Throws (Option String)
resolve r book =
    if not (is_given r.event_type (event_type_text EventType.commission_received))
      || truthy r.related_event_id
    then ok r.related_event_id
    else do
      objects ← given r.objects
      resolve_receivable (receivable_id (find is_receivable objects)) book

abbrev confidence_of : Option EventReason → ConfidenceLevel
confidence_of none = ConfidenceLevel.medium
confidence_of (some r) = r.confidence

-- `markOrphanIfUnlinked`
unfoldable pub mark_orphan_if_unlinked :
    CreateLedgerEventCommand → Option String → CreateLedgerEventCommand
mark_orphan_if_unlinked command related =
    if not (command.event_type == EventType.commission_received) || is_some related
    then command
    else record command {
      reason = some (record {
        type = ReasonType.unknown_origin;
        description = "Commission received with unresolved origin";
        confidence = confidence_of command.reason;
        requires_followup = true;
      });
    }

-- The ledger, the staged records and the rejections.
pub record Intake : Type 0 where
  pub ledger : Ledger
  pub staged : Store
  pub rejections : Rejections

-- What the job is built with: the known source systems, `new Date`, and whether it has a resolver.
pub record PostingJob : Type 0 where
  pub known_systems : List String
  pub new_date : String → Instant
  pub has_resolver : Bool

-- What one call of `handle` takes from outside.
pub record PostingEnv : Type 0 where
  pub event : Env
  pub rejection_uuid : String
  pub rejected_at : Instant

-- `rejectUseCase.execute` and `markAsRejected`.
unfoldable pub reject_record :
    PostingEnv → StagingRecord → List ValidationFailure → Intake → Throws Intake
reject_record env r reasons s = do
  log ←
      reject env.rejection_uuid env.rejected_at
        (record { staging_id = r.id; reasons = reasons; source_system = r.source_system })
        s.rejections
  ok (record s { staged = mark_as StagingStatus.rejected r.id s.staged; rejections = log })

-- `this.resolver ? await this.resolver.resolve(validated) : (command.relatedEventId ?? null)`
abbrev pub related_for :
    PostingJob → StagingRecord → CreateLedgerEventCommand → Book → Throws (Option String)
related_for job r command book =
    if job.has_resolver then resolve r book else ok command.related_event_id

abbrev pub linked : CreateLedgerEventCommand → Option String → CreateLedgerEventCommand
linked command related = record (mark_orphan_if_unlinked command related) {
  related_event_id = related;
}

-- The branch of `handle` for a record without failures, up to the event.
unfoldable pub post_command : PostingJob → StagingRecord → Book → Throws CreateLedgerEventCommand
post_command job r book = do
  command ← to_create_command job.new_date r
  related ← related_for job r command book
  ok (linked command related)

-- The branch of `handle` for a record without failures.
unfoldable pub post : PostingJob → PostingEnv → StagingRecord → Intake → Throws Intake
post job env r s = do
  command ← post_command job r s.ledger.book
  result ← execute env.event command s.ledger
  ok (record s { ledger = result.1; staged = mark_as StagingStatus.accepted r.id s.staged })

-- The `try` block of `handle`.
unfoldable pub attempt : PostingJob → PostingEnv → StagingRecord → Intake → Throws Intake
attempt job env r s = elim (validate job.known_systems s.ledger.book r) [
  | [] ↦ post job env r s
  | f ∷ fs ↦ reject_record env r (f ∷ fs) s
]

-- `StagingPostingJob.handle`
unfoldable pub handle : PostingJob → PostingEnv → StagingRecord → Intake → Throws Intake
handle job env r s = elim (attempt job env r s) [
  | ok after ↦ ok after
  | err e ↦
      reject_record env r
        (record { type = RejectionType.policy_violation; description = message e } ∷ []) s
]

-- The loop of `run`; the n-th call of `handle` has the n-th environment.
unfoldable pub handle_all :
    PostingJob → (ℕ → PostingEnv) → ℕ → List StagingRecord → Intake → Throws Intake
handle_all job envs n [] s = ok s
handle_all job envs n (r ∷ rs) s = do
  after ← handle job (envs n) r s
  handle_all job envs (n + 1) rs after

-- `StagingPostingJob.run`: what it claimed, and the state it leaves.
unfoldable pub run : PostingJob → (ℕ → PostingEnv) → Intake → Throws (List StagingRecord × Intake)
run job envs s = do
  let (claimed, staged) = claim_pending StagingStatus.processing 100 [] s.staged
  after ← handle_all job envs 0 claimed (record s { staged = staged })
  ok (claimed, after)
