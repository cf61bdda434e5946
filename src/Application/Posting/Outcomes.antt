-- ===== src/Application/Posting/Outcomes.antt =====
-- How one call of `handle` ends (ledger/src/infra/jobs/StagingPostingJob.ts).
use ledger_system.Prelude.{
  false, List, [], ◌∷◌, ◌++◌, ◌==◌, string_eq, ◌≡◌, ◌⊎◌, inl, inr, refl, sym, ap, ◌∙◌, Result, ok,
  err, >>=-eq-ok, ok_injective, subst,
}
use ledger_system.Prelude.Strings.{is_blank}
use ledger_system.Domain.Errors.{LedgerError}
use ledger_system.Domain.Errors.Messages.{message}
use ledger_system.Domain.Errors.Messages.Visible.{message-IsVisible}
use ledger_system.Domain.Entities.{LedgerEvent, new_event_id}
use ledger_system.Infra.Staged.{mark_as}
use ledger_system.Application.Recording.{CreateLedgerEventCommand, execute}
use ledger_system.Application.Staging.{
  StagingRecord, StagingStatus, RejectionType, ValidationFailure, validate,
}
use ledger_system.Application.Staging.Command.{map_all}
use ledger_system.Application.Staging.Visible.{AllVisible, validate-AllVisible}
use ledger_system.Application.Rejection.{
  new_staging_id, new_rejection_reason, RejectedEvent, create_rejected, rejection_entry, reject,
}
use ledger_system.Application.Posting.{
  Intake, PostingJob, PostingEnv, reject_record, post_command, post, attempt, handle,
}

abbrev pub rejected_event : PostingEnv → StagingRecord → List ValidationFailure → RejectedEvent
rejected_event env r reasons = record {
  id = env.rejection_uuid;
  staging_id = r.id;
  reasons = reasons;
  rejected_at = env.rejected_at;
}

-- The record is on the book as the event `e`.
abbrev pub IsPosted :
    PostingJob → PostingEnv → StagingRecord → Intake → Intake → LedgerEvent → Type 0
IsPosted job env r s after e =
    (validate job.known_systems s.ledger.book r ≡ [])
    × ((c : CreateLedgerEventCommand) × (post_command job r s.ledger.book ≡ ok c)
        × (execute env.event c s.ledger ≡ ok (e, after.ledger)))
    × (after.staged ≡ mark_as StagingStatus.accepted r.id s.staged)
    × (after.rejections ≡ s.rejections)

-- The record is on the list of rejections, and the ledger is as it was.
abbrev pub IsRejected :
    PostingEnv → StagingRecord → Intake → Intake → List ValidationFailure → Type 0
IsRejected env r s after reasons =
    (after.ledger ≡ s.ledger)
    × (after.staged ≡ mark_as StagingStatus.rejected r.id s.staged)
    × (after.rejections.events ≡ s.rejections.events ++ rejected_event env r reasons ∷ [])

reasons_pass :
    (reasons : List ValidationFailure)
    → AllVisible reasons
    → map_all new_rejection_reason reasons ≡ ok reasons
unfolding map_all new_rejection_reason
reasons_pass [] h = refl
reasons_pass (r ∷ rs) (here, rest) = rw (here.visible, reasons_pass rs rest) refl

-- A record with an identifier can be rejected for any reasons that say something.
reject_record_lem :
    (env : PostingEnv) (r : StagingRecord) (f : ValidationFailure) (fs : List ValidationFailure)
    (s : Intake)
    → is_blank r.id ≡ false
    → (env.rejection_uuid == "") ≡ false
    → AllVisible (f ∷ fs)
    → (after : Intake) × (reject_record env r (f ∷ fs) s ≡ ok after)
      × IsRejected env r s after (f ∷ fs)
unfolding reject_record reject new_staging_id create_rejected new_event_id
reject_record_lem env r f fs s has_id has_uuid visible = (
  record s {
    staged = mark_as StagingStatus.rejected r.id s.staged;
    rejections = record {
      events = s.rejections.events ++ rejected_event env r (f ∷ fs) ∷ [];
      entries =
          s.rejections.entries
          ++ rejection_entry
              (record { staging_id = r.id; reasons = f ∷ fs; source_system = r.source_system })
              (rejected_event env r (f ∷ fs))
            ∷ [];
    };
  },
  rw (reasons_pass (f ∷ fs) visible, has_id, has_uuid) refl,
  (refl, refl, refl),
)

pub attempt-IsPosted :
    (job : PostingJob) (env : PostingEnv) (r : StagingRecord) (s : Intake) {after : Intake}
    → post job env r s ≡ ok after
    → validate job.known_systems s.ledger.book r ≡ []
    → (e : LedgerEvent) × IsPosted job env r s after e
unfolding post
attempt-IsPosted job env r s {after} h fine =
    let (c, made, h1) = >>=-eq-ok (post_command job r s.ledger.book) _ h in
    let (result, ran, h2) = >>=-eq-ok (execute env.event c s.ledger) _ h1 in
    let same = ok_injective h2 in
    (
      result.0,
      (
        fine,
        (c, made, ran ∙ ap (λ x. ok (result.0, x.ledger)) same),
        ap (λ x. x.staged) (sym same),
        ap (λ x. x.rejections) (sym same),
      ),
    )

-- One of the ways in which `handle` ends.
abbrev pub IsHandled : PostingJob → PostingEnv → StagingRecord → Intake → Intake → Type 0
IsHandled job env r s after =
    ((e : LedgerEvent) × IsPosted job env r s after e)
    ⊎ ((reasons : List ValidationFailure) × IsRejected env r s after reasons)

handle_attempted :
    (job : PostingJob) (env : PostingEnv) (r : StagingRecord) (s : Intake)
    → is_blank r.id ≡ false
    → (env.rejection_uuid == "") ≡ false
    → (attempted : Result LedgerError Intake) → attempt job env r s ≡ attempted
    → ((after : Intake) → attempted ≡ ok after → IsHandled job env r s after)
    → (after : Intake) × (handle job env r s ≡ ok after) × IsHandled job env r s after
unfolding handle
handle_attempted job env r s has_id has_uuid (ok after) h ends =
    (after, rw (handle, h) refl, ends after refl)
handle_attempted job env r s has_id has_uuid (err e) h ends =
    let f : ValidationFailure = record {
      type = RejectionType.policy_violation;
      description = message e;
    } in
    let (after, done, shape) =
      reject_record_lem env r f [] s has_id has_uuid (message-IsVisible e, tt) in
    (after, rw (handle, h) done, inr (f ∷ [], shape))

attempt_ends :
    (job : PostingJob) (env : PostingEnv) (r : StagingRecord) (s : Intake)
    (failures : List ValidationFailure)
    → is_blank r.id ≡ false
    → (env.rejection_uuid == "") ≡ false
    → validate job.known_systems s.ledger.book r ≡ failures
    → (after : Intake) → attempt job env r s ≡ ok after
    → IsHandled job env r s after
unfolding attempt
attempt_ends job env r s [] has_id has_uuid v after h =
    inl (attempt-IsPosted job env r s (rw (attempt, v) at h) v)
attempt_ends job env r s (f ∷ fs) has_id has_uuid v after h =
    let visible : AllVisible (f ∷ fs) =
      subst AllVisible v (validate-AllVisible job.known_systems s.ledger.book r) in
    let (other, done, shape) = reject_record_lem env r f fs s has_id has_uuid visible in
    let same : other ≡ after = ok_injective (sym done ∙ (rw (attempt, v) at h)) in
    inr (f ∷ fs, subst (λ a. IsRejected env r s a (f ∷ fs)) same shape)

-- A record whose identifier is not blank is always dealt with: either the validator finds no
-- failure, its command is executed on the ledger and it is marked accepted, or the ledger is left
-- as it was, the record is marked rejected, and one rejected event with its identifier is recorded.
pub handle_outcomes :
    (job : PostingJob) (env : PostingEnv) (r : StagingRecord) (s : Intake)
    → is_blank r.id ≡ false
    → (env.rejection_uuid == "") ≡ false
    → (after : Intake) × (handle job env r s ≡ ok after) × IsHandled job env r s after
handle_outcomes job env r s has_id has_uuid =
    handle_attempted job env r s has_id has_uuid (attempt job env r s) refl
      (attempt_ends job env r s (validate job.known_systems s.ledger.book r) has_id has_uuid refl)
