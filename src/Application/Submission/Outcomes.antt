-- ===== src/Application/Submission/Outcomes.antt =====
-- How a submission ends
-- (ledger/src/core/application/use-cases/SubmitCandidateUseCase.ts).
use ledger_system.Prelude.{
  String, map, true, false, none, some, List, [], ◌∷◌, ◌==◌, string_eq, truthy, ◌≡◌, inl, inr, refl,
  sym, ap, ◌∙◌, Result, ok, err, Option-cases, arith,
}
use ledger_system.Prelude.Strings.{join}
use ledger_system.Domain.Errors.{LedgerError}
use ledger_system.Domain.Errors.Messages.{message}
use ledger_system.Domain.Entities.{LedgerEvent}
use ledger_system.Infra.Memory.{get_by_command_id}
use ledger_system.Application.Recording.{CreateLedgerEventCommand, Ledger, execute, known_event}
use ledger_system.Application.Recording.Outcomes.{execute_known, Later, get_by_command_id-Later}
use ledger_system.Application.Staging.{ValidationFailure, validate, default_source_systems}
use ledger_system.Application.Staging.Catalog.{classify_error, classify_staging_failure}
use ledger_system.Application.Submission.{
  SubmitCandidateInput, SubmitOutcome, SubmitEnv, to_staging_record, to_command, submit_valid,
  submit_new, submit,
}
use ledger_system.Application.Submission.Cast.{IsCommandOf, to_command-IsCommandOf}

-- The candidate was turned into a command of its key, and the command into the event `e`.
pub record IsRecorded (env : SubmitEnv) (input : SubmitCandidateInput) (key : String) (l : Ledger)
    (after : Ledger) (e : LedgerEvent) : Type 0 where
  pub valid : validate default_source_systems l.book (to_staging_record env.staging_id input) ≡ []
  pub command : CreateLedgerEventCommand
  pub says : IsCommandOf env.new_date input key command
  pub executed : execute env.event command l ≡ ok (e, after)

-- How a submission may end.
pub data Ends (env : SubmitEnv) (input : SubmitCandidateInput) (key : String) (l : Ledger)
    : SubmitOutcome × Ledger → Type 0 where
  -- The key is on record.
  known :
      (e : LedgerEvent)
      → get_by_command_id key l.book ≡ some e
      → Ends env input key l (SubmitOutcome.accepted e.id, l)
  -- The event is new.
  recorded :
      (e : LedgerEvent) (after : Ledger)
      → get_by_command_id key l.book ≡ none
      → IsRecorded env input key l after e
      → Ends env input key l (SubmitOutcome.accepted e.id, after)
  -- The validator finds failures; each of them is classified.
  invalid :
      (f : ValidationFailure) (fs : List ValidationFailure)
      → get_by_command_id key l.book ≡ none
      → validate default_source_systems l.book (to_staging_record env.staging_id input) ≡ f ∷ fs
      → Ends env input key l (
        SubmitOutcome.rejected
            (join "; " (map (λ d. d.description) (f ∷ fs)))
            (map classify_staging_failure (f ∷ fs)),
        l,
      )
  -- The validator finds no failure, and the ledger throws `e` on the command.
  failed :
      (e : LedgerError) (command : CreateLedgerEventCommand)
      → get_by_command_id key l.book ≡ none
      → validate default_source_systems l.book (to_staging_record env.staging_id input) ≡ []
      → IsCommandOf env.new_date input key command
      → execute env.event command l ≡ err e
      → Ends env input key l
          (SubmitOutcome.rejected (message e) (classify_error (message e) ∷ []), l)

submit_executed :
    (env : SubmitEnv) (input : SubmitCandidateInput) (key : String) (l : Ledger)
    (c : CreateLedgerEventCommand) (ran : Result LedgerError (LedgerEvent × Ledger))
    → get_by_command_id key l.book ≡ none
    → validate default_source_systems l.book (to_staging_record env.staging_id input) ≡ []
    → to_command env.new_date input key ≡ ok c
    → IsCommandOf env.new_date input key c
    → execute env.event c l ≡ ran
    → Ends env input key l (submit_valid env input key l)
unfolding submit_valid
submit_executed env input key l c (ok (e, after)) unknown valid made says ran =
    rw (submit_valid, made, ran)
      (recorded e after unknown
        (record { valid = valid; command = c; says = says; executed = ran }))
submit_executed env input key l c (err e) unknown valid made says ran =
    rw (submit_valid, made, ran) (failed e c unknown valid says ran)

submit_validated :
    (env : SubmitEnv) (input : SubmitCandidateInput) (key : String) (l : Ledger)
    (failures : List ValidationFailure)
    → get_by_command_id key l.book ≡ none
    → validate default_source_systems l.book (to_staging_record env.staging_id input) ≡ failures
    → Ends env input key l (submit_new env input key l)
unfolding submit_new
submit_validated env input key l [] unknown v =
    let (c, made, says) = to_command-IsCommandOf env.new_date l.book env.staging_id input key v in
    rw (submit_new, v)
      (submit_executed env input key l c (execute env.event c l) unknown v made says refl)
submit_validated env input key l (f ∷ fs) unknown v = rw (submit_new, v) (invalid f fs unknown v)

-- A submission ends in one of four ways: with the event that the ledger has for the key, and the
-- ledger as it was; with a new event, where the validator finds no failure, and the command that
-- says what the candidate says and carries the key was executed; rejected, with the classified
-- failures that the validator finds, and the ledger as it was; or rejected, where the validator
-- finds none, with the classified error that `execute` throws on that command, and the ledger as it
-- was.
pub submit-Ends :
    (env : SubmitEnv) (input : SubmitCandidateInput) (key : String) (l : Ledger)
    → Ends env input key l (submit env input key l)
unfolding submit
submit-Ends env input key l = elim (Option-cases (get_by_command_id key l.book)) [
  | inl unknown ↦ rw (submit, unknown) (submit_validated env input key l _ unknown refl)
  | inr (e, found) ↦ rw (submit, found) (known e found)
]

known_key :
    (key : String) (l : Ledger) {e : LedgerEvent}
    → (key == "") ≡ false
    → known_event (some key) l.book ≡ some e
    → get_by_command_id key l.book ≡ some e
known_key key l full h = rw (known_event, full) at h

-- The event of an accepted submission is found by its key.
accepted_known :
    (env : SubmitEnv) (input : SubmitCandidateInput) (key : String) (l : Ledger)
    (o : SubmitOutcome × Ledger) (reference : String) (after : Ledger)
    → (key == "") ≡ false
    → Ends env input key l o
    → o ≡ (SubmitOutcome.accepted reference, after)
    → (e : LedgerEvent) × (get_by_command_id key after.book ≡ some e) × (e.id ≡ reference)
accepted_known env input key l o reference after full (known e found) h =
    (e, ap (λ x. get_by_command_id key x.1.book) (sym h) ∙ found, cc h)
accepted_known env input key l o reference after full (recorded e new unknown r) h =
    let given : truthy r.command.command_id ≡ true = rw r.says.command_id (ground (arith, full)) in
    let here : known_event (some key) new.book ≡ some e =
      ap (λ k. known_event k new.book) (sym r.says.command_id)
      ∙ execute_known env.event r.command l given r.executed in
    (e, ap (λ x. get_by_command_id key x.1.book) (sym h) ∙ known_key key new full here, cc h)
accepted_known env input key l o reference after full (invalid f fs unknown v) h = cc h
accepted_known env input key l o reference after full (failed e c unknown valid says ran) h = cc h

-- A key that was accepted once is accepted when it is sent again with whatever candidate, after
-- whatever other commands were executed: the answer is the same reference, and the ledger is left
-- as it is.
pub submit_retry :
    (env again : SubmitEnv) (input other : SubmitCandidateInput) (key : String) (l : Ledger)
    (reference : String) (after later : Ledger)
    → (key == "") ≡ false
    → submit env input key l ≡ (SubmitOutcome.accepted reference, after)
    → Later after later
    → submit again other key later ≡ (SubmitOutcome.accepted reference, later)
unfolding submit
submit_retry env again input other key l reference after later full h behind =
    let (e, found, same) =
      accepted_known env input key l (submit env input key l) reference after full
        (submit-Ends env input key l) h in
    rw (submit, get_by_command_id-Later key behind found, same) refl
