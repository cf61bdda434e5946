-- ===== src/Application/Posting/Liveness.antt =====
-- What one run of the job leaves behind (ledger/src/infra/jobs/StagingPostingJob.ts).
use ledger_system.Prelude.{
  ℕ, ◌+◌, ◌≤◌, ◌∙◌, String, true, false, Option, some, List, [], ◌∷◌, ◌==◌, string_eq, ◌≡◌, ◌⊎◌,
  inl, inr, refl, sym, subst, ok, Bool-cases, All, All-map, is_some, ==_true,
}
use ledger_system.Prelude.Strings.{is_blank}
use ledger_system.Infra.Staged.{Store, mark_as, claim_pending}
use ledger_system.Infra.Staged.Marks.{
  status_of, status_of-mark_as, status_of-mark_as_other, claimed_on_record, count_id,
  count_id-mark_as, count_id-claim_pending, are_final, are_final_once,
}
use ledger_system.Application.Staging.{StagingRecord, StagingStatus}
use ledger_system.Application.Posting.{Intake, PostingJob, PostingEnv, handle_all, run}
use ledger_system.Application.Posting.Outcomes.{IsHandled, handle_outcomes}

-- The record of an identifier is accepted or rejected.
abbrev IsFinal : Option StagingStatus → Type 0
IsFinal status = (status ≡ some StagingStatus.accepted) ⊎ (status ≡ some StagingStatus.rejected)

abbrev pub IsSettled : Store → String → Type 0
IsSettled store id = IsFinal (status_of id store)

abbrev IsThere : Store → String → Type 0
IsThere store id = is_some (status_of id store) ≡ true

-- What `handle` does to the staged records.
marked :
    (job : PostingJob) (env : PostingEnv) (r : StagingRecord) (s after : Intake)
    → IsHandled job env r s after
    → (after.staged ≡ mark_as StagingStatus.accepted r.id s.staged)
      ⊎ (after.staged ≡ mark_as StagingStatus.rejected r.id s.staged)
marked job env r s after (inl (e, shape)) = inl shape.2
marked job env r s after (inr (reasons, shape)) = inr shape.1

-- A record that is settled stays so, whichever record is marked.
mark_keeps :
    (P : Option StagingStatus → Type 0) (status : StagingStatus) (store : Store) (id other : String)
    → IsThere store id
    → P (some status)
    → P (status_of id store)
    → P (status_of id (mark_as status other store))
mark_keeps P status store id other there new old = elim (Bool-cases (other == id)) [
  | inl hit ↦
      subst (λ i. P (status_of id (mark_as status i store))) (sym (==_true other id hit))
        (subst P (sym (status_of-mark_as id status store there)) new)
  | inr miss ↦ subst P (sym (status_of-mark_as_other id other status store miss)) old
]

-- The records on record stay there, and what is settled stays settled.
abbrev Keeps : Store → Store → Type 0
Keeps store after =
    (id : String) → IsThere store id → IsThere after id × (IsSettled store id → IsSettled after id)

mark-Keeps :
    (status : StagingStatus) (store : Store) (other : String)
    → IsFinal (some status)
    → Keeps store (mark_as status other store)
mark-Keeps status store other final id there = (
  mark_keeps (λ o. is_some o ≡ true) status store id other there refl there,
  λ old. mark_keeps IsFinal status store id other there final old,
)

-- What one call of `handle` does.
abbrev Settles : Store → Store → String → Type 0
Settles store after id = IsSettled after id × Keeps store after

mark-Settles :
    (status : StagingStatus) (store after : Store) (id : String)
    → IsFinal (some status)
    → IsThere store id
    → after ≡ mark_as status id store
    → Settles store after id
mark-Settles status store after id final there shape =
    subst (λ a. Settles store a id) (sym shape)
      (
        subst IsFinal (sym (status_of-mark_as id status store there)) final,
        mark-Keeps status store id final,
      )

handle-Settles :
    (job : PostingJob) (env : PostingEnv) (r : StagingRecord) (s after : Intake)
    → IsThere s.staged r.id
    → IsHandled job env r s after
    → Settles s.staged after.staged r.id
handle-Settles job env r s after there h = elim (marked job env r s after h) [
  | inl shape ↦
      mark-Settles StagingStatus.accepted s.staged after.staged r.id (inl refl) there shape
  | inr shape ↦
      mark-Settles StagingStatus.rejected s.staged after.staged r.id (inr refl) there shape
]

-- The identifiers are the same.
abbrev SameIds : Store → Store → Type 0
SameIds store after = (id : String) → count_id id after ≡ count_id id store

marked-SameIds :
    (job : PostingJob) (env : PostingEnv) (r : StagingRecord) (s after : Intake)
    → IsHandled job env r s after
    → SameIds s.staged after.staged
marked-SameIds job env r s after h id = elim (marked job env r s after h) [
  | inl shape ↦ rw shape (count_id-mark_as id r.id StagingStatus.accepted s.staged)
  | inr shape ↦ rw shape (count_id-mark_as id r.id StagingStatus.rejected s.staged)
]

abbrev HasId : StagingRecord → Type 0
HasId r = is_blank r.id ≡ false

-- How the loop ends.
abbrev Ends : PostingJob → (ℕ → PostingEnv) → ℕ → List StagingRecord → Intake → Type 0
Ends job envs n rs s =
    (after : Intake) × (handle_all job envs n rs s ≡ ok after)
    × All (λ r. IsSettled after.staged r.id) rs
    × Keeps s.staged after.staged
    × SameIds s.staged after.staged

handle_all_ends :
    (job : PostingJob) (envs : ℕ → PostingEnv) (n : ℕ) (rs : List StagingRecord) (s : Intake)
    → ((k : ℕ) → ((envs k).rejection_uuid == "") ≡ false)
    → All HasId rs
    → All (λ r. IsThere s.staged r.id) rs
    → Ends job envs n rs s
unfolding handle_all
handle_all_ends job envs n [] s uuids ids there = (s, refl, tt, λ id h. (h, λ old. old), λ id. refl)
handle_all_ends job envs n (r ∷ rs) s uuids (has_id, ids) (here, there) =
    let (mid, done, handled) = handle_outcomes job (envs n) r s has_id (uuids n) in
    let (settled, keeps) = handle-Settles job (envs n) r s mid here handled in
    let (after, rest, all_settled, keeps_on, same) =
      handle_all_ends job envs (n + 1) rs mid uuids ids
        (All-map (λ x h. (keeps x.id h).0) rs there) in
    (
      after,
      rw done rest,
      ((keeps_on r.id (keeps r.id here).0).1 settled, all_settled),
      λ id h.
          let (h1, k1) = keeps id h in let (h2, k2) = keeps_on id h1 in (h2, λ old. k2 (k1 old)),
      λ id. same id ∙ marked-SameIds job (envs n) r s mid handled id,
    )

-- The records that a run claims.
abbrev pub claimed_by_run : Intake → List StagingRecord
claimed_by_run s = (claim_pending StagingStatus.processing 100 [] s.staged).0

IsSettled-final :
    (store : Store) (id : String)
    → count_id id store ≤ 1
    → IsSettled store id
    → are_final id store ≡ true
IsSettled-final store id once (inl accepted) =
    are_final_once id store StagingStatus.accepted once accepted refl
IsSettled-final store id once (inr rejected) =
    are_final_once id store StagingStatus.rejected once rejected refl

-- Where no two staged records have the same identifier, and the identifiers of those that it claims
-- are not blank, a run comes to its end, and each record that it claimed is then on the store,
-- accepted or rejected: no record of its identifier stays in processing.
pub run-IsSettled :
    (job : PostingJob) (envs : ℕ → PostingEnv) (s : Intake)
    → ((k : ℕ) → ((envs k).rejection_uuid == "") ≡ false)
    → ((id : String) → count_id id s.staged ≤ 1)
    → All HasId (claimed_by_run s)
    → (after : Intake) × (run job envs s ≡ ok (claimed_by_run s, after))
      × All
          (λ r. IsSettled after.staged r.id × (are_final r.id after.staged ≡ true))
          (claimed_by_run s)
unfolding run
run-IsSettled job envs s uuids once ids =
    let claim = claim_pending StagingStatus.processing 100 [] s.staged in
    let (after, done, settled, _, same) =
      handle_all_ends job envs 0 (claimed_by_run s) (record s { staged = claim.1 }) uuids ids
        (claimed_on_record StagingStatus.processing 100 [] s.staged) in
    (
      after,
      rw done refl,
      All-map
          (λ r h. (
            h,
            IsSettled-final after.staged r.id
                (subst (λ n. n ≤ 1)
                  (sym (
                    same r.id
                    ∙ count_id-claim_pending r.id StagingStatus.processing 100 [] s.staged))
                  (once r.id))
                h,
          ))
          (claimed_by_run s) settled,
    )
