-- ===== src/Infra/Staged/Claims.antt =====
-- What `claimPending` claims (ledger/src/infra/persistence/staging/InMemoryStagingRepository.ts).
use ledger_system.Prelude.{
  ℕ, zero, suc, ◌+◌, ◌≤◌, ◌<◌, String, true, false, List, [], ◌∷◌, ◌≡◌, ◌≢◌, ◌⊎◌, inl, inr, refl,
  filter, length, All, All2, Bool-cases, arith,
}
use ledger_system.Application.Staging.{
  StagingRecord, StagingStatus, staging_status_eq, staging_status_eq_iff,
}
use ledger_system.Infra.Staged.{Store, is_claimable, with_status, claim_pending}

-- The number of records that a claim could take.
abbrev pub claimable : List String → Store → ℕ
claimable types store = length (filter (is_claimable types) store)

-- A record of the store before and after a claim.
abbrev pub IsClaimStep : StagingStatus → List String → StagingRecord → StagingRecord → Type 0
IsClaimStep target types before after =
    (after ≡ before) ⊎ ((is_claimable types before ≡ true) × (after ≡ with_status target before))

pub record Claims (target : StagingStatus) (limit : ℕ) (types : List String) (store : Store)
    (claimed after : Store) : Type 0 where
  pub adds_up : length claimed + claimable types after ≡ claimable types store
  pub bounded : length claimed ≤ limit
  pub exhausts : length claimed < limit → claimable types after ≡ 0
  pub marked : All (λ r. r.status ≡ target) claimed
  pub steps : All2 (IsClaimStep target types) store after

unclaimable :
    (target : StagingStatus) (types : List String) (r : StagingRecord)
    → target ≢ StagingStatus.pending
    → is_claimable types (with_status target r) ≡ false
unfolding is_claimable
unclaimable target types r other =
    ground (arith, other, staging_status_eq_iff target StagingStatus.pending)

All2-unchanged :
    (target : StagingStatus) (types : List String) (store : Store)
    → All2 (IsClaimStep target types) store store
All2-unchanged target types [] = tt
All2-unchanged target types (r ∷ rs) = (inl refl, All2-unchanged target types rs)

-- A claim with a target other than `pending` sets the status of pending records of the wanted types and
-- of nothing else; it takes at most as many as its limit, and if it takes fewer none is left, so
-- that each one of them is claimed once.
pub claim_pending-Claims :
    (target : StagingStatus) (limit : ℕ) (types : List String) (store : Store)
    → target ≢ StagingStatus.pending
    → Claims target limit types store
        (claim_pending target limit types store).0
        (claim_pending target limit types store).1
unfolding claim_pending
claim_pending-Claims target zero types store other = record {
  adds_up = omega arith;
  bounded = omega arith;
  exhausts = λ h. omega (arith, h);
  marked = tt;
  steps = All2-unchanged target types store;
}
claim_pending-Claims target (suc left) types [] other = record {
  adds_up = omega arith;
  bounded = omega arith;
  exhausts = λ h. refl;
  marked = tt;
  steps = tt;
}
claim_pending-Claims target (suc left) types (r ∷ rs) other =
    elim (Bool-cases (is_claimable types r)) [
      | inl hit ↦
          let c = claim_pending-Claims target left types rs other in
          let gone = unclaimable target types r other in
          rw (claim_pending, hit)
            (record {
              adds_up = rw (gone, hit) (omega (arith, c.adds_up));
              bounded = omega (arith, c.bounded);
              exhausts = λ h. rw gone (c.exhausts (omega (arith, h)));
              marked = (refl, c.marked);
              steps = (inr (hit, refl), c.steps);
            })
      | inr miss ↦
          let c = claim_pending-Claims target (suc left) types rs other in
          rw (claim_pending, miss)
            (record {
              adds_up = rw miss (c.adds_up);
              bounded = c.bounded;
              exhausts = λ h. rw miss (c.exhausts h);
              marked = c.marked;
              steps = (inl refl, c.steps);
            })
    ]
