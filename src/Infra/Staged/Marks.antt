-- ===== src/Infra/Staged/Marks.antt =====
-- The status of a staged record by its identifier
-- (ledger/src/infra/persistence/staging/InMemoryStagingRepository.ts).
use ledger_system.Prelude.{
  ℕ, zero, suc, String, true, false, Option, none, some, List, [], ◌∷◌, ◌==◌, string_eq, ◌≡◌, inl,
  inr, refl, if◌then◌else◌, All, All-map, Bool-cases, arith, is_some, ==_refl, ◌+◌, ◌≤◌, nat_eq,
  Bool, not, ◌||◌, all, subst, sym, some_injective,
}
use text.Mathlib.TextEquality.{eq_iff}
use ledger_system.Application.Staging.{StagingRecord, StagingStatus}
use ledger_system.Infra.Staged.{Store, is_claimable, with_status, claim_pending, mark_as}

-- The status of the first record of an identifier.
abbrev pub status_of : String → Store → Option StagingStatus
status_of id [] = none
status_of id (r ∷ rs) = if r.id == id then some r.status else status_of id rs

pub status_of-mark_as :
    (id : String) (status : StagingStatus) (store : Store)
    → is_some (status_of id store) ≡ true
    → status_of id (mark_as status id store) ≡ some status
unfolding mark_as
status_of-mark_as id status [] h = cc h
status_of-mark_as id status (r ∷ rs) h = elim (Bool-cases (r.id == id)) [
  | inl hit ↦ rw (hit, hit) refl
  | inr miss ↦ rw (miss, miss) (status_of-mark_as id status rs (rw miss at h))
]

pub status_of-mark_as_other :
    (id other : String) (status : StagingStatus) (store : Store)
    → (other == id) ≡ false
    → status_of id (mark_as status other store) ≡ status_of id store
unfolding mark_as
status_of-mark_as_other id other status [] h = refl
status_of-mark_as_other id other status (r ∷ rs) h = elim (Bool-cases (r.id == other)) [
  | inl hit ↦ ground (arith, hit, h, eq_iff r.id other, eq_iff other id, eq_iff r.id id)
  | inr miss ↦ ground (arith, miss, status_of-mark_as_other id other status rs h)
]

behind_one :
    (id : String) (r : StagingRecord) (store : Store)
    → is_some (status_of id store) ≡ true
    → is_some (status_of id (r ∷ store)) ≡ true
behind_one id r store h = elim (Bool-cases (r.id == id)) [
  | inl hit ↦ rw hit refl
  | inr miss ↦ rw miss h
]

-- The records that a claim returns are in the store.
pub claimed_on_record :
    (target : StagingStatus) (limit : ℕ) (types : List String) (store : Store)
    → All
        (λ r. is_some (status_of r.id (claim_pending target limit types store).1) ≡ true)
        (claim_pending target limit types store).0
unfolding claim_pending
claimed_on_record target zero types store = tt
claimed_on_record target (suc left) types [] = tt
claimed_on_record target (suc left) types (r ∷ rs) = elim (Bool-cases (is_claimable types r)) [
  | inl hit ↦
      rw (claim_pending, hit)
        (
          ground (arith, ==_refl r.id),
          All-map (λ x h. behind_one x.id (with_status target r) _ h) _
              (claimed_on_record target left types rs),
        )
  | inr miss ↦
      rw (claim_pending, miss)
        (All-map (λ x h. behind_one x.id r _ h) _ (claimed_on_record target (suc left) types rs))
]

-- The number of records of an identifier.
unfoldable pub count_id : String → Store → ℕ
count_id id [] = 0
count_id id (r ∷ rs) = (if r.id == id then 1 else 0) + count_id id rs

pub count_id-mark_as :
    (id other : String) (status : StagingStatus) (store : Store)
    → count_id id (mark_as status other store) ≡ count_id id store
unfolding mark_as count_id
count_id-mark_as id other status [] = refl
count_id-mark_as id other status (r ∷ rs) = elim (Bool-cases (r.id == other)) [
  | inl hit ↦ rw hit refl
  | inr miss ↦ rw (miss, count_id-mark_as id other status rs) refl
]

pub count_id-claim_pending :
    (id : String) (target : StagingStatus) (limit : ℕ) (types : List String) (store : Store)
    → count_id id (claim_pending target limit types store).1 ≡ count_id id store
unfolding claim_pending count_id
count_id-claim_pending id target zero types store = refl
count_id-claim_pending id target (suc left) types [] = refl
count_id-claim_pending id target (suc left) types (r ∷ rs) =
    elim (Bool-cases (is_claimable types r)) [
      | inl hit ↦ rw (claim_pending, hit) (rw (count_id-claim_pending id target left types rs) refl)
      | inr miss ↦
          rw (claim_pending, miss) (rw (count_id-claim_pending id target (suc left) types rs) refl)
    ]

abbrev pub is_final : StagingStatus → Bool
is_final StagingStatus.accepted = true
is_final StagingStatus.rejected = true
is_final _ = false

-- Every record of the identifier is accepted or rejected.
abbrev pub are_final : String → Store → Bool
are_final id store = all (λ r. not (r.id == id) || is_final r.status) store

none_final : (id : String) (store : Store) → count_id id store ≡ 0 → are_final id store ≡ true
unfolding count_id
none_final id [] h = refl
none_final id (r ∷ rs) h = elim (Bool-cases (r.id == id)) [
  | inl hit ↦ absurd (omega (arith, rw hit at h))
  | inr miss ↦ ground (arith, miss, none_final id rs (omega (arith, rw miss at h)))
]

-- Where an identifier is unique, the status of its first record is the status of every one.
pub are_final_once :
    (id : String) (store : Store) (status : StagingStatus)
    → count_id id store ≤ 1
    → status_of id store ≡ some status
    → is_final status ≡ true
    → are_final id store ≡ true
unfolding count_id
are_final_once id [] status once h final = refl
are_final_once id (r ∷ rs) status once h final = elim (Bool-cases (r.id == id)) [
  | inl hit ↦
      let here : is_final r.status ≡ true =
        subst (λ x. is_final x ≡ true) (sym (some_injective (rw hit at h))) final in
      ground (arith, hit, here, none_final id rs (omega (arith, rw hit at once)))
  | inr miss ↦ ground (
    arith,
    miss,
    are_final_once id rs status (omega (arith, rw miss at once)) (rw miss at h) final,
  )
]
