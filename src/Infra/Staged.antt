-- ===== src/Infra/Staged.antt =====
-- The staged records kept in memory
-- (ledger/src/infra/persistence/staging/InMemoryStagingRepository.ts): the private array `store`.
-- `claimPending` returns records of the store itself, so that it sets their status there and in
-- what it returns.
pub mod Claims
pub mod Marks
use ledger_system.Prelude.{
  ℕ, zero, suc, String, Bool, true, false, ◌&&◌, ◌||◌, Option, none, some, List, [], ◌∷◌, ◌++◌,
  ◌==◌, string_eq, if◌then◌else◌, includes,
}
use ledger_system.Application.Staging.{StagingRecord, StagingStatus, staging_status_eq}

abbrev pub Store : Type 0
Store = List StagingRecord

unfoldable pub save_record : StagingRecord → Store → Store
save_record r store = store ++ r ∷ []

-- `!eventTypes?.length || eventTypes.includes(r.eventType)`
abbrev of_type : List String → Option String → Bool
of_type [] event_type = true
of_type (t ∷ ts) none = false
of_type (t ∷ ts) (some event_type) = includes (t ∷ ts) event_type

-- The test of the filter in `claimPending`.
unfoldable pub is_claimable : List String → StagingRecord → Bool
is_claimable event_types r = r.status == StagingStatus.pending && of_type event_types r.event_type

abbrev pub with_status : StagingStatus → StagingRecord → StagingRecord
with_status status r = record r { status = status }

-- `claimPending`: the records that it returns, and the store. An absent list of types is empty.
unfoldable pub claim_pending :
    (target : StagingStatus) (limit : ℕ) (event_types : List String) → Store → Store × Store
claim_pending target zero types store = ([], store)
claim_pending target (suc left) types [] = ([], [])
claim_pending target (suc left) types (r ∷ rs) = elim (is_claimable types r) [
  | true ↦
      let (claimed, rest) = claim_pending target left types rs in
      (with_status target r ∷ claimed, with_status target r ∷ rest)
  | false ↦ let (claimed, rest) = claim_pending target (suc left) types rs in (claimed, r ∷ rest)
]

-- `markAsAccepted`, `markAsRejected` and `markAsPending`: the first record of the identifier.
unfoldable pub mark_as : StagingStatus → String → Store → Store
mark_as status id [] = []
mark_as status id (r ∷ rs) =
    let rest = mark_as status id rs in if r.id == id then with_status status r ∷ rs else r ∷ rest

unfoldable pub find_all_records : Store → List StagingRecord
find_all_records store = store
