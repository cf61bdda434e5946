-- ===== src/Application/Staging/Shape.antt =====
-- What waits for posting (ledger/src/core/application/dtos/StagingRecord.ts) and why a record is
-- refused (ledger/src/core/domain/value-objects/RejectionType.ts). A property that may be absent or
-- null is an `Option`.
use ledger_system.Prelude.{
  ℕ, String, Bool, Option, List, [], ◌∷◌, some, ◌≡◌, refl, ◌↔◌, true, Eq, eq_by, eq_by_iff,
  get_elem?,
}

pub data StagingStatus : Type 0 where
  pending processing queued accepted rejected : StagingStatus

abbrev pub staging_status_place : StagingStatus → ℕ
staging_status_place StagingStatus.pending = 0
staging_status_place StagingStatus.processing = 1
staging_status_place StagingStatus.queued = 2
staging_status_place StagingStatus.accepted = 3
staging_status_place StagingStatus.rejected = 4

abbrev staging_status_values : List StagingStatus
staging_status_values =
    StagingStatus.pending ∷ StagingStatus.processing ∷ StagingStatus.queued ∷ StagingStatus.accepted
    ∷ StagingStatus.rejected ∷ []

get_elem?-staging_status_place :
    (a : StagingStatus) → get_elem? staging_status_values (staging_status_place a) ≡ some a
get_elem?-staging_status_place StagingStatus.pending = refl
get_elem?-staging_status_place _ = refl

pub staging_status_eq_iff :
    (a b : StagingStatus) → (eq_by staging_status_place a b ≡ true) ↔ (a ≡ b)
staging_status_eq_iff =
    eq_by_iff staging_status_place (get_elem? staging_status_values) get_elem?-staging_status_place

instance abbrev pub staging_status_eq : Eq StagingStatus
staging_status_eq = record { beq = eq_by staging_status_place; beq_iff = staging_status_eq_iff }

pub record StagingParty : Type 0 where
  pub party_id : Option String
  pub role : Option String
  pub direction : Option String
  pub amount : Option String

pub record StagingObject : Type 0 where
  pub object_id : Option String
  pub object_type : Option String
  pub relation : Option String

pub record StagingReason : Type 0 where
  pub type : Option String
  pub description : Option String
  pub confidence : Option String
  pub requires_followup : Option Bool

pub record StagingReporter : Type 0 where
  pub reporter_type : Option String
  pub reporter_id : Option String
  pub reporter_name : Option String
  pub channel : Option String

pub record StagingRecord : Type 0 where
  pub id : String
  pub status : StagingStatus
  pub event_type : Option String
  pub economic_effect : Option String
  pub occurred_at : Option String
  pub source_at : Option String
  pub due_at : Option String
  pub amount : Option String
  pub currency : Option String
  pub description : Option String
  pub source_system : Option String
  pub source_reference : Option String
  pub normalization_version : Option String
  pub normalization_worker_id : Option String
  pub related_event_id : Option String
  pub previous_hash : Option String
  pub parties : Option (List StagingParty)
  pub objects : Option (List StagingObject)
  pub reason : Option StagingReason
  pub reporter : Option StagingReporter

pub data RejectionType : Type 0 where
  invalid_amount missing_party duplicate_event invalid_schema policy_violation : RejectionType

-- A failure of the validator, and a reason in a `RejectLedgerEventCommand`.
pub record ValidationFailure : Type 0 where
  pub type : RejectionType
  pub description : String
