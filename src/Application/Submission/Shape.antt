-- ===== src/Application/Submission/Shape.antt =====
-- The candidate that the treasury sends and the answer
-- (ledger/src/core/application/dtos/SubmitCandidateInput.ts, use-cases/SubmitCandidateUseCase.ts).
use ledger_system.Prelude.{String, Bool, Option, List}
use ledger_system.Application.Staging.Catalog.{RejectionDetail}

pub record CandidateParty : Type 0 where
  pub party_id : String
  pub role : String
  pub direction : String
  pub amount : Option String

pub record CandidateObject : Type 0 where
  pub object_id : String
  pub object_type : String
  pub relation : String

pub record CandidateReason : Type 0 where
  pub type : String
  pub description : String
  pub confidence : String
  pub requires_followup : Bool

pub record CandidateReporter : Type 0 where
  pub reporter_type : String
  pub reporter_id : String
  pub reporter_name : Option String
  pub channel : String

pub record SubmitCandidateInput : Type 0 where
  pub source_reference : String
  pub event_type : String
  pub economic_effect : String
  pub occurred_at : String
  pub source_at : Option String
  pub due_at : Option String
  pub amount : String
  pub currency : String
  pub description : Option String
  pub related_event_id : Option String
  pub parties : List CandidateParty
  pub objects : List CandidateObject
  pub reason : Option CandidateReason
  pub reporter : CandidateReporter

pub data SubmitOutcome : Type 0 where
  accepted : (ledger_reference : String) → SubmitOutcome
  rejected : (reason : String) (rejections : List RejectionDetail) → SubmitOutcome
