-- ===== src/Treasury/Mapper/Shape.antt =====
-- The templates that a candidate is made by
-- (treasury/src/core/application/services/CandidateMapper.ts), the candidate
-- (treasury/src/core/domain/value-objects/Candidate.ts), and what the mapper reads of an intent. A
-- property that may be absent is an `Option`.
use ledger_system.Prelude.{String, Bool, Option, List}
use ledger_system.Prelude.Dict.{Dict}

pub record TupleOverride : Type 0 where
  pub economic_effect : Option String
  pub object_type : Option String
  pub relation : Option String
  pub reason_type : Option String
  pub reason_text : Option String

pub data Who : Type 0 where
  usina counterparty : Who

pub record PartyTemplate : Type 0 where
  pub who : Who
  pub role : String
  pub direction : String
  pub carries_amount : Bool

pub record ObjectTemplate : Type 0 where
  pub object_type : String
  pub relation : String

-- The type `{ reasonType, reasonText }` of `orphan` and `retroactive`.
pub record ReasonSwap : Type 0 where
  pub reason_type : String
  pub reason_text : String

pub record Variants : Type 0 where
  pub selector_slot : String
  pub by_choice : Dict TupleOverride

pub data ContinuityMode : Type 0 where
  open_positions unoriginated : ContinuityMode

pub record ScenarioMapping : Type 0 where
  pub event_type : String
  pub economic_effect : String
  pub counterparty_slot : Option String
  pub parties : List PartyTemplate
  pub objects : List ObjectTemplate
  pub reason_type : String
  pub reason_text : String
  pub variants : Option Variants
  pub related_event_slot : Option String
  pub object_id_slot : Option String
  pub orphan : Option ReasonSwap
  pub continuity_mode : Option ContinuityMode
  pub retroactive : Option ReasonSwap
  pub followup_slot : Option String
  pub inherits_counterparty : Bool

-- A value that an answer may lack is an `Option`.
pub record CandidateParty : Type 0 where
  pub party_id : Option String
  pub role : String
  pub direction : String
  pub amount : Option String

pub record CandidateObject : Type 0 where
  pub object_id : String
  pub object_type : String
  pub relation : String

pub record CandidateReason : Type 0 where
  pub type : String
  pub description : String
  pub confidence : String
  pub requires_followup : Bool

pub record CandidateReporter : Type 0 where
  pub reporter_type : String
  pub reporter_id : String
  pub channel : String

pub record Candidate : Type 0 where
  pub source_reference : String
  pub event_type : String
  pub economic_effect : String
  pub occurred_at : String
  pub due_at : Option String
  pub amount : Option String
  pub currency : Option String
  pub description : Option String
  pub related_event_id : Option String
  pub parties : List CandidateParty
  pub objects : List CandidateObject
  pub reason : CandidateReason
  pub reporter : CandidateReporter

-- What `build` reads of an intent.
pub record Intent : Type 0 where
  pub id : String
  pub scenario_id : String
  pub user_id : String
  pub answers : Dict String

pub data MapperError : Type 0 where
  -- `throw new Error("No candidate mapping …")`
  no_mapping : (scenario_id : String) → MapperError
  -- A method of an answer that is undefined.
  type_error : MapperError
  -- `toISOString` of an invalid date.
  invalid_date : MapperError
