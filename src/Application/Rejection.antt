-- ===== src/Application/Rejection.antt =====
-- Recording a rejection: `RejectLedgerEventUseCase`, `RejectedEvent.create`, `RejectionReason` and
-- `StagingId` (ledger/src/core), over the list that InMemoryRejectedEventRepository.ts keeps. The
-- raw payload, which is the staged record itself, is left out.
use ledger_system.Prelude.{
  String, Option, none, some, List, [], ◌∷◌, ◌++◌, map, ok, err, ◌>>=◌, ◌>>◌, throw_if,
}
use ledger_system.Prelude.Strings.{is_blank}
use ledger_system.Domain.Errors.{
  Throws, staging_id_required, description_required, no_rejection_reason,
}
use ledger_system.Domain.Entities.{Instant, new_event_id}
use ledger_system.Domain.Hash.Instants.{to_iso_string}
use ledger_system.Application.Staging.{ValidationFailure}
use ledger_system.Application.Staging.Command.{map_all}

-- `new StagingId(value)`; the identifier itself is the text.
unfoldable pub new_staging_id : String → Throws String
new_staging_id value = do throw_if (is_blank value) staging_id_required; ok value

-- `new RejectionReason(type, description)`
unfoldable pub new_rejection_reason : ValidationFailure → Throws ValidationFailure
new_rejection_reason r = do throw_if (is_blank r.description) description_required; ok r

pub record RejectedEvent : Type 0 where
  pub id : String
  pub staging_id : String
  pub reasons : List ValidationFailure
  pub rejected_at : Instant

-- `RejectedEvent.create`, with its `randomUUID()` and its reading of the clock.
unfoldable pub create_rejected :
    (uuid : String) (now : Instant) → String → List ValidationFailure → Throws RejectedEvent
create_rejected uuid now staging_id [] = err no_rejection_reason
create_rejected uuid now staging_id (r ∷ rs) = do
  id ← new_event_id uuid
  ok (record { id = id; staging_id = staging_id; reasons = r ∷ rs; rejected_at = now })

-- The entry that the audit log is given.
pub record RejectionEntry : Type 0 where
  pub action : String
  pub timestamp : String
  pub source_system : String
  pub staging_id : String
  pub reasons : List String

-- The rejected events, and the entries on them in the audit log, apart from those of recorded events.
pub record Rejections : Type 0 where
  pub events : List RejectedEvent
  pub entries : List RejectionEntry

pub record RejectLedgerEventCommand : Type 0 where
  pub staging_id : String
  pub reasons : List ValidationFailure
  pub source_system : Option String

abbrev or_unknown : Option String → String
or_unknown none = "unknown"
or_unknown (some s) = s

abbrev pub rejection_entry : RejectLedgerEventCommand → RejectedEvent → RejectionEntry
rejection_entry command event = record {
  action = "STAGING_RECORD_REJECTED";
  timestamp = to_iso_string event.rejected_at;
  source_system = or_unknown command.source_system;
  staging_id = command.staging_id;
  reasons = map (λ r. r.description) command.reasons;
}

-- `RejectLedgerEventUseCase.execute`
unfoldable pub reject :
    (uuid : String) (now : Instant) → RejectLedgerEventCommand → Rejections → Throws Rejections
reject uuid now command log = do
  reasons ← map_all new_rejection_reason command.reasons
  staging_id ← new_staging_id command.staging_id
  event ← create_rejected uuid now staging_id reasons
  ok (record {
    events = log.events ++ event ∷ [];
    entries = log.entries ++ rejection_entry command event ∷ [];
  })
