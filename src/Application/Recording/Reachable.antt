-- ===== src/Application/Recording/Reachable.antt =====
-- The ledgers that runs of `execute` lead to
-- (ledger/src/core/application/use-cases/CreateLedgerEventUseCase.ts). A run that throws writes
-- nothing, so it is no step.
use ledger_system.Prelude.{◌≡◌, ok, []}
use ledger_system.Domain.Entities.{LedgerEvent}
use ledger_system.Application.Recording.{CreateLedgerEventCommand, Env, Ledger, execute}
use ledger_system.Application.Recording.History.{IsBook}
use ledger_system.Application.Recording.Invariant.{execute-IsBook}

abbrev pub empty_ledger : Ledger
empty_ledger = record { book = []; audit = [] }

pub data Reachable : Ledger → Type 0 where
  start : Reachable empty_ledger
  step :
      {l after : Ledger} {e : LedgerEvent} (env : Env) (c : CreateLedgerEventCommand)
      → Reachable l
      → execute env c l ≡ ok (e, after)
      → Reachable after

-- Whatever commands are run on the empty ledger, in whatever order and with whatever environments:
-- every event on the book follows the ones before it, by a fresh identifier and source reference,
-- the hash of its predecessor, an amount that is not zero, and a target on record that nothing
-- retracted before.
pub Reachable-IsBook : {l : Ledger} → Reachable l → IsBook l.book
Reachable-IsBook start = tt
Reachable-IsBook (step env c reached h) = execute-IsBook env c _ (Reachable-IsBook reached) h
