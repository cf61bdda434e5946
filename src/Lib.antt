-- ===== src/Lib.antt =====
-- A model of the ledger: an append-only book of economic events, the rules by which an event is
-- accepted, and what the book says of each economic object.
--
-- The parts and how they interact. A command reaches `CreateLedgerEventUseCase.execute`, which
-- looks for an earlier run of the command, tests the command against the book, builds the event by
-- `LedgerEvent.create`, saves it and reports it to the audit log. `LedgerEvent.create` tests the
-- amounts of the parties, and `InvariantPolicy.validateSemantic` tests the event against the formal
-- matrices and the contract of its type. Readers fold the book: an event that a standing retraction
-- names no longer counts. The treasury asks a user for the answers of an intent and maps them to a
-- candidate, which the ledger stages, tests and posts.
--
-- - Prelude: tests, lists, errors as values, numbers with a sign, texts, maps.
-- - Domain/Enums and Domain/Matrices: ledger/src/core/domain/enums and policies/FormalMatrices.ts.
--   A matrix is a function; a missing row is `none`.
-- - Domain/Contracts: ledger/src/core/domain/contracts, one definition for each contract.
-- - Domain/Money: ledger/src/core/domain/value-objects/Money.ts. An amount is a natural number of
--   cents with a currency; `from_decimal` and `to_string` read and print code by code.
-- - Domain/Entities, Domain/Event, Domain/Hash, Domain/Creation: `LedgerEvent.create` in
--   ledger/src/core/domain/entities/LedgerEvent.ts and EventHash.ts. SHA-256 and the clock are
--   arguments. An instant is the number of milliseconds since the epoch.
-- - Domain/Policy: ledger/src/core/domain/policies/InvariantPolicy.ts, one definition for each of
--   the thirteen steps.
-- - Application/Retraction: ledger/src/core/application/dtos/retractionUtils.ts.
-- - Application/Recording: ledger/src/core/application/use-cases/CreateLedgerEventUseCase.ts. The
--   state is a `Ledger`, the book and the audit log; a run takes its `Env`, that is one random
--   identifier, two readings of the clock and SHA-256. Application/Recording/History says when a
--   book came about by accepted events.
-- - Infra/Memory: ledger/src/infra/persistence/memory/InMemoryLedgerEventRepository.ts. The book is
--   the list of events in the order in which they were saved.
-- - Application/Positions, Application/Projection, Application/Listing:
--   ledger/src/core/application/dtos/positionUtils.ts and services/PositionProjectionService.ts. The
--   totals of a position are natural numbers of cents; `project` takes the events of one object, the
--   first of them apart, since it is not called without one.
-- - Application/Statement: ledger/src/core/application/services/CashStatementService.ts.
-- - Prelude/Strings, Domain/Errors/Messages: methods of JavaScript strings, and the message of each
--   error, which the contract of rejections reads.
-- - Application/Staging: ledger/src/core/application/services/StagingRecordValidator.ts and
--   RejectionCatalog.ts, with the command that a staged record is cast to. A property that may be
--   absent is an `Option`; `new Date` is an argument that gives an instant for every text.
-- - Application/Submission: ledger/src/core/application/use-cases/SubmitCandidateUseCase.ts.
-- - Application/Rejection, Application/Posting, Infra/Staged:
--   ledger/src/core/application/use-cases/RejectLedgerEventUseCase.ts,
--   ledger/src/infra/jobs/StagingPostingJob.ts with
--   ledger/src/core/application/services/ReceiptLineageResolver.ts, and
--   ledger/src/infra/persistence/staging/InMemoryStagingRepository.ts. The state is an `Intake`: the
--   ledger, the staged records and the rejections. The audit log, which the source has one of, is
--   kept as two lists, the entries of recorded and of rejected events.
-- - Treasury/Mapper: treasury/src/core/application/services/CandidateMapper.ts, with the candidate of
--   treasury/src/core/domain/value-objects/Candidate.ts and `toInstantISO`. `MAPPINGS` is in
--   Payments and Table, the questions about it in Slots and Tuples.
-- - Treasury/Distance: `editDistance` of treasury/src/core/domain/services/PartyNormalization.ts. The
--   outer loop goes through one text, the inner one through the other.
-- - Treasury/Dialog: treasury/src/core/domain/services/DialogEngine.ts and
--   treasury/src/core/domain/entities/Intent.ts, with
--   treasury/src/core/application/use-cases/AdvanceDialog.ts in Advance.
-- - Tests: concrete runs.
--
-- An error is a value of `LedgerError`, one constructor for each message that the source throws.
-- The loops of the source run over lists, so they are structural recursions and need no fuel;
-- bigints have no width, so no arithmetic wraps.
--
-- Not modelled: the databases, queues, HTTP and user interfaces, the Go validators, two runs of
-- `execute` at once, an audit log that fails after the book is saved, a staged text that is no date,
-- and the raw payload of a rejected event. Of the treasury only the mapper of candidates, the
-- distance of names, and the dialog with its intent are modelled.
pub mod Prelude
pub mod Domain
pub mod Application
pub mod Infra
pub mod Treasury
pub mod Tests
