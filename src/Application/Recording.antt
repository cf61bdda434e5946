-- ===== src/Application/Recording.antt =====
-- Recording an event: `CreateLedgerEventUseCase.execute`
-- (ledger/src/core/application/use-cases/CreateLedgerEventUseCase.ts) over the book kept in memory.
-- Nothing is written before the book is saved, so that an error leaves the ledger as it was.
mod Shape
pub mod History
pub mod Prepared
pub mod Outcomes
pub mod Invariant
pub mod Conservation
pub mod Withdrawal
pub mod Reversal
pub mod Reachable
pub use Shape.*
use ledger_system.Prelude.{
  ℕ, ◌+◌, String, Bool, true, false, not, ◌&&◌, Option, none, some, List, [], ◌∷◌, ◌++◌, ◌==◌,
  nat_eq, string_eq, ltb, truthy, any, filter, includes, map, Result, ok, err, ◌>>=◌, ◌>>◌,
  throw_if, for_each,
}
use ledger_system.Prelude.Int.{sub_ℕ}
use ledger_system.Domain.Errors.{
  Throws, duplicate_source_reference, origin_not_found, origin_wrong_type, already_retracted,
  retraction_chain_too_deep, over_settlement,
}
use ledger_system.Domain.Enums.{EventType, event_type_eq, Relation, relation_eq}
use ledger_system.Domain.Contracts.{event_contracts}
use ledger_system.Domain.Money.{Money, from_decimal, from_units, to_string}
use ledger_system.Domain.Hash.Instants.{to_iso_string}
use ledger_system.Domain.Entities.{
  Instant, new_event_id, new_event_source, new_normalization, LedgerEventParty, LedgerEventObject,
  EventReason, CreateLedgerEventProps, LedgerEvent,
}
use ledger_system.Domain.Creation.{create}
use ledger_system.Application.Retraction.{carries_retraction, ObjectTotals, fold_object_totals}
use ledger_system.Infra.Memory.{
  Book, save, get_by_id, get_by_command_id, get_last_event_hash, exists_by_source_reference,
  find_by_object_id, find_by_related_event_id,
}

-- The test of an origin against `allowedOriginTypes`.
abbrev pub check_origin_type : Option (List EventType) → EventType → Throws (Unit {0})
check_origin_type none found = ok tt
check_origin_type (some allowed) found =
    throw_if (not (includes allowed found)) (origin_wrong_type allowed found)

abbrev pub found_origin : EventType → String → Option LedgerEvent → Throws (Option LedgerEvent)
found_origin event_type id none = err (origin_not_found id)
found_origin event_type id (some origin) = do
  check_origin_type (event_contracts event_type).allowed_origin_types origin.event_type
  ok (some origin)

-- `originEvent`: the lookup of `relatedEventId`, where it is given.
unfoldable pub find_origin : EventType → Option String → Book → Throws (Option LedgerEvent)
find_origin event_type none book = ok none
find_origin event_type (some id) book = elim (id == "") [
  | true ↦ ok none
  | false ↦ found_origin event_type id (get_by_id id book)
]

-- The first of the retractions on record, if there is one.
abbrev pub refuse_second : String → List LedgerEvent → Throws (Unit {0})
refuse_second target [] = ok tt
refuse_second target (r ∷ rs) = err (already_retracted target r.id)

-- Whether the event that a retraction names is a retraction itself.
abbrev pub is_retraction_event : Option LedgerEvent → Bool
is_retraction_event none = false
is_retraction_event (some e) = carries_retraction e

-- The event that `relatedEventId` names, where it is given.
abbrev pub related_event : Option String → Book → Option LedgerEvent
related_event none book = none
related_event (some id) book = elim (id == "") [ true ↦ none | false ↦ get_by_id id book ]

-- The rules for a retraction: one for each event, and no retraction of a retraction of a retraction.
unfoldable pub check_retraction_rules : String → LedgerEvent → Book → Throws (Unit {0})
unfolding find_by_related_event_id
check_retraction_rules target origin book = do
  refuse_second target (filter carries_retraction (find_by_related_event_id target book))
  throw_if
      (carries_retraction origin
        && is_retraction_event (related_event origin.related_event_id book))
      retraction_chain_too_deep

abbrev pub or_empty : Option String → String
or_empty none = ""
or_empty (some s) = s

abbrev pub check_origin : Bool → Option String → Option LedgerEvent → Book → Throws (Unit {0})
check_origin is_retraction related none book = ok tt
check_origin is_retraction related (some origin) book = elim is_retraction [
  | true ↦ check_retraction_rules (or_empty related) origin book
  | false ↦ ok tt
]

-- The refusal of a settlement that exceeds what is open.
unfoldable pub refuse_over_settlement : String → Money → ObjectTotals → Throws (Unit {0})
refuse_over_settlement object_id money t = do
  outstanding ← from_units (sub_ℕ t.originated_units t.closed_units) money.currency
  err (over_settlement object_id (to_string outstanding))

-- The guard of conservation on the totals of one object.
abbrev pub check_totals : String → Money → ObjectTotals → Throws (Unit {0})
check_totals object_id money t = elim (t.has_reversal) [
  | true ↦ ok tt
  | false ↦ elim (t.originated_units == 0) [
    | true ↦ ok tt
    | false ↦ elim (ltb t.originated_units (t.closed_units + money.units)) [
      | true ↦ refuse_over_settlement object_id money t
      | false ↦ ok tt
    ]
  ]
]

-- The body of the loop over the objects of the command.
unfoldable pub check_settlement : Money → Book → LedgerEventObject → Throws (Unit {0})
unfolding find_by_object_id
check_settlement money book o = elim (o.relation == Relation.settles) [
  | false ↦ ok tt
  | true ↦
      check_totals o.object_id money
        (fold_object_totals (find_by_object_id o.object_id book) o.object_id)
]

-- `p.amount ? Money.fromDecimal(p.amount, command.currency) : null`
abbrev pub party_amount : Option String → String → Throws (Option Money)
party_amount none currency = ok none
party_amount (some text) currency = elim (text == "") [
  | true ↦ ok none
  | false ↦ do m ← from_decimal text currency; ok (some m)
]

-- The parties of the event.
unfoldable pub make_parties : List CommandParty → String → Throws (List LedgerEventParty)
make_parties [] currency = ok []
make_parties (p ∷ ps) currency = do
  amount ← party_amount p.amount currency
  rest ← make_parties ps currency
  ok (
      record { party_id = p.party_id; role = p.role; direction = p.direction; amount = amount }
      ∷ rest)

-- The steps from the source reference to the arguments of `LedgerEvent.create`.
unfoldable pub prepare : Env → CreateLedgerEventCommand → Book → Throws CreateLedgerEventProps
unfolding find_origin exists_by_source_reference get_last_event_hash
prepare env command book = do
  throw_if (exists_by_source_reference command.source_reference book)
      (duplicate_source_reference command.source_reference)
  id ← new_event_id env.uuid
  money ← from_decimal command.amount command.currency
  origin ← find_origin command.event_type command.related_event_id book
  check_origin (any (λ o. o.relation == Relation.retracts) command.objects) command.related_event_id
      origin book
  for_each command.objects (check_settlement money book)
  normalization ← new_normalization command.normalization_version command.normalization_worker_id
  source ← new_event_source command.source_system command.source_reference
  parties ← make_parties command.parties command.currency
  ok (record {
    id = id;
    event_type = command.event_type;
    economic_effect = command.economic_effect;
    occurred_at = command.occurred_at;
    source_at = command.source_at;
    due_at = command.due_at;
    amount = money;
    description = command.description;
    source = source;
    normalization = normalization;
    previous_hash = get_last_event_hash book;
    command_id = command.command_id;
    related_event_id = command.related_event_id;
    parties = parties;
    objects = command.objects;
    reason = command.reason;
    reporter = record {
      reporter_type = command.reporter.reporter_type;
      reporter_id = command.reporter.reporter_id;
      reporter_name = command.reporter.reporter_name;
      reported_at = env.reported_at;
      channel = command.reporter.channel;
    };
  })

abbrev pub audit_entry : CreateLedgerEventCommand → LedgerEvent → AuditEntry
audit_entry command event = record {
  action = "LEDGER_EVENT_CREATED";
  timestamp = to_iso_string event.recorded_at;
  source_system = command.source_system;
  source_reference = command.source_reference;
  event_id = event.id;
  event_type = event.event_type;
  economic_effect = event.economic_effect;
  command_id = event.command_id;
}

-- The part of `execute` behind the test for a known command.
unfoldable pub record_event :
    Env → CreateLedgerEventCommand → Ledger → Throws (LedgerEvent × Ledger)
unfolding save
record_event env command ledger = do
  props ← prepare env command ledger.book
  event ← create env.sha256 env.recorded_at props
  book ← save event ledger.book
  ok (event, record { book = book; audit = ledger.audit ++ audit_entry command event ∷ [] })

-- The event of an earlier run of the command, where the command has an identifier.
abbrev pub known_event : Option String → Book → Option LedgerEvent
known_event none book = none
known_event (some id) book = elim (id == "") [ true ↦ none | false ↦ get_by_command_id id book ]

-- `CreateLedgerEventUseCase.execute`
unfoldable pub execute : Env → CreateLedgerEventCommand → Ledger → Throws (LedgerEvent × Ledger)
execute env command ledger = elim (known_event command.command_id ledger.book) [
  | some existing ↦ ok (existing, ledger)
  | none ↦ record_event env command ledger
]
