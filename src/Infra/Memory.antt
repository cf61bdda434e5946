-- ===== src/Infra/Memory.antt =====
-- The book kept in memory (ledger/src/infra/persistence/memory/InMemoryLedgerEventRepository.ts): the
-- private array `store`, oldest event first. A method that only reads is a function of the book.
pub mod Flows
pub mod Settled
use ledger_system.Prelude.{
  ℕ, String, Bool, true, false, not, ◌&&◌, Option, none, some, List, [], ◌∷◌, ◌++◌, ◌==◌, string_eq,
  leb, if◌then◌else◌, any, filter, find, last, includes, Result, ok, err, ◌>>=◌, ◌>>◌, throw_if,
}
use ledger_system.Domain.Errors.{Throws, immutability_violation}
use ledger_system.Domain.Enums.{Relation, relation_eq}
use ledger_system.Domain.Entities.{Instant, LedgerEventObject, LedgerEventParty, LedgerEvent}
use ledger_system.Application.Retraction.{retracted_event_ids}

abbrev pub Book : Type 0
Book = List LedgerEvent

-- `value === text` for a nullable text.
abbrev pub is_text : Option String → String → Bool
is_text none t = false
is_text (some s) t = s == t

unfoldable pub save : LedgerEvent → Book → Throws Book
save event store = do
  throw_if (any (λ e. e.id == event.id) store) (immutability_violation event.id)
  ok (store ++ event ∷ [])

unfoldable pub get_by_id : String → Book → Option LedgerEvent
get_by_id id store = find (λ e. e.id == id) store

unfoldable pub get_by_hash : String → Book → Option LedgerEvent
get_by_hash hash store = find (λ e. e.hash == hash) store

unfoldable pub get_by_command_id : String → Book → Option LedgerEvent
get_by_command_id command_id store = find (λ e. is_text e.command_id command_id) store

abbrev pub hash_of : Option LedgerEvent → Option String
hash_of none = none
hash_of (some e) = some e.hash

unfoldable pub get_last_event_hash : Book → Option String
get_last_event_hash store = hash_of (last store)

unfoldable pub exists_by_source_reference : String → Book → Bool
exists_by_source_reference reference store = any (λ e. e.source.reference == reference) store

-- Whether an event names an object.
abbrev pub names_object : String → LedgerEvent → Bool
names_object object_id e = any (λ o. o.object_id == object_id) e.objects

unfoldable pub find_by_object_id : String → Book → List LedgerEvent
find_by_object_id object_id store = filter (names_object object_id) store

unfoldable pub find_by_related_event_id : String → Book → List LedgerEvent
find_by_related_event_id id store = filter (λ e. is_text e.related_event_id id) store

unfoldable pub find_by_party_id : String → Book → List LedgerEvent
find_by_party_id party_id store = filter (λ e. any (λ p. p.party_id == party_id) e.parties) store

unfoldable pub find_all : Book → List LedgerEvent
find_all store = store

unfoldable pub find_by_period : Instant → Instant → Book → List LedgerEvent
find_by_period from to store = filter (λ e. leb from e.occurred_at && leb e.occurred_at to) store

-- A `Set` of texts: each once, in the order in which they were added.
abbrev pub add_text : String → List String → List String
add_text t ts = if includes ts t then ts else ts ++ t ∷ []

add_objects : List LedgerEventObject → List String → List String
add_objects [] ids = ids
add_objects (o ∷ os) ids = add_objects os (add_text o.object_id ids)

object_ids_from : Book → List String → List String
object_ids_from [] ids = ids
object_ids_from (e ∷ es) ids = object_ids_from es (add_objects e.objects ids)

unfoldable pub find_all_object_ids : Book → List String
unfolding object_ids_from add_objects
find_all_object_ids store = object_ids_from store []

-- The inner loop of `findSettledObjectIds`.
pub add_settled : List String → List LedgerEventObject → List String → List String
add_settled wanted [] settled = settled
add_settled wanted (o ∷ os) settled = add_settled wanted os (
    if o.relation == Relation.settles && includes wanted o.object_id
    then add_text o.object_id settled
    else settled)

pub settled_from : List String → List String → Book → List String → List String
settled_from retracted wanted [] settled = settled
settled_from retracted wanted (e ∷ es) settled =
    settled_from retracted wanted es
      (if includes retracted e.id then settled else add_settled wanted e.objects settled)

unfoldable pub find_settled_object_ids : List String → Book → List String
unfolding settled_from add_settled
find_settled_object_ids [] store = []
find_settled_object_ids (id ∷ ids) store =
    settled_from (retracted_event_ids store) (id ∷ ids) store []
