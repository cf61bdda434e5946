-- ===== src/Application/Projection.antt =====
-- The projection of one position from its events
-- (ledger/src/core/application/services/PositionProjectionService.ts, PositionSummary.ts).
mod Shape
pub mod Derive
pub use Shape.*
pub mod Agreement
use Prim.Native.String.{compare as compare_text}
use Prim.Native.Nat.{Ordering}
use ledger_system.Prelude.{
  ℕ, String, Bool, true, false, not, ◌&&◌, Option, none, some, List, [], ◌∷◌, ◌++◌, ◌==◌, string_eq,
  length, if◌then◌else◌, any, filter, find, map, includes, ok, err, ◌>>=◌,
}
use ledger_system.Domain.Errors.{Throws, reduce_of_empty}
use ledger_system.Domain.Enums.{
  EconomicEffect, economic_effect_eq, Relation, relation_eq, ObjectType, object_type_text,
}
use ledger_system.Domain.Money.{Money, zero_money, add, is_zero, to_string}
use ledger_system.Domain.Entities.{LedgerEventParty, LedgerEventObject, LedgerEvent}
use ledger_system.Domain.Policy.{declares_unresolved_origin}
use ledger_system.Application.Retraction.{retracted_event_ids}
use ledger_system.Infra.Memory.{Book, find_by_object_id}
use ledger_system.Application.Projection.Derive.{
  derive_open_balance, derive_over_settlement, derive_allocation_gap, derive_status, derive_outcome,
}

-- `t > max ? t : max`, by the texts.
abbrev later_type : ObjectType → ObjectType → ObjectType
later_type best t = elim (compare_text (object_type_text t) (object_type_text best)) [
  | Ordering.gt ↦ t
  | _ ↦ best
]

abbrev greatest_from : ObjectType → List LedgerEventObject → ObjectType
greatest_from best [] = best
greatest_from best (o ∷ os) = greatest_from (later_type best o.object_type) os

-- `namedTypes.reduce(...)`
abbrev pub greatest_type : List LedgerEventObject → Throws ObjectType
greatest_type [] = err reduce_of_empty
greatest_type (o ∷ os) = ok (greatest_from o.object_type os)

-- `events.flatMap((e) => e.getObjects())`
abbrev pub all_objects : List LedgerEvent → List LedgerEventObject
all_objects [] = []
all_objects (e ∷ es) = e.objects ++ all_objects es

abbrev pub zero_figures : Money → Figures
zero_figures nothing = record {
  total_originated = nothing;
  total_settled = nothing;
  total_adjusted = nothing;
  cash_recovered = nothing;
  non_cash_closed = nothing;
  ref_cash_in = nothing;
  ref_cash_out = nothing;
  has_reversal = false;
  has_unresolved_lineage = false;
}

-- The part of a settlement that depends on the economic effect.
abbrev pub add_settled : EconomicEffect → Money → Figures → Throws Figures
add_settled EconomicEffect.cash_in amount f = do
  m ← add f.cash_recovered amount
  ok (record f { cash_recovered = m })
add_settled EconomicEffect.non_cash amount f = do
  m ← add f.non_cash_closed amount
  ok (record f { non_cash_closed = m })
add_settled _ amount f = ok f

abbrev pub add_reference : EconomicEffect → Money → Figures → Throws Figures
add_reference EconomicEffect.cash_in amount f = do
  m ← add f.ref_cash_in amount
  ok (record f { ref_cash_in = m })
add_reference EconomicEffect.cash_out amount f = do
  m ← add f.ref_cash_out amount
  ok (record f { ref_cash_out = m })
add_reference _ amount f = ok f

-- The `switch` on the relation.
pub add_figure : Relation → EconomicEffect → Money → Figures → Throws Figures
add_figure Relation.originates effect amount f = do
  m ← add f.total_originated amount
  ok (record f { total_originated = m })
add_figure Relation.settles effect amount f = do
  m ← add f.total_settled amount
  add_settled effect amount (record f { total_settled = m })
add_figure Relation.adjusts effect amount f = do
  m ← add f.total_adjusted amount
  ok (record f { total_adjusted = m })
add_figure Relation.reverses effect amount f = ok (record f { has_reversal = true })
add_figure Relation.references effect amount f = add_reference effect amount f
add_figure Relation.retracts effect amount f = ok f

-- The inner loop, over the objects that are the one asked for.
pub add_objects : LedgerEvent → List LedgerEventObject → Figures → Throws Figures
unfolding add_figure
add_objects e [] f = ok f
add_objects e (o ∷ os) f = do
  f' ← add_figure o.relation e.economic_effect e.amount f
  add_objects e os f'

abbrev pub note_lineage : LedgerEvent → Figures → Figures
note_lineage e f =
    if declares_unresolved_origin e.reason then record f { has_unresolved_lineage = true } else f

abbrev pub add_event : String → LedgerEvent → Figures → Throws Figures
add_event object_id e f =
    add_objects e (filter (λ o. o.object_id == object_id) e.objects) (note_lineage e f)

-- The outer loop.
pub add_events : List String → String → List LedgerEvent → Figures → Throws Figures
unfolding add_objects
add_events retracted object_id [] f = ok f
add_events retracted object_id (e ∷ es) f =
    (if includes retracted e.id then ok f else add_event object_id e f) >>= λ f'.
    add_events retracted object_id es f'

abbrev amount_text : Option Money → Option String
amount_text none = none
amount_text (some m) = some (to_string m)

abbrev origin_of : String → Option LedgerEvent → Option PositionOrigin
origin_of object_id none = none
origin_of object_id (some e) = some (record {
  event_id = e.id;
  event_type = e.event_type;
  occurred_at = e.occurred_at;
  source_reference = e.source.reference;
  source_system = e.source.system;
  description = e.description;
  reporter_type = e.reporter.reporter_type;
  reporter_id = e.reporter.reporter_id;
  reporter_name = e.reporter.reporter_name;
  channel = e.reporter.channel;
  parties =
      map
        (λ (p : LedgerEventParty). record {
          party_id = p.party_id;
          role = p.role;
          direction = p.direction;
          amount = amount_text p.amount;
        })
        e.parties;
  related_objects = filter (λ o. not (o.object_id == object_id)) e.objects;
})

-- `extractOrigin`
unfoldable pub extract_origin : String → List LedgerEvent → Option PositionOrigin
extract_origin object_id events = origin_of object_id (
    find (λ e. any (λ o. o.object_id == object_id && o.relation == Relation.originates) e.objects)
      events)

-- The figures at the end of the loop.
unfoldable pub figures_of : String → LedgerEvent → List LedgerEvent → Throws Figures
unfolding add_events
figures_of object_id head tail = do
  nothing ← zero_money head.amount.currency
  add_events (retracted_event_ids (head ∷ tail)) object_id (head ∷ tail) (zero_figures nothing)

abbrev pub is_unknown : Figures → Bool
is_unknown f = f.has_unresolved_lineage && is_zero f.total_originated

-- The value that `project` returns.
abbrev pub summary_with :
    String
    → List LedgerEvent
    → ObjectType
    → Figures
    → (closed : Money) → (open_balance over : Option Money) → (gap : Money) → PositionSummary
summary_with object_id events object_type f closed open_balance over gap =
    let status = derive_status f.total_originated closed f.has_reversal (is_unknown f) in
    record {
      object_id = object_id;
      object_type = object_type;
      status = status;
      total_originated = f.total_originated;
      total_settled = f.total_settled;
      total_adjusted = f.total_adjusted;
      open_balance = open_balance;
      over_settlement = over;
      cash_recovered = f.cash_recovered;
      non_cash_closed = f.non_cash_closed;
      allocation_gap = gap;
      outcome = derive_outcome status f.cash_recovered f.non_cash_closed;
      event_count = length events;
      events = events;
      origin = extract_origin object_id events;
    }

-- What follows the loop.
unfoldable pub summary_of :
    String → List LedgerEvent → String → ObjectType → Figures → Throws PositionSummary
summary_of object_id events currency object_type f = do
  closed ← add f.total_settled f.total_adjusted
  open_balance ← derive_open_balance f.total_originated closed (is_unknown f) currency
  over ← derive_over_settlement f.total_originated closed (is_unknown f) currency
  gap ← derive_allocation_gap f.ref_cash_in f.ref_cash_out currency
  ok (summary_with object_id events object_type f closed open_balance over gap)

-- `project`, on the events that are not none.
unfoldable pub project : String → LedgerEvent → List LedgerEvent → Throws PositionSummary
project object_id head tail = do
  object_type ← greatest_type (filter (λ o. o.object_id == object_id) (all_objects (head ∷ tail)))
  f ← figures_of object_id head tail
  summary_of object_id (head ∷ tail) head.amount.currency object_type f

abbrev project_all : String → List LedgerEvent → Throws (Option PositionSummary)
project_all object_id [] = ok none
project_all object_id (e ∷ es) = do s ← project object_id e es; ok (some s)

-- `summarize`
unfoldable pub summarize : String → Book → Throws (Option PositionSummary)
summarize object_id book = project_all object_id (find_by_object_id object_id book)
