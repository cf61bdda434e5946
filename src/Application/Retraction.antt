-- ===== src/Application/Retraction.antt =====
-- Which events no longer stand, and what the standing ones add up to on one object
-- (ledger/src/core/application/dtos/retractionUtils.ts). An event is named by its identifier.
pub mod Standing
pub mod Totals
pub mod Growth
use ledger_system.Prelude.{
  ℕ, ◌+◌, String, Bool, true, false, not, ◌&&◌, ◌||◌, Option, none, some, List, [], ◌∷◌, ◌==◌,
  string_eq, if◌then◌else◌, truthy, any, includes,
}
use ledger_system.Prelude.Dict.{Dict, lookup, contains, insert}
use ledger_system.Domain.Enums.{Relation, relation_eq}
use ledger_system.Domain.Money.{Money}
use ledger_system.Domain.Entities.{LedgerEventObject, LedgerEvent}

-- `event.getObjects().some((o) => o.relation === Relation.RETRACTS)`
abbrev pub carries_retraction : LedgerEvent → Bool
carries_retraction e = any (λ o. o.relation == Relation.retracts) e.objects

-- The event that a retraction names: the guards of the first loop.
abbrev pub retraction_target : LedgerEvent → Option String
retraction_target e =
    if truthy e.related_event_id && carries_retraction e then e.related_event_id else none

abbrev pub set_target : Option String → String → Dict String → Dict String
set_target none retraction map = map
set_target (some target) retraction map = insert target retraction map

-- The first loop, which fills `retractionByTarget`.
unfoldable pub retraction_by_target : List LedgerEvent → Dict String → Dict String
retraction_by_target [] map = map
retraction_by_target (e ∷ es) map =
    retraction_by_target es (set_target (retraction_target e) e.id map)

-- The second loop, over the entries of the map.
unfoldable pub standing_retractions : Dict String → Dict String → List String
standing_retractions map [] = []
standing_retractions map ((target, retraction) ∷ entries) =
    let rest = standing_retractions map entries in
    if contains retraction map then rest else target ∷ rest

unfoldable pub retracted_event_ids : List LedgerEvent → List String
unfolding retraction_by_target standing_retractions
retracted_event_ids events =
    let map = retraction_by_target events [] in standing_retractions map map

pub record ObjectTotals : Type 0 where
  pub originated_units : ℕ
  pub closed_units : ℕ
  pub has_reversal : Bool

-- The chain of tests on the relation of an object that is the one asked for.
abbrev pub add_relation : Relation → ℕ → ObjectTotals → ObjectTotals
add_relation Relation.originates units t = record t {
  originated_units = t.originated_units + units;
}
add_relation Relation.settles units t = record t { closed_units = t.closed_units + units }
add_relation Relation.adjusts units t = record t { closed_units = t.closed_units + units }
add_relation Relation.reverses units t = record t { has_reversal = true }
add_relation _ units t = t

-- The inner loop of `foldObjectTotals`.
unfoldable pub fold_objects : String → ℕ → List LedgerEventObject → ObjectTotals → ObjectTotals
fold_objects object_id units [] t = t
fold_objects object_id units (o ∷ os) t =
    fold_objects object_id units os
      (if o.object_id == object_id then add_relation o.relation units t else t)

-- The outer loop, with the set of retracted events.
unfoldable pub fold_events : List String → String → List LedgerEvent → ObjectTotals → ObjectTotals
unfolding fold_objects
fold_events retracted object_id [] t = t
fold_events retracted object_id (e ∷ es) t =
    fold_events retracted object_id es
      (if includes retracted e.id then t else fold_objects object_id e.amount.units e.objects t)

unfoldable pub fold_object_totals : List LedgerEvent → String → ObjectTotals
unfolding retracted_event_ids fold_events
fold_object_totals events object_id =
    fold_events (retracted_event_ids events) object_id events
      (record { originated_units = 0; closed_units = 0; has_reversal = false })
