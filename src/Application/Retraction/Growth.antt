-- ===== src/Application/Retraction/Growth.antt =====
-- The totals of an object when an event is appended (ledger/src/core/application/dtos/retractionUtils.ts).
use ledger_system.Prelude.{
  String, ◌≡◌, refl, inl, inr, Bool, false, none, List, [], ◌∷◌, ◌++◌, filter, includes, arith,
  Bool-cases, string_eq,
}
use ledger_system.Prelude.Dict.{Dict}
use ledger_system.Domain.Entities.{LedgerEvent}
use ledger_system.Application.Retraction.{
  carries_retraction, retraction_target, retraction_by_target, retracted_event_ids, ObjectTotals,
  fold_objects, fold_events, fold_object_totals,
}
use ledger_system.Application.Retraction.Standing.{has_retraction, RetractsOnce, never_retracted}

pub has_retraction-filter :
    (p : LedgerEvent → Bool) (es : List LedgerEvent) (t : String)
    → has_retraction es t ≡ false
    → has_retraction (filter p es) t ≡ false
has_retraction-filter p [] t h = refl
has_retraction-filter p (e ∷ es) t h = ground (arith, has_retraction-filter p es t)

-- A part of a list in which no event is retracted twice.
pub filter-RetractsOnce :
    (p : LedgerEvent → Bool) (es : List LedgerEvent) → RetractsOnce es → RetractsOnce (filter p es)
filter-RetractsOnce p [] h = tt
filter-RetractsOnce p (e ∷ es) (here, rest) = elim (Bool-cases (p e)) [
  | inl kept ↦
      rw kept (λ t hit. has_retraction-filter p es t (here t hit), filter-RetractsOnce p es rest)
  | inr dropped ↦ rw dropped (filter-RetractsOnce p es rest)
]

retraction_target-none :
    (e : LedgerEvent) → carries_retraction e ≡ false → retraction_target e ≡ none
retraction_target-none e h = ground (arith, h)

retraction_by_target-snoc :
    (es : List LedgerEvent) (e : LedgerEvent) (map : Dict String)
    → carries_retraction e ≡ false
    → retraction_by_target (es ++ e ∷ []) map ≡ retraction_by_target es map
unfolding retraction_by_target
retraction_by_target-snoc [] e map h = rw (retraction_target-none e h) refl
retraction_by_target-snoc (d ∷ es) e map h = retraction_by_target-snoc es e _ h

retracted_event_ids-snoc :
    (es : List LedgerEvent) (e : LedgerEvent)
    → carries_retraction e ≡ false
    → retracted_event_ids (es ++ e ∷ []) ≡ retracted_event_ids es
unfolding retracted_event_ids
retracted_event_ids-snoc es e h = rw (retraction_by_target-snoc es e [] h) refl

fold_events-snoc :
    (retracted : List String) (oid : String) (es : List LedgerEvent) (e : LedgerEvent)
    (t : ObjectTotals)
    → includes retracted e.id ≡ false
    → fold_events retracted oid (es ++ e ∷ []) t
      ≡ fold_objects oid e.amount.units e.objects (fold_events retracted oid es t)
unfolding fold_events
fold_events-snoc retracted oid [] e t h = rw h refl
fold_events-snoc retracted oid (d ∷ es) e t h = fold_events-snoc retracted oid es e _ h

-- An event that retracts nothing, and that nothing retracts, adds what its objects say to the totals.
pub fold_object_totals-snoc :
    (es : List LedgerEvent) (e : LedgerEvent) (oid : String)
    → RetractsOnce es
    → has_retraction es e.id ≡ false
    → carries_retraction e ≡ false
    → fold_object_totals (es ++ e ∷ []) oid
      ≡ fold_objects oid e.amount.units e.objects (fold_object_totals es oid)
unfolding fold_object_totals
fold_object_totals-snoc es e oid once fresh plain =
    rw (retracted_event_ids-snoc es e plain)
      (fold_events-snoc (retracted_event_ids es) oid es e _ (never_retracted es e.id once fresh))
