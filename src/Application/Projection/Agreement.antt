-- ===== src/Application/Projection/Agreement.antt =====
-- The projection and the guard of conservation fold the same totals
-- (ledger/src/core/application/services/PositionProjectionService.ts, dtos/retractionUtils.ts).
use ledger_system.Prelude.{
  ◌+◌, String, subst, Option, ◌≡◌, ◌↔◌, refl, sym, ap, ◌∙◌, Bool, true, false, List, [], ◌∷◌, ◌==◌,
  string_eq, filter, includes, ok, >>=-eq-ok, ok_injective, arith, Bool-cases, inl, inr,
}
use ledger_system.Domain.Enums.{ObjectType, Relation, EconomicEffect}
use ledger_system.Domain.Money.{Money, zero_money, add}
use ledger_system.Domain.Money.Laws.{add-units, zero_money-units}
use ledger_system.Domain.Entities.{LedgerEventObject, LedgerEvent}
use ledger_system.Application.Retraction.{
  ObjectTotals, add_relation, fold_objects, fold_events, retracted_event_ids, fold_object_totals,
}
use ledger_system.Application.Positions.{PositionStatus}
use ledger_system.Application.Projection.Shape.{Figures, PositionSummary}
use ledger_system.Application.Projection.Derive.{
  derive_open_balance, derive_over_settlement, derive_allocation_gap, derive_status,
}
use ledger_system.Application.Projection.{
  add_settled, add_reference, add_figure, add_objects, note_lineage, add_event, add_events, project,
  figures_of, is_unknown, summary_with, summary_of, zero_figures, greatest_type, all_objects,
}

-- The figures of the loop and the totals of the guard.
pub record Tracks (f : Figures) (t : ObjectTotals) : Type 0 where
  pub opened : f.total_originated.units ≡ t.originated_units
  pub closed : f.total_settled.units + f.total_adjusted.units ≡ t.closed_units
  pub reversal : f.has_reversal ≡ t.has_reversal

-- The part of a settlement that depends on the effect touches none of the totals.
add_settled-Tracks :
    (effect : EconomicEffect) (m : Money) (f : Figures) {g : Figures} (t : ObjectTotals)
    → add_settled effect m f ≡ ok g
    → Tracks f t
    → Tracks g t
add_settled-Tracks EconomicEffect.cash_in m f {g} t h k =
    let (r, _, same) = >>=-eq-ok (add f.cash_recovered m) _ h in
    rw (ok_injective (sym same))
      (record { opened = k.opened; closed = k.closed; reversal = k.reversal })
add_settled-Tracks EconomicEffect.non_cash m f {g} t h k =
    let (r, _, same) = >>=-eq-ok (add f.non_cash_closed m) _ h in
    rw (ok_injective (sym same))
      (record { opened = k.opened; closed = k.closed; reversal = k.reversal })
add_settled-Tracks _ m f t h k = rw (ok_injective (sym h)) k

add_reference-Tracks :
    (effect : EconomicEffect) (m : Money) (f : Figures) {g : Figures} (t : ObjectTotals)
    → add_reference effect m f ≡ ok g
    → Tracks f t
    → Tracks g t
add_reference-Tracks EconomicEffect.cash_in m f t h k =
    let (r, _, same) = >>=-eq-ok (add f.ref_cash_in m) _ h in
    rw (ok_injective (sym same))
      (record { opened = k.opened; closed = k.closed; reversal = k.reversal })
add_reference-Tracks EconomicEffect.cash_out m f t h k =
    let (r, _, same) = >>=-eq-ok (add f.ref_cash_out m) _ h in
    rw (ok_injective (sym same))
      (record { opened = k.opened; closed = k.closed; reversal = k.reversal })
add_reference-Tracks _ m f t h k = rw (ok_injective (sym h)) k

add_figure-Tracks :
    (r : Relation) (effect : EconomicEffect) (m : Money) (f : Figures) {g : Figures}
    (t : ObjectTotals)
    → add_figure r effect m f ≡ ok g
    → Tracks f t
    → Tracks g (add_relation r m.units t)
unfolding add_figure
add_figure-Tracks Relation.originates effect m f t h k =
    let (s, sum, same) = >>=-eq-ok (add f.total_originated m) _ h in
    let u = add-units f.total_originated m sum in
    rw (ok_injective (sym same))
      (record { opened = omega (arith, u, k.opened); closed = k.closed; reversal = k.reversal })
add_figure-Tracks Relation.settles effect m f t h k =
    let (s, sum, rest) = >>=-eq-ok (add f.total_settled m) _ h in
    let u = add-units f.total_settled m sum in
    add_settled-Tracks effect m _ _ rest
      (record { opened = k.opened; closed = omega (arith, u, k.closed); reversal = k.reversal })
add_figure-Tracks Relation.adjusts effect m f t h k =
    let (s, sum, same) = >>=-eq-ok (add f.total_adjusted m) _ h in
    let u = add-units f.total_adjusted m sum in
    rw (ok_injective (sym same))
      (record { opened = k.opened; closed = omega (arith, u, k.closed); reversal = k.reversal })
add_figure-Tracks Relation.reverses effect m f t h k =
    rw (ok_injective (sym h)) (record { opened = k.opened; closed = k.closed; reversal = refl })
add_figure-Tracks Relation.references effect m f t h k = add_reference-Tracks effect m f t h k
add_figure-Tracks Relation.retracts effect m f t h k = rw (ok_injective (sym h)) k

add_objects-Tracks :
    (e : LedgerEvent) (oid : String) (os : List LedgerEventObject) (f : Figures) {g : Figures}
    (t : ObjectTotals)
    → add_objects e (filter (λ o. o.object_id == oid) os) f ≡ ok g
    → Tracks f t
    → Tracks g (fold_objects oid e.amount.units os t)
unfolding add_objects fold_objects
add_objects-Tracks e oid [] f t h k = rw (ok_injective (sym h)) k
add_objects-Tracks e oid (o ∷ os) f t h k = elim (Bool-cases (o.object_id == oid)) [
  | inr other ↦ rw other (add_objects-Tracks e oid os f t (rw other at h) k)
  | inl same ↦
      let (f', one, rest) =
        >>=-eq-ok (add_figure o.relation e.economic_effect e.amount f) _ (rw same at h) in
      rw same (
        add_objects-Tracks e oid os f' _ rest
          (add_figure-Tracks o.relation e.economic_effect e.amount f t one k))
]

note_lineage-Tracks :
    (e : LedgerEvent) (f : Figures) (t : ObjectTotals) → Tracks f t → Tracks (note_lineage e f) t
note_lineage-Tracks e f t k = record {
  opened = ground (arith, k.opened);
  closed = ground (arith, k.closed);
  reversal = ground (arith, k.reversal);
}

add_events-Tracks :
    (retracted : List String) (oid : String) (es : List LedgerEvent) (f : Figures) {g : Figures}
    (t : ObjectTotals)
    → add_events retracted oid es f ≡ ok g
    → Tracks f t
    → Tracks g (fold_events retracted oid es t)
unfolding add_events fold_events
add_events-Tracks retracted oid [] f t h k = rw (ok_injective (sym h)) k
add_events-Tracks retracted oid (e ∷ es) f t h k = elim (Bool-cases (includes retracted e.id)) [
  | inl gone ↦ rw gone (add_events-Tracks retracted oid es f t (rw gone at h) k)
  | inr here ↦
      let (f', one, rest) = >>=-eq-ok (add_event oid e f) _ (rw here at h) in
      rw here (
        add_events-Tracks retracted oid es f' _ rest (
          add_objects-Tracks e oid e.objects (note_lineage e f) t one
            (note_lineage-Tracks e f t k)))
]

reversed_iff :
    (originated closed : Money) (reversal origin_unknown : Bool)
    → (derive_status originated closed reversal origin_unknown ≡ PositionStatus.reversed)
      ↔ (reversal ≡ true)
unfolding derive_status
reversed_iff originated closed true origin_unknown = (λ _. refl, λ _. refl)
reversed_iff originated closed false origin_unknown = (λ h. ground arith, λ h. cc h)

figures_of-Tracks :
    (oid : String) (head : LedgerEvent) (tail : List LedgerEvent) {f : Figures}
    → figures_of oid head tail ≡ ok f
    → Tracks f (fold_object_totals (head ∷ tail) oid)
unfolding figures_of fold_object_totals
figures_of-Tracks oid head tail h =
    let (nothing, zero, loop) = >>=-eq-ok (zero_money head.amount.currency) _ h in
    let nil = zero_money-units head.amount.currency zero in
    let start : Tracks (zero_figures nothing)
        (record { originated_units = 0; closed_units = 0; has_reversal = false }) =
      record { opened = nil; closed = omega (arith, nil); reversal = refl } in
    add_events-Tracks (retracted_event_ids (head ∷ tail)) oid (head ∷ tail) _ _ loop start

-- What a summary takes from the figures.
abbrev Shows : PositionSummary → Figures → Type 0
Shows s f =
    (s.total_originated ≡ f.total_originated)
    × (s.total_settled ≡ f.total_settled)
    × (s.total_adjusted ≡ f.total_adjusted)
    × ((s.status ≡ PositionStatus.reversed) ↔ (f.has_reversal ≡ true))

summary_with-Shows :
    (oid : String) (es : List LedgerEvent) (t : ObjectType) (f : Figures) (closed : Money)
    (open_balance over : Option Money) (gap : Money)
    → Shows (summary_with oid es t f closed open_balance over gap) f
summary_with-Shows oid es t f closed open_balance over gap =
    (refl, refl, refl, reversed_iff f.total_originated closed f.has_reversal (is_unknown f))

summary_of-Shows :
    (oid : String) (es : List LedgerEvent) (currency : String) (t : ObjectType) (f : Figures)
    {s : PositionSummary}
    → summary_of oid es currency t f ≡ ok s
    → Shows s f
unfolding summary_of
summary_of-Shows oid es currency t f {s} h =
    let (closed, _, h1) = >>=-eq-ok (add f.total_settled f.total_adjusted) _ h in
    let (b, _, h2) =
      >>=-eq-ok (derive_open_balance f.total_originated closed (is_unknown f) currency) _ h1 in
    let (over, _, h3) =
      >>=-eq-ok (derive_over_settlement f.total_originated closed (is_unknown f) currency) _ h2 in
    let (gap, _, made) =
      >>=-eq-ok (derive_allocation_gap f.ref_cash_in f.ref_cash_out currency) _ h3 in
    subst (λ p. Shows p f) (ok_injective made) (summary_with-Shows oid es t f closed b over gap)

-- What a projection returns agrees with the totals that the guard of conservation folds over the
-- same events: the originated units, the settled and adjusted units together, and whether a
-- reversal voids the position.
pub project-fold_object_totals :
    (oid : String) (head : LedgerEvent) (tail : List LedgerEvent) {s : PositionSummary}
    → project oid head tail ≡ ok s
    → (s.total_originated.units ≡ (fold_object_totals (head ∷ tail) oid).originated_units)
      × (s.total_settled.units + s.total_adjusted.units
          ≡ (fold_object_totals (head ∷ tail) oid).closed_units)
      × ((s.status ≡ PositionStatus.reversed)
          ↔ ((fold_object_totals (head ∷ tail) oid).has_reversal ≡ true))
unfolding project
project-fold_object_totals oid head tail {s} h =
    let (object_type, _, h1) =
      >>=-eq-ok (greatest_type (filter (λ o. o.object_id == oid) (all_objects (head ∷ tail)))) _
        h in
    let (f, loop, h2) = >>=-eq-ok (figures_of oid head tail) _ h1 in
    let k = figures_of-Tracks oid head tail loop in
    let (opened, settled, adjusted, reversal) =
      summary_of-Shows oid (head ∷ tail) head.amount.currency object_type f h2 in
    (
      ap (λ m. m.units) opened ∙ k.opened,
      rw (settled, adjusted) k.closed,
      (λ e. sym k.reversal ∙ reversal.0 e, λ e. reversal.1 (k.reversal ∙ e)),
    )
