-- ===== src/Application/Retraction/Totals.antt =====
-- `foldObjectTotals` as sums over the events that stand
-- (ledger/src/core/application/dtos/retractionUtils.ts).
use ledger_system.Prelude.{
  ℕ, ◌+◌, ◌*◌, String, ◌≡◌, ap, fun_ext, ◌∙◌, inl, inr, Bool, true, false, not, ◌&&◌, ◌||◌, List,
  [], ◌∷◌, ◌==◌, string_eq, Bool-cases, if◌then◌else◌, any, includes, arith,
}
use ledger_system.Domain.Enums.{Relation}
use ledger_system.Domain.Entities.{LedgerEventObject, LedgerEvent}
use ledger_system.Application.Retraction.{
  ObjectTotals, add_relation, fold_objects, fold_events, retracted_event_ids, fold_object_totals,
}
use ledger_system.Application.Retraction.Standing.{
  RetractsOnce, is_retracted, retracted_event_ids_iff,
}

abbrev pub opens : Relation → Bool
opens Relation.originates = true
opens _ = false

-- A settlement and an adjustment both close.
abbrev pub closes : Relation → Bool
closes Relation.settles = true
closes Relation.adjusts = true
closes _ = false

abbrev pub voids : Relation → Bool
voids Relation.reverses = true
voids _ = false

-- How often an event's objects name `oid` under a relation of a kind.
abbrev pub count_named : (Relation → Bool) → String → List LedgerEventObject → ℕ
count_named p oid [] = 0
count_named p oid (o ∷ os) =
    (if o.object_id == oid && p o.relation then 1 else 0) + count_named p oid os

abbrev pub any_named : (Relation → Bool) → String → List LedgerEventObject → Bool
any_named p oid os = any (λ o. o.object_id == oid && p o.relation) os

-- The sum over the events that `gone` does not remove.
abbrev pub sum_named : (String → Bool) → (Relation → Bool) → String → List LedgerEvent → ℕ
sum_named gone p oid [] = 0
sum_named gone p oid (e ∷ es) =
    (if gone e.id then 0 else e.amount.units * count_named p oid e.objects)
    + sum_named gone p oid es

abbrev pub some_named : (String → Bool) → (Relation → Bool) → String → List LedgerEvent → Bool
some_named gone p oid es = any (λ e. not (gone e.id) && any_named p oid e.objects) es

-- The totals of one object over the events that `gone` does not remove.
abbrev pub totals : (String → Bool) → String → List LedgerEvent → ObjectTotals
totals gone oid es = record {
  originated_units = sum_named gone opens oid es;
  closed_units = sum_named gone closes oid es;
  has_reversal = some_named gone voids oid es;
}

-- More of each total.
abbrev pub extend : ObjectTotals → ℕ → ℕ → Bool → ObjectTotals
extend t opened closed voided = record {
  originated_units = t.originated_units + opened;
  closed_units = t.closed_units + closed;
  has_reversal = t.has_reversal || voided;
}

extend-add_relation :
    (r : Relation) (units a b : ℕ) (v : Bool) (t : ObjectTotals)
    → extend (add_relation r units t) (units * a) (units * b) v
      ≡ extend t
          (units * ((if opens r then 1 else 0) + a))
          (units * ((if closes r then 1 else 0) + b))
          (voids r || v)
extend-add_relation Relation.originates units a b v t = ground arith
extend-add_relation _ units a b v t = ground arith

pub fold_objects-eq :
    (oid : String) (units : ℕ) (os : List LedgerEventObject) (t : ObjectTotals)
    → fold_objects oid units os t
      ≡ extend t
          (units * count_named opens oid os)
          (units * count_named closes oid os)
          (any_named voids oid os)
unfolding fold_objects
fold_objects-eq oid units [] t = ground arith
fold_objects-eq oid units (o ∷ os) t = elim (Bool-cases (o.object_id == oid)) [
  | inr other ↦ rw other (fold_objects-eq oid units os t ∙ ground arith)
  | inl same ↦ rw same (
      fold_objects-eq oid units os (add_relation o.relation units t)
      ∙ extend-add_relation o.relation units _ _ _ t)
]

fold_events-eq :
    (retracted : List String) (oid : String) (es : List LedgerEvent) (t : ObjectTotals)
    → fold_events retracted oid es t
      ≡ extend t
          (sum_named (includes retracted) opens oid es)
          (sum_named (includes retracted) closes oid es)
          (some_named (includes retracted) voids oid es)
unfolding fold_events
fold_events-eq retracted oid [] t = ground arith
fold_events-eq retracted oid (e ∷ es) t = elim (Bool-cases (includes retracted e.id)) [
  | inl gone ↦ rw gone (fold_events-eq retracted oid es t ∙ ground arith)
  | inr here ↦ rw here (
      fold_events-eq retracted oid es (fold_objects oid e.amount.units e.objects t)
      ∙ rw (fold_objects-eq oid e.amount.units e.objects t) (ground arith))
]

same_totals :
    (gone away : String → Bool) (oid : String) (es : List LedgerEvent)
    → ((t : String) → gone t ≡ away t)
    → totals gone oid es ≡ totals away oid es
same_totals gone away oid es h = ap (λ (g : String → Bool). totals g oid es) (fun_ext h)

-- Where no event is retracted twice, the totals of an object are the sums over the events that no
-- standing retraction names: of the amounts that originate it, of the amounts that settle or
-- adjust it, once for each object that says so, and whether one reverses it.
pub fold_object_totals_eq :
    (es : List LedgerEvent) (oid : String)
    → RetractsOnce es
    → fold_object_totals es oid ≡ totals (is_retracted es) oid es
unfolding fold_object_totals
fold_object_totals_eq es oid h =
    fold_events-eq (retracted_event_ids es) oid es _
    ∙ zero_extend
    ∙ same_totals (includes (retracted_event_ids es)) (is_retracted es) oid es
        (λ t. retracted_event_ids_iff es t h)
  where
    zero_extend :
        extend
          (record { originated_units = 0; closed_units = 0; has_reversal = false })
          (sum_named (includes (retracted_event_ids es)) opens oid es)
          (sum_named (includes (retracted_event_ids es)) closes oid es)
          (some_named (includes (retracted_event_ids es)) voids oid es)
        ≡ totals (includes (retracted_event_ids es)) oid es
    zero_extend = ground arith
