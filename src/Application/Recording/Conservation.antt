-- ===== src/Application/Recording/Conservation.antt =====
-- No settlement closes more of a position than was opened
-- (ledger/src/core/application/use-cases/CreateLedgerEventUseCase.ts, the guard of conservation).
use ledger_system.Prelude.{
  ℕ, ◌+◌, ◌*◌, ◌≤◌, String, ◌≡◌, ◌≢◌, ◌⊎◌, inl, inr, refl, ap, ◌∙◌, Bool, true, false, ◌&&◌, none,
  List, [], ◌∷◌, ◌++◌, ◌==◌, string_eq, nat_eq, filter, any, All-any, for_each, for_each-eq-ok,
  Bool-cases, ok, arith, ==_true,
}
use ledger_system.Domain.Enums.{Relation, relation_eq, relation_eq_iff}
use ledger_system.Domain.Money.{Money}
use ledger_system.Domain.Entities.{LedgerEventObject, CreateLedgerEventProps, LedgerEvent}
use ledger_system.Domain.Policy.{has_relation, validate_semantic}
use ledger_system.Domain.Policy.Corrections.{retraction_shape}
use ledger_system.Application.Retraction.{carries_retraction, ObjectTotals, fold_object_totals}
use ledger_system.Application.Retraction.Standing.{has_retraction}
use ledger_system.Application.Retraction.Totals.{
  opens, closes, voids, count_named, any_named, extend, fold_objects-eq,
}
use ledger_system.Application.Retraction.Growth.{
  filter-RetractsOnce, has_retraction-filter, fold_object_totals-snoc,
}
use ledger_system.Infra.Memory.{Book, names_object, find_by_object_id}
use ledger_system.Application.Recording.{
  CreateLedgerEventCommand, Env, Ledger, check_totals, check_settlement, refuse_over_settlement,
  known_event, execute,
}
use ledger_system.Application.Recording.History.{
  has_id, IsBook, IsBook-RetractsOnce, IsBook-on_record,
}
use ledger_system.Application.Recording.Outcomes.{Recorded, execute-Recorded}

-- An object that settles the position `oid`.
abbrev pub settles_it : String → LedgerEventObject → Bool
settles_it oid o = o.object_id == oid && o.relation == Relation.settles

-- The totals of a position on a book.
abbrev pub totals_of : String → Book → ObjectTotals
totals_of oid book = fold_object_totals (find_by_object_id oid book) oid

-- A position that is voided or closed for at most what opened it.
abbrev pub Conserves : ObjectTotals → Type 0
Conserves t = (t.has_reversal ≡ true) ⊎ (t.closed_units ≤ t.originated_units)

refuse_over_settlement-err :
    (oid : String) (m : Money) (t : ObjectTotals) → refuse_over_settlement oid m t ≢ ok tt
unfolding refuse_over_settlement
refuse_over_settlement-err oid m t h = ground arith

-- What the guard passes.
check_totals-eq-ok :
    (oid : String) (m : Money) (t : ObjectTotals)
    → check_totals oid m t ≡ ok tt
    → (t.has_reversal ≡ true)
      ⊎ (t.originated_units ≡ 0)
      ⊎ (t.closed_units + m.units ≤ t.originated_units)
check_totals-eq-ok oid m t h = ground (arith, refuse_over_settlement-err oid m t)

both_true : (a b : Bool) → (a && b) ≡ true → (a ≡ true) × (b ≡ true)
both_true a b h = (ground arith, ground arith)

check_settlement-eq-ok :
    (m : Money) (book : Book) (oid : String) (o : LedgerEventObject)
    → settles_it oid o ≡ true
    → check_settlement m book o ≡ ok tt
    → check_totals oid m (totals_of oid book) ≡ ok tt
unfolding check_settlement
check_settlement-eq-ok m book oid o hit h =
    let (named, settling) = both_true _ _ hit in
    rw (check_settlement, settling, ==_true o.object_id oid named) at h

-- The guard ran on every position that the event settles.
settlement_guarded :
    (m : Money) (book : Book) (os : List LedgerEventObject) (oid : String)
    → for_each os (check_settlement m book) ≡ ok tt
    → any (settles_it oid) os ≡ true
    → check_totals oid m (totals_of oid book) ≡ ok tt
settlement_guarded m book os oid h found =
    All-any (λ o. check_settlement m book o ≡ ok tt) (settles_it oid) os (for_each-eq-ok os _ h)
      found (check_settlement-eq-ok m book oid)

-- The totals behind an event that closes the position once.
extended-Conserves :
    (t : ObjectTotals) (units opened : ℕ) (voided : Bool)
    → (t.has_reversal ≡ true)
      ⊎ (t.originated_units ≡ 0)
      ⊎ (t.closed_units + units ≤ t.originated_units)
    → t.originated_units ≢ 0
    → Conserves (extend t (units * opened) (units * 1) voided)
extended-Conserves t units opened voided h opened_before = ground arith

-- An event that settles a position carries no retraction.
settling_is_plain :
    (props : CreateLedgerEventProps) (oid : String)
    → validate_semantic props ≡ ok tt
    → any (settles_it oid) props.objects ≡ true
    → any (has_relation Relation.retracts) props.objects ≡ false
settling_is_plain props oid h settling =
    elim (Bool-cases (any (has_relation Relation.retracts) props.objects)) [
      | inr plain ↦ plain
      | inl retracting ↦
          All-any (λ o. o.relation ≡ Relation.retracts) (settles_it oid) props.objects
            (retraction_shape props h retracting).3 settling
            (λ o hit r. ground (arith, hit, relation_eq_iff o.relation Relation.settles))
    ]

settling-names_object :
    (oid : String) (os : List LedgerEventObject)
    → any (settles_it oid) os ≡ true
    → any (λ o. o.object_id == oid) os ≡ true
settling-names_object oid [] h = cc h
settling-names_object oid (o ∷ os) h = ground (arith, settling-names_object oid os)

filter-snoc :
    (p : LedgerEvent → Bool) (es : List LedgerEvent) (e : LedgerEvent)
    → p e ≡ true
    → filter p (es ++ e ∷ []) ≡ filter p es ++ e ∷ []
filter-snoc p [] e h = rw h refl
filter-snoc p (d ∷ es) e h = rw (filter-snoc p es e h) (ground arith)

-- The totals of a position behind an event that names it and carries no retraction.
grown_totals :
    (book : Book) (e : LedgerEvent) (after : Book) (oid : String)
    → IsBook book
    → after ≡ book ++ e ∷ []
    → has_id e.id book ≡ false
    → carries_retraction e ≡ false
    → any (settles_it oid) e.objects ≡ true
    → totals_of oid after
      ≡ extend
          (totals_of oid book)
          (e.amount.units * count_named opens oid e.objects)
          (e.amount.units * count_named closes oid e.objects)
          (any_named voids oid e.objects)
unfolding find_by_object_id
grown_totals book e after oid valid same fresh plain settling =
    rw (same, filter-snoc (names_object oid) book e (settling-names_object oid e.objects settling))
      (fold_object_totals-snoc (filter (names_object oid) book) e oid
          (filter-RetractsOnce (names_object oid) book (IsBook-RetractsOnce book valid))
          (has_retraction-filter (names_object oid) book e.id never) plain
        ∙ fold_objects-eq oid e.amount.units e.objects _)
  where
    never : has_retraction book e.id ≡ false
    never = elim (Bool-cases (has_retraction book e.id)) [
      | inr never_hit ↦ never_hit
      | inl hit ↦ cc (IsBook-on_record book e.id valid hit, fresh)
    ]

-- Where a position was opened before, the event of a run that is new, and that settles the
-- position and names it once as settled or adjusted, leaves it voided or closed for at most what
-- opened it.
pub settlement-Conserves :
    (env : Env) (c : CreateLedgerEventCommand) (l : Ledger) (oid : String) {e : LedgerEvent}
    {after : Ledger}
    → IsBook l.book
    → known_event c.command_id l.book ≡ none
    → (totals_of oid l.book).originated_units ≢ 0
    → any (settles_it oid) c.objects ≡ true
    → count_named closes oid c.objects ≡ 1
    → execute env c l ≡ ok (e, after)
    → Conserves (totals_of oid after.book)
settlement-Conserves env c l oid {e} {after} valid unknown opened settling once h =
    elim (execute-Recorded env c l h) [
      | inl (known, same) ↦ cc (known, unknown)
      | inr (u, r) ↦ recorded r
    ]
  where
    recorded : Recorded env c l e after → Conserves (totals_of oid after.book)
    recorded r =
        let p = r.prepared in
        let same_objects : e.objects ≡ c.objects = ap (λ d. d.objects) r.event ∙ p.objects in
        let settled : any (settles_it oid) e.objects ≡ true = rw same_objects settling in
        let plain : carries_retraction e ≡ false =
          ap (λ d. carries_retraction d) r.event
          ∙ settling_is_plain r.props oid r.sound.semantic (rw p.objects settling) in
        let guard =
          check_totals-eq-ok oid r.props.amount (totals_of oid l.book)
            (settlement_guarded r.props.amount l.book c.objects oid p.settlements settling) in
        rw
          (
            grown_totals l.book e after.book oid valid r.book r.fresh_id plain settled,
            same_objects,
            once,
            ap (λ d. d.amount.units) r.event,
          )
          (extended-Conserves (totals_of oid l.book) r.props.amount.units
            (count_named opens oid c.objects) (any_named voids oid c.objects) guard opened)
