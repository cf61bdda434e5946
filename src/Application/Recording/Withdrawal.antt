-- ===== src/Application/Recording/Withdrawal.antt =====
-- What recording a retraction does to the book
-- (ledger/src/core/application/use-cases/CreateLedgerEventUseCase.ts, dtos/retractionUtils.ts).
use text.Mathlib.TextEquality.{eq_iff}
use ledger_system.Prelude.{
  String, ◌≡◌, ap, ◌∙◌, inl, inr, Bool, true, false, ◌&&◌, Option, none, some, [], ◌∷◌, ◌++◌, ◌==◌,
  string_eq, any, includes, truthy, if◌then◌else◌, Bool-cases, ok, arith,
}
use ledger_system.Domain.Enums.{Relation, relation_eq}
use ledger_system.Domain.Entities.{LedgerEvent}
use ledger_system.Domain.Policy.Corrections.{retraction_shape}
use ledger_system.Application.Retraction.{retracted_event_ids}
use ledger_system.Application.Retraction.Standing.{
  targets, names, has_retraction, retracted_event_ids_iff, standing_retraction,
}
use ledger_system.Infra.Memory.{Book}
use ledger_system.Application.Recording.{
  CreateLedgerEventCommand, Env, Ledger, known_event, execute,
}
use ledger_system.Application.Recording.History.{
  Follows, IsBook, IsBook-snoc, IsBook-RetractsOnce, IsBook-on_record, any-++,
}
use ledger_system.Application.Recording.Prepared.{retracts}
use ledger_system.Application.Recording.Outcomes.{Recorded, execute-Recorded}
use ledger_system.Application.Recording.Invariant.{Recorded-Follows}

-- A retraction names its target.
names_target :
    (o : Option String) (b : Bool) (t : String)
    → o ≡ some t
    → truthy o ≡ true
    → b ≡ true
    → names (if truthy o && b then o else none) t ≡ true
names_target none b t h given carries = cc
names_target (some u) b t h given carries = rw (given, carries) (ground (arith, eq_iff t u, h))

-- Nothing retracts an event that is new on the book.
new-standing :
    (book : Book) (e : LedgerEvent)
    → IsBook book
    → Follows book e
    → has_retraction (book ++ e ∷ []) e.id ≡ false
new-standing book e valid f = elim (Bool-cases (has_retraction (book ++ e ∷ []) e.id)) [
  | inr never_hit ↦ never_hit
  | inl hit ↦ elim (Bool-cases (targets e e.id)) [
    | inl itself ↦ cc (f.on_record e.id itself, f.fresh_id)
    | inr other ↦
        let before : has_retraction book e.id ≡ true =
          ground (arith, hit, other, any-++ (λ d. targets d e.id) book (e ∷ [])) in
        cc (IsBook-on_record book e.id valid before, f.fresh_id)
  ]
]

-- Recording a retraction takes its target out of what stands: the event that the command names is
-- among the retracted events of the book that the run leaves.
pub execute_withdraws :
    (env : Env) (c : CreateLedgerEventCommand) (l : Ledger) (t : String) {e : LedgerEvent}
    {after : Ledger}
    → IsBook l.book
    → known_event c.command_id l.book ≡ none
    → retracts c ≡ true
    → c.related_event_id ≡ some t
    → execute env c l ≡ ok (e, after)
    → includes (retracted_event_ids after.book) t ≡ true
execute_withdraws env c l t {e} {after} valid fresh retracting named h =
    elim (execute-Recorded env c l h) [
      | inl (known, same) ↦ cc (known, fresh)
      | inr (u, r) ↦ recorded r
    ]
  where
    recorded : Recorded env c l e after → includes (retracted_event_ids after.book) t ≡ true
    recorded r =
        let p = r.prepared in
        let f = Recorded-Follows env c l r in
        let carried =
          ap (λ os. any (λ o. o.relation == Relation.retracts) os) p.objects ∙ retracting in
        let shape = retraction_shape r.props r.sound.semantic carried in
        let target : targets e t ≡ true =
          ap (λ d. targets d t) r.event
          ∙ names_target r.props.related_event_id _ t (p.related ∙ named) shape.2 carried in
        let valid' = IsBook-snoc l.book e valid f in
        rw r.book (
          retracted_event_ids_iff (l.book ++ e ∷ []) t (IsBook-RetractsOnce _ valid')
          ∙ standing_retraction l.book e t target (new-standing l.book e valid f))
