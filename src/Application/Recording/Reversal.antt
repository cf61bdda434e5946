-- ===== src/Application/Recording/Reversal.antt =====
-- Recording a reversal (ledger/src/core/application/use-cases/CreateLedgerEventUseCase.ts,
-- ledger/src/core/domain/policies/InvariantPolicy.ts).
use ledger_system.Prelude.{
  true, none, some, [], ◌∷◌, ◌++◌, any, is_some, ◌≡◌, ◌⊎◌, inl, inr, refl, sym, ap, ◌∙◌, subst, ok,
}
use ledger_system.Domain.Enums.{EventType, EconomicEffect, Relation}
use ledger_system.Domain.Entities.{LedgerEvent}
use ledger_system.Domain.Policy.{has_relation}
use ledger_system.Domain.Policy.Corrections.{reversal_shape}
use ledger_system.Infra.Memory.{Book, get_last_event_hash}
use ledger_system.Application.Recording.{
  CreateLedgerEventCommand, Env, Ledger, execute, known_event,
}
use ledger_system.Application.Recording.Outcomes.{execute-Recorded}

-- The event stands behind another one, whose hash it carries.
abbrev pub IsChained : Book → LedgerEvent → Type 0
IsChained book e =
    (before : Book) × (d : LedgerEvent) × (book ≡ before ++ d ∷ [])
    × (e.previous_hash ≡ some d.hash)

last_event :
    (book : Book)
    → is_some (get_last_event_hash book) ≡ true
    → (before : Book) × (d : LedgerEvent) × (book ≡ before ++ d ∷ [])
      × (get_last_event_hash book ≡ some d.hash)
unfolding get_last_event_hash
last_event [] h = cc h
last_event (d ∷ []) h = ([], d, refl, refl)
last_event (d ∷ b ∷ book) h =
    let (before, x, shape, hash) = last_event (b ∷ book) h in
    (d ∷ before, x, ap (λ r. d ∷ r) shape, hash)

-- A command that is not known and is executed to an event that reverses a position: the event is a
-- ledger correction or a commission waiver, moves no cash, and carries the hash of the event that was
-- the last on the book, so that a reversal is never the first event of a ledger.
pub execute_reverses :
    (env : Env) (c : CreateLedgerEventCommand) (l : Ledger) {e : LedgerEvent} {after : Ledger}
    → known_event c.command_id l.book ≡ none
    → execute env c l ≡ ok (e, after)
    → any (has_relation Relation.reverses) e.objects ≡ true
    → ((e.event_type ≡ EventType.ledger_correction) ⊎ (e.event_type ≡ EventType.commission_waiver))
      × (e.economic_effect ≡ EconomicEffect.non_cash)
      × IsChained l.book e
execute_reverses env c l {e} unknown h reverses = elim (execute-Recorded env c l h) [
  | inl (known, same) ↦ cc (sym unknown ∙ known)
  | inr (u, r) ↦
      let p = r.props in
      let (type, effect, linked) =
        reversal_shape p r.sound.semantic
          (subst (λ d. any (has_relation Relation.reverses) d.objects ≡ true) r.event reverses) in
      let (before, d, shape, hash) =
        last_event l.book (subst (λ x. is_some x ≡ true) r.prepared.linked linked) in
      subst
        (λ x.
          ((x.event_type ≡ EventType.ledger_correction)
            ⊎ (x.event_type ≡ EventType.commission_waiver))
          × (x.economic_effect ≡ EconomicEffect.non_cash)
          × IsChained l.book x)
        (sym r.event) (type, effect, (before, d, shape, r.prepared.linked ∙ hash))
]
