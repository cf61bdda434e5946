-- ===== src/Domain/Policy/Corrections.antt =====
-- Which events may retract, reverse, fall due or leave their origin open
-- (ledger/src/core/domain/policies/InvariantPolicy.ts, with the matrices and the contracts).
use ledger_system.Prelude.{
  ◌≡◌, ◌≢◌, ◌⊎◌, inl, inr, refl, ap, sym, ◌∙◌, true, false, not, List, [], ◌∷◌, All, any, includes,
  ok, arith, Bool-cases, ◌==◌, ==_true, truthy, is_some,
}
use ledger_system.Domain.Enums.{
  EventType, event_type_eq, EconomicEffect, economic_effect_eq, Relation, relation_eq,
  relation_eq_iff, reason_type_eq,
}
use ledger_system.Domain.Contracts.{event_contracts}
use ledger_system.Domain.Entities.{LedgerEventObject, CreateLedgerEventProps}
use ledger_system.Domain.Policy.{
  is_contextual, has_relation, check_contract_effect, check_retraction, check_previous_hash,
  positional_objects, validate_semantic,
}
use ledger_system.Domain.Policy.Steps.{Steps, validate_semantic-Steps}
use ledger_system.Domain.Policy.Objects.{
  ObjectFacts, Steps-ObjectFacts, any-All, forbids, forbidden,
}
use ledger_system.Domain.Policy.Relations.{referenced}

only_corrections_retract :
    (t : EventType)
    → (t ≡ EventType.ledger_correction) ⊎ (forbids (event_contracts t) Relation.retracts ≡ true)
unfolding event_contracts
only_corrections_retract EventType.ledger_correction = inl refl
only_corrections_retract _ = inr refl

who_reverses :
    (t : EventType)
    → ((t ≡ EventType.ledger_correction) ⊎ (t ≡ EventType.commission_waiver))
      ⊎ (forbids (event_contracts t) Relation.reverses ≡ true)
unfolding event_contracts
who_reverses EventType.ledger_correction = inl (inl refl)
who_reverses EventType.commission_waiver = inl (inr refl)
who_reverses _ = inr refl

-- Contracts of corrections and waivers move no cash.
correction_effect :
    (t : EventType) (e : EconomicEffect)
    → (t ≡ EventType.ledger_correction) ⊎ (t ≡ EventType.commission_waiver)
    → includes (event_contracts t).economic_effects e ≡ true
    → e ≡ EconomicEffect.non_cash
unfolding event_contracts
correction_effect EventType.ledger_correction e c h = ground arith
correction_effect EventType.commission_waiver e c h = ground arith
correction_effect _ e c h = absurd (ground arith)

-- An object that is not referenced is positional.
positional :
    (props : CreateLedgerEventProps) (o : LedgerEventObject)
    → ObjectFacts props o
    → o.relation ≢ Relation.references
    → is_contextual o ≡ false
positional props o f n = elim (Bool-cases (is_contextual o)) [
  | inl c ↦ absurd (n (referenced o (f.contextual c)))
  | inr p ↦ p
]

-- A type with a given relation among its accepted objects has a contract that admits it.
admitted :
    (props : CreateLedgerEventProps) (r : Relation)
    → Steps props
    → r ≢ Relation.references
    → any (has_relation r) props.objects ≡ true
    → forbids (event_contracts props.event_type) r ≡ true
    → ⊥
admitted props r s not_reference found no_entry =
    let (o, is_r, f) = any-All (has_relation r) props.objects found (Steps-ObjectFacts props s) in
    let same : o.relation ≡ r = ==_true o.relation r is_r in
    let p : is_contextual o ≡ false = positional props o f (λ e. not_reference (sym same ∙ e)) in
    forbidden (event_contracts props.event_type) props.event_type o
      (ap (forbids (event_contracts props.event_type)) same ∙ no_entry) (f.contract p)

effect_listed :
    (props : CreateLedgerEventProps)
    → check_contract_effect (event_contracts props.event_type) props ≡ ok tt
    → includes (event_contracts props.event_type).economic_effects props.economic_effect ≡ true
unfolding check_contract_effect
effect_listed props h = ground arith

effect_of_correction :
    (props : CreateLedgerEventProps)
    → Steps props
    → (props.event_type ≡ EventType.ledger_correction)
      ⊎ (props.event_type ≡ EventType.commission_waiver)
    → props.economic_effect ≡ EconomicEffect.non_cash
effect_of_correction props s c =
    correction_effect props.event_type props.economic_effect c
      (effect_listed props s.contract_effect)

only_relation :
    (r : Relation) (os : List LedgerEventObject)
    → any (λ o. not (o.relation == r)) os ≡ false
    → All (λ o. o.relation ≡ r) os
only_relation r [] h = tt
only_relation r (o ∷ os) h =
    (ground (arith, relation_eq_iff o.relation r), only_relation r os (ground arith))

-- What step 12 leaves of an event that retracts.
retraction_only :
    (props : CreateLedgerEventProps)
    → check_retraction props ≡ ok tt
    → any (has_relation Relation.retracts) props.objects ≡ true
    → (truthy props.related_event_id ≡ true)
      × (any (λ o. not (o.relation == Relation.retracts)) props.objects ≡ false)
unfolding check_retraction
retraction_only props h r = (ground arith, ground arith)

-- An accepted event that retracts is a ledger correction that moves no cash, names the event that
-- it retracts, and retracts on every one of its objects, so that it moves no position itself.
pub retraction_shape :
    (props : CreateLedgerEventProps)
    → validate_semantic props ≡ ok tt
    → any (has_relation Relation.retracts) props.objects ≡ true
    → (props.event_type ≡ EventType.ledger_correction)
      × (props.economic_effect ≡ EconomicEffect.non_cash)
      × (truthy props.related_event_id ≡ true)
      × All (λ o. o.relation ≡ Relation.retracts) props.objects
retraction_shape props h r =
    let s = validate_semantic-Steps props h in
    let (target, alone) = retraction_only props s.retraction r in
    elim (only_corrections_retract props.event_type) [
      | inl c ↦ (
        c,
        effect_of_correction props s (inl c),
        target,
        only_relation Relation.retracts props.objects alone,
      )
      | inr no_entry ↦ absurd (admitted props Relation.retracts s (ground arith) r no_entry)
    ]

-- What step 9 demands of a reversal.
reversal_linked :
    (props : CreateLedgerEventProps)
    → check_previous_hash
        (event_contracts props.event_type)
        props
        (positional_objects props.objects)
      ≡ ok tt
    → any (has_relation Relation.reverses) (positional_objects props.objects) ≡ true
    → is_some props.previous_hash ≡ true
unfolding check_previous_hash
reversal_linked props h r = ground arith

positional_any :
    (props : CreateLedgerEventProps) (r : Relation) (os : List LedgerEventObject)
    → r ≢ Relation.references
    → All (ObjectFacts props) os
    → any (has_relation r) os ≡ true
    → any (has_relation r) (positional_objects os) ≡ true
unfolding positional_objects
positional_any props r [] n f h = cc
positional_any props r (o ∷ os) n f h = elim (Bool-cases (o.relation == r)) [
  | inl t ↦
      let p : is_contextual o ≡ false =
        positional props o f.0 (λ e. n (sym (==_true o.relation r t) ∙ e)) in
      ground (arith, p, t)
  | inr e ↦ ground (arith, e, positional_any props r os n f.1 (ground (arith, e)))
]

-- An accepted event that reverses a position is a ledger correction or a commission waiver, moves
-- no cash, and carries some previous hash.
pub reversal_shape :
    (props : CreateLedgerEventProps)
    → validate_semantic props ≡ ok tt
    → any (has_relation Relation.reverses) props.objects ≡ true
    → ((props.event_type ≡ EventType.ledger_correction)
        ⊎ (props.event_type ≡ EventType.commission_waiver))
      × (props.economic_effect ≡ EconomicEffect.non_cash)
      × (is_some props.previous_hash ≡ true)
reversal_shape props h r =
    let s = validate_semantic-Steps props h in
    let linked = reversal_linked props s.previous_hash (
      positional_any props Relation.reverses props.objects (ground arith)
        (Steps-ObjectFacts props s) r) in
    elim (who_reverses props.event_type) [
      | inl c ↦ (c, effect_of_correction props s c, linked)
      | inr no_entry ↦ absurd (admitted props Relation.reverses s (ground arith) r no_entry)
    ]
