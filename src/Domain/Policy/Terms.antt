-- ===== src/Domain/Policy/Terms.antt =====
-- Due dates and unresolved origins of accepted events
-- (ledger/src/core/domain/policies/InvariantPolicy.ts, with the contracts).
use ledger_system.Prelude.{
  ◌≡◌, ◌⊎◌, inl, inr, refl, subst, true, false, Option, none, some, All, any, ok, arith, truthy,
  is_some,
}
use ledger_system.Domain.Enums.{
  EventType, Relation, relation_eq, relation_eq_iff, object_type_eq, ReasonType, reason_type_eq,
  reason_type_eq_iff,
}
use ledger_system.Domain.Contracts.{event_contracts}
use ledger_system.Domain.Entities.{LedgerEventObject, CreateLedgerEventProps, EventReason}
use ledger_system.Domain.Policy.{
  is_contextual, has_relation, check_contract_object, check_due_at, check_related_event,
  check_reason, declares_unresolved_origin, validate_semantic,
}
use ledger_system.Domain.Policy.Steps.{validate_semantic-Steps}
use ledger_system.Domain.Policy.Objects.{Steps-ObjectFacts, All-map}

only_recognitions_fall_due :
    (t : EventType)
    → (t ≡ EventType.obligation_recognized) ⊎ ((event_contracts t).admits_due_at ≡ false)
unfolding event_contracts
only_recognitions_fall_due EventType.obligation_recognized = inl refl
only_recognitions_fall_due _ = inr refl

recognition_originates :
    (o : LedgerEventObject)
    → check_contract_object
        (event_contracts EventType.obligation_recognized)
        EventType.obligation_recognized
        o
      ≡ ok tt
    → o.relation ≡ Relation.originates
unfolding check_contract_object event_contracts
recognition_originates o h = ground (arith, relation_eq_iff Relation.originates o.relation)

due_at_admitted :
    (props : CreateLedgerEventProps)
    → check_due_at (event_contracts props.event_type) props ≡ ok tt
    → is_some props.due_at ≡ true
    → ((event_contracts props.event_type).admits_due_at ≡ true)
      × (any (has_relation Relation.originates) props.objects ≡ true)
unfolding check_due_at
due_at_admitted props h d = (ground arith, ground arith)

-- An accepted event with a due date recognizes an obligation: it originates some position, and
-- every positional object on it is originated.
pub due_at_shape :
    (props : CreateLedgerEventProps)
    → validate_semantic props ≡ ok tt
    → is_some props.due_at ≡ true
    → (props.event_type ≡ EventType.obligation_recognized)
      × (any (has_relation Relation.originates) props.objects ≡ true)
      × All (λ o. is_contextual o ≡ false → o.relation ≡ Relation.originates) props.objects
due_at_shape props h d =
    let s = validate_semantic-Steps props h in
    let (admits, some_origin) = due_at_admitted props s.due_at d in
    elim (only_recognitions_fall_due props.event_type) [
      | inr refuses ↦ cc (admits, refuses)
      | inl t ↦ (
        t,
        some_origin,
        All-map props.objects
            (λ o f p.
              recognition_originates o (
                subst (λ u. check_contract_object (event_contracts u) u o ≡ ok tt) t
                  (f.contract p)))
            (Steps-ObjectFacts props s),
      )
    ]

orphan_reason :
    (t : EventType) (r : EventReason)
    → (event_contracts t).requires_related_event_id ≡ true
    → check_reason (event_contracts t).reasons (some r) t ≡ ok tt
    → r.type ≡ ReasonType.unknown_origin
    → t ≡ EventType.commission_received
unfolding event_contracts
orphan_reason EventType.commission_received r n h u = refl
orphan_reason EventType.advance_settlement r n h u = absurd (ground arith)
orphan_reason EventType.loan_repayment r n h u = absurd (ground arith)
orphan_reason _ r n h u = absurd (ground arith)

unresolved :
    (props : CreateLedgerEventProps)
    → check_related_event (event_contracts props.event_type) props ≡ ok tt
    → (event_contracts props.event_type).requires_related_event_id ≡ true
    → truthy props.related_event_id ≡ false
    → declares_unresolved_origin props.reason ≡ true
unfolding check_related_event
unresolved props h n m = ground arith

declared :
    (reason : Option EventReason)
    → declares_unresolved_origin reason ≡ true
    → (r : EventReason) × (reason ≡ some r)
      × (r.type ≡ ReasonType.unknown_origin)
      × (r.requires_followup ≡ true)
declared none h = cc
declared (some r) h =
    (r, refl, ground (arith, reason_type_eq_iff r.type ReasonType.unknown_origin), ground arith)

-- An event whose contract asks for its origin is accepted without one only if it is a commission
-- receipt whose reason says that the origin is unknown and asks for a follow-up: an advance
-- settlement and a loan repayment always name their origin.
pub orphan_shape :
    (props : CreateLedgerEventProps)
    → validate_semantic props ≡ ok tt
    → (event_contracts props.event_type).requires_related_event_id ≡ true
    → truthy props.related_event_id ≡ false
    → (props.event_type ≡ EventType.commission_received)
      × ((r : EventReason) × (props.reason ≡ some r)
          × (r.type ≡ ReasonType.unknown_origin)
          × (r.requires_followup ≡ true))
orphan_shape props h n m =
    let s = validate_semantic-Steps props h in
    let (r, given, unknown, followup) =
      declared props.reason (unresolved props s.related_event n m) in
    (
      orphan_reason props.event_type r n (rw given at s.reason) unknown,
      (r, given, unknown, followup),
    )
