-- ===== src/Domain/Policy/Steps.antt =====
-- An event that `validateSemantic` accepts has passed every one of its steps
-- (ledger/src/core/domain/policies/InvariantPolicy.ts).
use ledger_system.Prelude.{◌≡◌, All, ok, >>-eq-ok, for_each-eq-ok}
use ledger_system.Domain.Contracts.{event_contracts}
use ledger_system.Domain.Entities.{CreateLedgerEventProps}
use ledger_system.Domain.Policy.{
  positional_objects, contextual_objects, check_contract_effect, check_effect_relation,
  check_object_relation, check_contract_object, check_reason, check_reason_effect,
  check_reason_relation, check_confidence, check_previous_hash, check_related_event,
  check_contextual, check_retraction, check_due_at, validate_semantic,
}

pub record Steps (props : CreateLedgerEventProps) : Type 0 where
  pub contract_effect : check_contract_effect (event_contracts props.event_type) props ≡ ok tt
  pub effect_relation :
      All
        (λ o. check_effect_relation props.economic_effect o ≡ ok tt)
        (positional_objects props.objects)
  pub object_relation : All (λ o. check_object_relation o ≡ ok tt) props.objects
  pub contract_object :
      All
        (λ o. check_contract_object (event_contracts props.event_type) props.event_type o ≡ ok tt)
        (positional_objects props.objects)
  pub reason :
      check_reason (event_contracts props.event_type).reasons props.reason props.event_type ≡ ok tt
  pub reason_effect : check_reason_effect props.reason props.economic_effect ≡ ok tt
  pub reason_relation :
      check_reason_relation props.reason (positional_objects props.objects) ≡ ok tt
  pub confidence :
      check_confidence (event_contracts props.event_type).min_confidence props.reason ≡ ok tt
  pub previous_hash :
      check_previous_hash
        (event_contracts props.event_type)
        props
        (positional_objects props.objects)
      ≡ ok tt
  pub related_event : check_related_event (event_contracts props.event_type) props ≡ ok tt
  pub contextual : All (λ o. check_contextual o ≡ ok tt) (contextual_objects props.objects)
  pub retraction : check_retraction props ≡ ok tt
  pub due_at : check_due_at (event_contracts props.event_type) props ≡ ok tt

pub validate_semantic-Steps :
    (props : CreateLedgerEventProps) → validate_semantic props ≡ ok tt → Steps props
unfolding validate_semantic
validate_semantic-Steps props h0 =
    let (s1, h1) = >>-eq-ok _ _ h0 in
    let (s2, h2) = >>-eq-ok _ _ h1 in
    let (s3, h3) = >>-eq-ok _ _ h2 in
    let (s4, h4) = >>-eq-ok _ _ h3 in
    let (s5, h5) = >>-eq-ok _ _ h4 in
    let (s6, h6) = >>-eq-ok _ _ h5 in
    let (s7, h7) = >>-eq-ok _ _ h6 in
    let (s8, h8) = >>-eq-ok _ _ h7 in
    let (s9, h9) = >>-eq-ok _ _ h8 in
    let (s10, h10) = >>-eq-ok _ _ h9 in
    let (s11, h11) = >>-eq-ok _ _ h10 in
    let (s12, s13) = >>-eq-ok _ _ h11 in
    record {
      contract_effect = s1;
      effect_relation = for_each-eq-ok _ _ s2;
      object_relation = for_each-eq-ok _ _ s3;
      contract_object = for_each-eq-ok _ _ s4;
      reason = s5;
      reason_effect = s6;
      reason_relation = s7;
      confidence = s8;
      previous_hash = s9;
      related_event = s10;
      contextual = for_each-eq-ok _ _ s11;
      retraction = s12;
      due_at = s13;
    }
