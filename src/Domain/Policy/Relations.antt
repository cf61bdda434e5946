-- ===== src/Domain/Policy/Relations.antt =====
-- Which relations an accepted event may put on its objects
-- (ledger/src/core/domain/policies/InvariantPolicy.ts, with the matrices and the contracts).
use ledger_system.Prelude.{
  ◌≡◌, ◌≢◌, ◌↔◌, inl, inr, refl, ap, true, false, All, includes, ok, throw_if-eq-ok, arith,
  Bool-cases,
}
use ledger_system.Domain.Enums.{
  EconomicEffect, Relation, relation_eq, relation_eq_iff, object_nature_eq,
}
use ledger_system.Domain.Matrices.{economic_effect_relation_matrix}
use ledger_system.Domain.Entities.{LedgerEventObject, CreateLedgerEventProps}
use ledger_system.Domain.Policy.{
  is_contextual, check_effect_relation, check_contextual, validate_semantic,
}
use ledger_system.Domain.Policy.Steps.{validate_semantic-Steps}
use ledger_system.Domain.Policy.Objects.{ObjectFacts, Steps-ObjectFacts, All-map}

-- The matrix of effects has no row with REFERENCES.
effect_never_references :
    (e : EconomicEffect) → includes (economic_effect_relation_matrix e) Relation.references ≡ false
unfolding economic_effect_relation_matrix
effect_never_references EconomicEffect.cash_in = refl
effect_never_references _ = refl

-- Step 11 passes only a reference.
pub referenced :
    (o : LedgerEventObject) → check_contextual o ≡ ok tt → o.relation ≡ Relation.references
unfolding check_contextual
referenced o h = ground (arith, relation_eq_iff o.relation Relation.references)

-- Step 2 passes no reference.
not_referenced :
    (e : EconomicEffect) (o : LedgerEventObject)
    → check_effect_relation e o ≡ ok tt
    → o.relation ≢ Relation.references
unfolding check_effect_relation
not_referenced e o h r = cc (
  throw_if-eq-ok _ _ h,
  ap (λ s. includes (economic_effect_relation_matrix e) s) r,
  effect_never_references e,
)

-- An accepted event marks exactly its contextual objects by REFERENCES: a contract, a proposal, an
-- installment, a batch or a campaign is only referenced, and a positional object never is.
pub references_iff_contextual :
    (props : CreateLedgerEventProps)
    → validate_semantic props ≡ ok tt
    → All (λ o. (o.relation ≡ Relation.references) ↔ (is_contextual o ≡ true)) props.objects
references_iff_contextual props h =
    All-map props.objects one (Steps-ObjectFacts props (validate_semantic-Steps props h))
  where
    one :
        (o : LedgerEventObject)
        → ObjectFacts props o
        → (o.relation ≡ Relation.references) ↔ (is_contextual o ≡ true)
    one o f = elim (Bool-cases (is_contextual o)) [
      | inl c ↦ (λ _. c, λ _. referenced o (f.contextual c))
      | inr p ↦ (λ r. absurd (not_referenced _ o (f.effect p) r), λ c. cc (c, p))
    ]
