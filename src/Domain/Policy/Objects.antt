-- ===== src/Domain/Policy/Objects.antt =====
-- What an accepted event's steps say of each of its objects
-- (ledger/src/core/domain/policies/InvariantPolicy.ts).
use ledger_system.Prelude.{
  ◌≡◌, inl, inr, Bool, true, false, not, some, List, [], ◌∷◌, All, all, any, filter, find, includes,
  ok, throw_if-eq-ok, arith, ap, Option-cases, Bool-cases, ◌==◌,
}
use ledger_system.Domain.Enums.{EventType, Relation, relation_eq, object_type_eq}
use ledger_system.Domain.Contracts.{ContractObject, EventSemanticContract, event_contracts}
use ledger_system.Domain.Entities.{LedgerEventObject, CreateLedgerEventProps}
use ledger_system.Domain.Policy.{
  is_contextual, positional_objects, contextual_objects, check_effect_relation,
  check_object_relation, check_contract_object, check_contextual,
}
use ledger_system.Domain.Policy.Steps.{Steps}

pub record ObjectFacts (props : CreateLedgerEventProps) (o : LedgerEventObject) : Type 0 where
  pub row : check_object_relation o ≡ ok tt
  pub contextual : is_contextual o ≡ true → check_contextual o ≡ ok tt
  pub effect : is_contextual o ≡ false → check_effect_relation props.economic_effect o ≡ ok tt
  pub contract :
      is_contextual o ≡ false
      → check_contract_object (event_contracts props.event_type) props.event_type o ≡ ok tt

All-filter {ℓ κ} :
    {A : Type ℓ} (P : A → Type κ) (p : A → Bool) (xs : List A)
    → All P (filter p xs)
    → All (λ x. p x ≡ true → P x) xs
All-filter P p [] h = tt
All-filter P p (x ∷ xs) h = elim (Bool-cases (p x)) [
  | inl e ↦ let h' = (rw e at h) in (λ _. h'.0, All-filter P p xs h'.1)
  | inr e ↦ (λ e'. cc (e, e'), All-filter P p xs (rw e at h))
]

zip_facts :
    (props : CreateLedgerEventProps) (os : List LedgerEventObject)
    → All (λ o. check_object_relation o ≡ ok tt) os
    → All (λ o. is_contextual o ≡ true → check_contextual o ≡ ok tt) os
    → All
        (λ o. not (is_contextual o) ≡ true → check_effect_relation props.economic_effect o ≡ ok tt)
        os
    → All
        (λ o.
          not (is_contextual o) ≡ true
          → check_contract_object (event_contracts props.event_type) props.event_type o ≡ ok tt)
        os
    → All (ObjectFacts props) os
zip_facts props [] a b c d = tt
zip_facts props (o ∷ os) a b c d = (
  record {
    row = a.0;
    contextual = b.0;
    effect = λ e. c.0 (ap not e);
    contract = λ e. d.0 (ap not e);
  },
  zip_facts props os a.1 b.1 c.1 d.1,
)

pub Steps-ObjectFacts :
    (props : CreateLedgerEventProps) → Steps props → All (ObjectFacts props) props.objects
unfolding positional_objects contextual_objects
Steps-ObjectFacts props s =
    zip_facts props props.objects s.object_relation
      (All-filter _ is_contextual props.objects s.contextual)
      (All-filter _ (λ o. not (is_contextual o)) props.objects s.effect_relation)
      (All-filter _ (λ o. not (is_contextual o)) props.objects s.contract_object)

pub All-map {ℓ κ μ} :
    {A : Type ℓ} {P : A → Type κ} {Q : A → Type μ} (xs : List A)
    → ((x : A) → P x → Q x)
    → All P xs
    → All Q xs
All-map [] f h = tt
All-map (x ∷ xs) f h = (f x h.0, All-map xs f h.1)

-- An element that satisfies a test, with what holds of all elements.
pub any-All {ℓ κ} :
    {A : Type ℓ} {P : A → Type κ} (p : A → Bool) (xs : List A)
    → any p xs ≡ true
    → All P xs
    → (x : A) × (p x ≡ true) × P x
any-All p [] e h = cc
any-All p (x ∷ xs) e h = elim (Bool-cases (p x)) [
  | inl t ↦ (x, t, h.0)
  | inr f ↦ any-All p xs (rw f at e) h.1
]

find-all :
    (p q : ContractObject → Bool) (cs : List ContractObject) {c : ContractObject}
    → find q cs ≡ some c
    → all p cs ≡ true
    → p c ≡ true
find-all p q [] f h = cc
find-all p q (c ∷ cs) f h = elim (Bool-cases (q c)) [
  | inl t ↦ ground arith
  | inr n ↦ find-all p q cs (rw n at f) (ground arith)
]

-- No entry of the contract admits the relation.
abbrev pub forbids : EventSemanticContract → Relation → Bool
forbids contract r = all (λ c. not (includes c.relations r)) contract.objects

-- A relation that no entry of the contract admits is refused.
pub forbidden :
    (contract : EventSemanticContract) (t : EventType) (o : LedgerEventObject)
    → forbids contract o.relation ≡ true
    → check_contract_object contract t o ≡ ok tt
    → ⊥
unfolding check_contract_object
forbidden contract t o no_entry h =
    elim (Option-cases (find (λ c. c.object_type == o.object_type) contract.objects)) [
      | inl absent ↦ cc (rw absent at h)
      | inr (c, e) ↦
          let admits : not (includes c.relations o.relation) ≡ false =
            throw_if-eq-ok _ _ (rw e at h) in
          let denies : not (includes c.relations o.relation) ≡ true =
            find-all (λ d. not (includes d.relations o.relation)) _ contract.objects e no_entry in
          cc (admits, denies)
    ]
