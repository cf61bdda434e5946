-- ===== src/Treasury/Mapper/Branches.antt =====
-- Which branch of a scenario the effect and the objects of an event tell
-- (treasury/src/core/application/services/CandidateMapper.ts).
use ledger_system.Prelude.{
  String, Bool, true, false, ◌&&◌, ◌==◌, string_eq, Option, none, some, List, [], ◌∷◌, any, all,
  map, find, filter, not, ◌||◌, ◌≡◌, refl, sym, subst, ap, ok, inl, inr, Bool-cases, some_injective,
  arith, ==_true, ◌∙◌, All,
}
use ledger_system.Prelude.Dict.{Dict, lookup}
use ledger_system.Treasury.Mapper.{
  ScenarioMapping, Variants, TupleOverride, ObjectTemplate, Candidate, Intent, override_of,
  object_templates, build, or_else,
}
use ledger_system.Treasury.Mapper.Payments.{
  no_override, register_payment, register_payroll, register_infrastructure, register_service_fee,
  register_tax, register_penalty, register_incentive, register_advance, register_loan,
}
use ledger_system.Treasury.Mapper.Table.{
  mappings, register_waiver, register_commission_accrual, register_direct_payment,
  register_commission_received, register_advance_settlement, register_rectification,
  register_loan_repayment, register_obligation_recognition,
}
use ledger_system.Treasury.Mapper.Slots.{ReissueObject, allows}
use ledger_system.Treasury.Mapper.Gate.{template_of, overrides, overrides_from}
use ledger_system.Treasury.Mapper.Admitted.{built_tuple, override_in}
use ledger_system.Treasury.Mapper.Announced.{all-entry}

abbrev pub recorded_template : ReissueObject → ObjectTemplate
recorded_template o = record { object_type = o.object_type; relation = o.relation }

unfoldable pub same_templates : List ObjectTemplate → List ObjectTemplate → Bool
same_templates [] [] = true
same_templates (s ∷ ss) (t ∷ ts) =
    s.object_type == t.object_type && s.relation == t.relation && same_templates ss ts
same_templates _ _ = false

pub same_templates-eq : (ss ts : List ObjectTemplate) → same_templates ss ts ≡ true → ss ≡ ts
unfolding same_templates
same_templates-eq [] [] h = refl
same_templates-eq [] (t ∷ ts) h = cc h
same_templates-eq (s ∷ ss) [] h = cc h
same_templates-eq (s ∷ ss) (t ∷ ts) h =
    let types = ==_true s.object_type t.object_type (ground (arith, h)) in
    let relations = ==_true s.relation t.relation (ground (arith, h)) in
    let rests = same_templates-eq ss ts (ground (arith, h)) in
    ap (λ x. record { object_type = x; relation = s.relation } ∷ ss) types
    ∙ ap (λ x. record { object_type = t.object_type; relation = x } ∷ ss) relations
    ∙ ap (λ x. t ∷ x) rests

-- The override gives the effect and the objects.
unfoldable pub gives : ScenarioMapping → TupleOverride → String → List ObjectTemplate → Bool
gives m p effect ts =
    or_else p.economic_effect m.economic_effect == effect
    && same_templates (object_templates m.objects p) ts

unfoldable pub choices : Dict TupleOverride → String → ObjectTemplate → Dict TupleOverride
choices by_choice effect t =
    filter
      (λ c.
        allows c.1.object_type (some t.object_type)
        && allows c.1.relation (some t.relation)
        && allows c.1.economic_effect (some effect))
      by_choice

-- The choice that is found is in the table, with an override that gives the effect and the objects.
unfoldable pub single_gives :
    ScenarioMapping → Dict TupleOverride → String → List ObjectTemplate → Dict TupleOverride → Bool
single_gives m by_choice effect ts (c ∷ []) = elim (lookup c.0 by_choice) [
  | none ↦ false
  | some p ↦ gives m p effect ts
]
single_gives m by_choice effect ts _ = false

unfoldable pub is_free : String → Bool
is_free slot =
    not (slot == "amount")
    && not (slot == "currency")
    && not (slot == "occurredAt")
    && not (slot == "description")

-- The branch of the scenario can be told by the effect and the objects, and gives them again.
unfoldable pub can_tell : ScenarioMapping → Option Variants → String → List ObjectTemplate → Bool
can_tell m none effect ts = gives m no_override effect ts
can_tell m (some v) effect [] = false
can_tell m (some v) effect (t ∷ ts) =
    not (t.relation == "references")
    && is_free v.selector_slot
    && single_gives m v.by_choice effect (t ∷ ts) (choices v.by_choice effect t)

abbrev pub retracting : List ObjectTemplate → Bool
retracting ts = any (λ o. o.relation == "retracts") ts

abbrev pub is_slot : Option String → String → Bool
is_slot none t = false
is_slot (some s) t = t == s

abbrev pub selector_of : Option Variants → Option String
selector_of none = none
selector_of (some v) = some v.selector_slot

-- A slot that is neither one that every plan answers, nor the due date, nor one of the others.
abbrev pub is_apart : Option String → Option String → Option String → Option String → Bool
is_apart none a b c = true
is_apart (some slot) a b c =
    is_free slot
    && not (slot == "dueAt")
    && not (is_slot a slot)
    && not (is_slot b slot)
    && not (is_slot c slot)

-- The slots of a scenario that a plan answers are different ones.
abbrev pub are_apart : ScenarioMapping → Bool
are_apart m =
    is_apart (selector_of m.variants) none none none
    && is_apart m.counterparty_slot (selector_of m.variants) none none
    && is_apart m.object_id_slot (selector_of m.variants) m.counterparty_slot none
    && is_apart m.related_event_slot (selector_of m.variants) m.counterparty_slot m.object_id_slot

pub table_apart : all (λ e. are_apart e.1) mappings ≡ true
unfolding is_free mappings register_payment register_payroll register_infrastructure
    register_service_fee register_tax register_penalty register_incentive register_advance
    register_loan register_waiver register_commission_accrual register_direct_payment
    register_commission_received register_advance_settlement register_rectification
    register_loan_repayment register_obligation_recognition
table_apart = refl

-- Also, what retracts has objects that do.
tells : ScenarioMapping → TupleOverride → Bool
tells m o =
    can_tell m m.variants (or_else o.economic_effect m.economic_effect)
      (object_templates m.objects o)
    && (not (retracting m.objects) || retracting (object_templates m.objects o))

table_tells : all (λ e. all (λ o. tells e.1 o) (overrides e.1.variants)) mappings ≡ true
unfolding tells can_tell is_free single_gives choices gives same_templates overrides overrides_from
    mappings object_templates register_payment register_payroll register_infrastructure
    register_service_fee register_tax register_penalty register_incentive register_advance
    register_loan register_waiver register_commission_accrual register_direct_payment
    register_commission_received register_advance_settlement register_rectification
    register_loan_repayment register_obligation_recognition
table_tells = refl

unfoldable pub by_event_type : String → Option (String × ScenarioMapping)
by_event_type event_type = find (λ e. e.1.event_type == event_type) mappings

-- No two scenarios have the same event type.
unfoldable pub Alone : String → ScenarioMapping → Type 0
Alone id m = by_event_type m.event_type ≡ some (id, m)

pub table-Alone : All (λ e. Alone e.0 e.1) mappings
unfolding Alone by_event_type mappings register_payment register_payroll register_infrastructure
    register_service_fee register_tax register_penalty register_incentive register_advance
    register_loan register_waiver register_commission_accrual register_direct_payment
    register_commission_received register_advance_settlement register_rectification
    register_loan_repayment register_obligation_recognition
table-Alone = (
  refl,
  (
    refl,
    (
      refl,
      (
        refl,
        (
          refl,
          (
            refl,
            (
              refl,
              (refl, (refl, (refl, (refl, (refl, (refl, (refl, (refl, (refl, (refl, tt)))))))))),
            ),
          ),
        ),
      ),
    ),
  ),
)

pub All-entry :
    {V : Type 0} (P : String → V → Type 0) (d : Dict V) (k : String) {v : V}
    → All (λ e. P e.0 e.1) d
    → lookup k d ≡ some v
    → P k v
All-entry P [] k h found = cc found
All-entry P ((j, w) ∷ d) k {v} (first, rest) found = elim (Bool-cases (k == j)) [
  | inl hit ↦
      subst (λ i. P i v) (sym (==_true k j hit))
        (subst (λ x. P j x) (some_injective (rw hit at found)) first)
  | inr miss ↦ All-entry P d k rest (rw miss at found)
]

pub built_facts :
    (to_iso : String → Option String) (usina_party_id : String) (intent : Intent)
    (unidentified : List String) (m : ScenarioMapping) {c : Candidate}
    → lookup intent.scenario_id mappings ≡ some m
    → build to_iso usina_party_id intent unidentified ≡ ok c
    → (m.event_type ≡ c.event_type)
      × (can_tell m m.variants c.economic_effect (map template_of c.objects) ≡ true)
      × (retracting m.objects ≡ true → retracting (map template_of c.objects) ≡ true)
unfolding build tells
built_facts to_iso usina_party_id intent unidentified m {c} found h =
    let (unknown, shape) =
      built_tuple to_iso usina_party_id intent unidentified m (rw (build, found) at h) in
    let told : tells m (override_of m.variants intent.answers) ≡ true =
      override_in (tells m) m.variants intent.answers (
        all-entry (λ k n. all (tells n) (overrides n.variants)) mappings intent.scenario_id
          table_tells found) in
    (
      sym (ap (λ t. t.event_type) shape),
      subst (λ t. can_tell m m.variants t.economic_effect t.objects ≡ true) (sym shape)
          (ground (arith, told)),
      λ h. subst (λ t. retracting t.objects ≡ true) (sym shape) (ground (arith, told, h)),
    )
