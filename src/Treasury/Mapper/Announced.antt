-- ===== src/Treasury/Mapper/Announced.antt =====
-- The tuples that `producibleTuples` lists, and what `build` makes
-- (treasury/src/core/application/services/CandidateMapper.ts).
use ledger_system.Prelude.{
  String, Bool, true, ◌&&◌, ◌==◌, string_eq, Option, some, List, [], ◌∷◌, any, all, length, ltb,
  not, ◌||◌, ◌≡◌, refl, sym, subst, ok, inl, inr, Bool-cases, Option-cases, some_injective, arith,
  ==_true,
}
use ledger_system.Prelude.Dict.{Dict, lookup}
use ledger_system.Treasury.Mapper.{
  ObjectTemplate, Candidate, Intent, override_of, object_templates, build,
}
use ledger_system.Treasury.Mapper.Payments.{
  register_payment, register_payroll, register_infrastructure, register_service_fee, register_tax,
  register_penalty, register_incentive, register_advance, register_loan,
}
use ledger_system.Treasury.Mapper.Table.{
  mappings, register_waiver, register_commission_accrual, register_direct_payment,
  register_commission_received, register_advance_settlement, register_rectification,
  register_loan_repayment, register_obligation_recognition,
}
use ledger_system.Treasury.Mapper.Tuples.{ProducibleTuple, producible_tuples}
use ledger_system.Treasury.Mapper.Gate.{tuple_of, overrides, overrides_from}
use ledger_system.Treasury.Mapper.Admitted.{built_tuple, override_in}

same_flag : Bool → Bool → Bool
same_flag x y = (x && y) || (not x && not y)

-- The tuple is of the scenario and the event, names the object, and says whether there are others.
speaks_of : String → String → Bool → ObjectTemplate → ProducibleTuple → Bool
speaks_of id event_type others o t =
    t.scenario_id == id
    && t.event_type == event_type
    && t.object_type == o.object_type
    && t.relation == o.relation
    && same_flag t.touches_other_positions others

-- Each object of an event of a scenario is in the list of producible tuples.
pub are_announced : String → String → List ObjectTemplate → Bool
are_announced id event_type os =
    all (λ o. any (speaks_of id event_type (ltb 1 (length os)) o) producible_tuples) os

table_announced :
    all
      (λ e.
        all
          (λ o. are_announced e.0 e.1.event_type (object_templates e.1.objects o))
          (overrides e.1.variants))
      mappings
    ≡ true
unfolding are_announced speaks_of same_flag producible_tuples overrides overrides_from mappings
    object_templates register_payment register_payroll register_infrastructure register_service_fee
    register_tax register_penalty register_incentive register_advance register_loan register_waiver
    register_commission_accrual register_direct_payment register_commission_received
    register_advance_settlement register_rectification register_loan_repayment
    register_obligation_recognition
table_announced = refl

-- A table of which every entry passes a test that also reads its key.
pub all-entry :
    {V : Type 0} (p : String → V → Bool) (d : Dict V) (k : String) {v : V}
    → all (λ e. p e.0 e.1) d ≡ true
    → lookup k d ≡ some v
    → p k v ≡ true
all-entry p [] k h found = cc found
all-entry p ((j, w) ∷ d) k {v} h found = elim (Bool-cases (k == j)) [
  | inl hit ↦
      subst (λ i. p i v ≡ true) (sym (==_true k j hit))
        (subst (λ x. p j x ≡ true) (some_injective (rw hit at found)) (ground (arith, h)))
  | inr miss ↦ all-entry p d k (ground (arith, h)) (rw miss at found)
]

-- Every candidate that `build` makes, of whatever scenario, answers and choice, is announced:
-- `producibleTuples` lists each of its objects under its scenario and its event, and says that
-- other positions are touched exactly where the candidate has more than one object.
pub build_announced :
    (to_iso : String → Option String) (usina_party_id : String) (intent : Intent)
    (unidentified : List String) {c : Candidate}
    → build to_iso usina_party_id intent unidentified ≡ ok c
    → are_announced intent.scenario_id c.event_type (tuple_of c).objects ≡ true
unfolding build
build_announced to_iso usina_party_id intent unidentified {c} h =
    elim (Option-cases (lookup intent.scenario_id mappings)) [
      | inl absent ↦ cc (rw (build, absent) at h)
      | inr (m, found) ↦
          let id = intent.scenario_id in
          let o = override_of m.variants intent.answers in
          let (unknown, shape) =
            built_tuple to_iso usina_party_id intent unidentified m (rw (build, found) at h) in
          let listed : are_announced id m.event_type (object_templates m.objects o) ≡ true =
            override_in (λ p. are_announced id m.event_type (object_templates m.objects p))
              m.variants intent.answers
              (all-entry
                (λ k n.
                  all (λ p. are_announced k n.event_type (object_templates n.objects p))
                    (overrides n.variants))
                mappings id table_announced found) in
          subst (λ t. are_announced id t.event_type t.objects ≡ true) (sym shape) listed
    ]
