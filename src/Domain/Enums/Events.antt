-- ===== src/Domain/Enums/Events.antt =====
-- What an event is, what it does to cash, and how it touches an economic object (ledger/src/core/domain/enums). `values` is `Object.values` of
-- the enum, `place` the position in it, and `text` the string that stands for the constructor.
use ledger_system.Prelude.{
  ℕ, String, some, List, [], ◌∷◌, ◌≡◌, refl, true, ◌↔◌, Eq, eq_by, eq_by_iff, get_elem?,
}

pub data EventType : Type 0 where
  payroll_payment infrastructure_expense commission_received commission_split commission_waiver
        penalty_payment advance_payment advance_settlement loan_origination loan_repayment
        direct_payment_acknowledged incentive_payment ledger_correction commission_expected
        outbound_payment service_fee_payment tax_payment obligation_recognized :
      EventType

abbrev pub event_type_place : EventType → ℕ
event_type_place EventType.payroll_payment = 0
event_type_place EventType.infrastructure_expense = 1
event_type_place EventType.commission_received = 2
event_type_place EventType.commission_split = 3
event_type_place EventType.commission_waiver = 4
event_type_place EventType.penalty_payment = 5
event_type_place EventType.advance_payment = 6
event_type_place EventType.advance_settlement = 7
event_type_place EventType.loan_origination = 8
event_type_place EventType.loan_repayment = 9
event_type_place EventType.direct_payment_acknowledged = 10
event_type_place EventType.incentive_payment = 11
event_type_place EventType.ledger_correction = 12
event_type_place EventType.commission_expected = 13
event_type_place EventType.outbound_payment = 14
event_type_place EventType.service_fee_payment = 15
event_type_place EventType.tax_payment = 16
event_type_place EventType.obligation_recognized = 17

abbrev pub event_type_values : List EventType
event_type_values =
    EventType.payroll_payment ∷ EventType.infrastructure_expense ∷ EventType.commission_received
    ∷ EventType.commission_split ∷ EventType.commission_waiver ∷ EventType.penalty_payment
    ∷ EventType.advance_payment ∷ EventType.advance_settlement ∷ EventType.loan_origination
    ∷ EventType.loan_repayment ∷ EventType.direct_payment_acknowledged ∷ EventType.incentive_payment
    ∷ EventType.ledger_correction ∷ EventType.commission_expected ∷ EventType.outbound_payment
    ∷ EventType.service_fee_payment ∷ EventType.tax_payment ∷ EventType.obligation_recognized ∷ []

abbrev pub event_type_text : EventType → String
event_type_text EventType.payroll_payment = "payroll_payment"
event_type_text EventType.infrastructure_expense = "infrastructure_expense"
event_type_text EventType.commission_received = "commission_received"
event_type_text EventType.commission_split = "commission_split"
event_type_text EventType.commission_waiver = "commission_waiver"
event_type_text EventType.penalty_payment = "penalty_payment"
event_type_text EventType.advance_payment = "advance_payment"
event_type_text EventType.advance_settlement = "advance_settlement"
event_type_text EventType.loan_origination = "loan_origination"
event_type_text EventType.loan_repayment = "loan_repayment"
event_type_text EventType.direct_payment_acknowledged = "direct_payment_acknowledged"
event_type_text EventType.incentive_payment = "incentive_payment"
event_type_text EventType.ledger_correction = "ledger_correction"
event_type_text EventType.commission_expected = "commission_expected"
event_type_text EventType.outbound_payment = "outbound_payment"
event_type_text EventType.service_fee_payment = "service_fee_payment"
event_type_text EventType.tax_payment = "tax_payment"
event_type_text EventType.obligation_recognized = "obligation_recognized"

pub get_elem?-event_type_place :
    (a : EventType) → get_elem? event_type_values (event_type_place a) ≡ some a
get_elem?-event_type_place EventType.payroll_payment = refl
get_elem?-event_type_place _ = refl

pub event_type_eq_iff : (a b : EventType) → (eq_by event_type_place a b ≡ true) ↔ (a ≡ b)
event_type_eq_iff =
    eq_by_iff event_type_place (get_elem? event_type_values) get_elem?-event_type_place

instance abbrev pub event_type_eq : Eq EventType
event_type_eq = record { beq = eq_by event_type_place; beq_iff = event_type_eq_iff }

pub data EconomicEffect : Type 0 where
  cash_in cash_out cash_internal non_cash contingent : EconomicEffect

abbrev pub economic_effect_place : EconomicEffect → ℕ
economic_effect_place EconomicEffect.cash_in = 0
economic_effect_place EconomicEffect.cash_out = 1
economic_effect_place EconomicEffect.cash_internal = 2
economic_effect_place EconomicEffect.non_cash = 3
economic_effect_place EconomicEffect.contingent = 4

abbrev pub economic_effect_values : List EconomicEffect
economic_effect_values =
    EconomicEffect.cash_in ∷ EconomicEffect.cash_out ∷ EconomicEffect.cash_internal
    ∷ EconomicEffect.non_cash ∷ EconomicEffect.contingent ∷ []

abbrev pub economic_effect_text : EconomicEffect → String
economic_effect_text EconomicEffect.cash_in = "cash_in"
economic_effect_text EconomicEffect.cash_out = "cash_out"
economic_effect_text EconomicEffect.cash_internal = "cash_internal"
economic_effect_text EconomicEffect.non_cash = "non_cash"
economic_effect_text EconomicEffect.contingent = "contingent"

pub get_elem?-economic_effect_place :
    (a : EconomicEffect) → get_elem? economic_effect_values (economic_effect_place a) ≡ some a
get_elem?-economic_effect_place EconomicEffect.cash_in = refl
get_elem?-economic_effect_place _ = refl

pub economic_effect_eq_iff :
    (a b : EconomicEffect) → (eq_by economic_effect_place a b ≡ true) ↔ (a ≡ b)
economic_effect_eq_iff =
    eq_by_iff economic_effect_place (get_elem? economic_effect_values)
      get_elem?-economic_effect_place

instance abbrev pub economic_effect_eq : Eq EconomicEffect
economic_effect_eq = record { beq = eq_by economic_effect_place; beq_iff = economic_effect_eq_iff }

pub data Relation : Type 0 where
  originates adjusts settles reverses references retracts : Relation

abbrev pub relation_place : Relation → ℕ
relation_place Relation.originates = 0
relation_place Relation.adjusts = 1
relation_place Relation.settles = 2
relation_place Relation.reverses = 3
relation_place Relation.references = 4
relation_place Relation.retracts = 5

abbrev pub relation_values : List Relation
relation_values =
    Relation.originates ∷ Relation.adjusts ∷ Relation.settles ∷ Relation.reverses
    ∷ Relation.references ∷ Relation.retracts ∷ []

abbrev pub relation_text : Relation → String
relation_text Relation.originates = "originates"
relation_text Relation.adjusts = "adjusts"
relation_text Relation.settles = "settles"
relation_text Relation.reverses = "reverses"
relation_text Relation.references = "references"
relation_text Relation.retracts = "retracts"

pub get_elem?-relation_place :
    (a : Relation) → get_elem? relation_values (relation_place a) ≡ some a
get_elem?-relation_place Relation.originates = refl
get_elem?-relation_place _ = refl

pub relation_eq_iff : (a b : Relation) → (eq_by relation_place a b ≡ true) ↔ (a ≡ b)
relation_eq_iff = eq_by_iff relation_place (get_elem? relation_values) get_elem?-relation_place

instance abbrev pub relation_eq : Eq Relation
relation_eq = record { beq = eq_by relation_place; beq_iff = relation_eq_iff }
