-- ===== src/Domain/Enums/Reasons.antt =====
-- Why an event was recorded, and how sure the reporter is (ledger/src/core/domain/enums). `values` is `Object.values` of
-- the enum, `place` the position in it, and `text` the string that stands for the constructor.
use ledger_system.Prelude.{
  ℕ, String, some, List, [], ◌∷◌, ◌≡◌, refl, true, ◌↔◌, Eq, eq_by, eq_by_iff, get_elem?,
}

pub data ReasonType : Type 0 where
  commission_payment commission_accrual direct_commission_payment_authorized commission_split
        late_identified_commission commission_waiver loan_origination loan_repayment
        loan_repayment_via_commission advance_payment debt_restructuring penalty_payment
        penalty_recognition chargeback dispute_opened loss_recognition late_awareness
        manual_correction data_reconciliation unknown_origin payroll_payment infrastructure_expense
        third_party_payment tax_payment service_fee_payment incentive_payment obligation_recognition
        ordinary_settlement :
      ReasonType

abbrev pub reason_type_place : ReasonType → ℕ
reason_type_place ReasonType.commission_payment = 0
reason_type_place ReasonType.commission_accrual = 1
reason_type_place ReasonType.direct_commission_payment_authorized = 2
reason_type_place ReasonType.commission_split = 3
reason_type_place ReasonType.late_identified_commission = 4
reason_type_place ReasonType.commission_waiver = 5
reason_type_place ReasonType.loan_origination = 6
reason_type_place ReasonType.loan_repayment = 7
reason_type_place ReasonType.loan_repayment_via_commission = 8
reason_type_place ReasonType.advance_payment = 9
reason_type_place ReasonType.debt_restructuring = 10
reason_type_place ReasonType.penalty_payment = 11
reason_type_place ReasonType.penalty_recognition = 12
reason_type_place ReasonType.chargeback = 13
reason_type_place ReasonType.dispute_opened = 14
reason_type_place ReasonType.loss_recognition = 15
reason_type_place ReasonType.late_awareness = 16
reason_type_place ReasonType.manual_correction = 17
reason_type_place ReasonType.data_reconciliation = 18
reason_type_place ReasonType.unknown_origin = 19
reason_type_place ReasonType.payroll_payment = 20
reason_type_place ReasonType.infrastructure_expense = 21
reason_type_place ReasonType.third_party_payment = 22
reason_type_place ReasonType.tax_payment = 23
reason_type_place ReasonType.service_fee_payment = 24
reason_type_place ReasonType.incentive_payment = 25
reason_type_place ReasonType.obligation_recognition = 26
reason_type_place ReasonType.ordinary_settlement = 27

abbrev pub reason_type_values : List ReasonType
reason_type_values =
    ReasonType.commission_payment ∷ ReasonType.commission_accrual
    ∷ ReasonType.direct_commission_payment_authorized ∷ ReasonType.commission_split
    ∷ ReasonType.late_identified_commission ∷ ReasonType.commission_waiver
    ∷ ReasonType.loan_origination ∷ ReasonType.loan_repayment
    ∷ ReasonType.loan_repayment_via_commission ∷ ReasonType.advance_payment
    ∷ ReasonType.debt_restructuring ∷ ReasonType.penalty_payment ∷ ReasonType.penalty_recognition
    ∷ ReasonType.chargeback ∷ ReasonType.dispute_opened ∷ ReasonType.loss_recognition
    ∷ ReasonType.late_awareness ∷ ReasonType.manual_correction ∷ ReasonType.data_reconciliation
    ∷ ReasonType.unknown_origin ∷ ReasonType.payroll_payment ∷ ReasonType.infrastructure_expense
    ∷ ReasonType.third_party_payment ∷ ReasonType.tax_payment ∷ ReasonType.service_fee_payment
    ∷ ReasonType.incentive_payment ∷ ReasonType.obligation_recognition
    ∷ ReasonType.ordinary_settlement ∷ []

abbrev pub reason_type_text : ReasonType → String
reason_type_text ReasonType.commission_payment = "commission_payment"
reason_type_text ReasonType.commission_accrual = "commission_accrual"
reason_type_text ReasonType.direct_commission_payment_authorized =
    "direct_commission_payment_authorized"
reason_type_text ReasonType.commission_split = "commission_split"
reason_type_text ReasonType.late_identified_commission = "late_identified_commission"
reason_type_text ReasonType.commission_waiver = "commission_waiver"
reason_type_text ReasonType.loan_origination = "loan_origination"
reason_type_text ReasonType.loan_repayment = "loan_repayment"
reason_type_text ReasonType.loan_repayment_via_commission = "loan_repayment_via_commission"
reason_type_text ReasonType.advance_payment = "advance_payment"
reason_type_text ReasonType.debt_restructuring = "debt_restructuring"
reason_type_text ReasonType.penalty_payment = "penalty_payment"
reason_type_text ReasonType.penalty_recognition = "penalty_recognition"
reason_type_text ReasonType.chargeback = "chargeback"
reason_type_text ReasonType.dispute_opened = "dispute_opened"
reason_type_text ReasonType.loss_recognition = "loss_recognition"
reason_type_text ReasonType.late_awareness = "late_awareness"
reason_type_text ReasonType.manual_correction = "manual_correction"
reason_type_text ReasonType.data_reconciliation = "data_reconciliation"
reason_type_text ReasonType.unknown_origin = "unknown_origin"
reason_type_text ReasonType.payroll_payment = "payroll_payment"
reason_type_text ReasonType.infrastructure_expense = "infrastructure_expense"
reason_type_text ReasonType.third_party_payment = "third_party_payment"
reason_type_text ReasonType.tax_payment = "tax_payment"
reason_type_text ReasonType.service_fee_payment = "service_fee_payment"
reason_type_text ReasonType.incentive_payment = "incentive_payment"
reason_type_text ReasonType.obligation_recognition = "obligation_recognition"
reason_type_text ReasonType.ordinary_settlement = "ordinary_settlement"

pub get_elem?-reason_type_place :
    (a : ReasonType) → get_elem? reason_type_values (reason_type_place a) ≡ some a
get_elem?-reason_type_place ReasonType.commission_payment = refl
get_elem?-reason_type_place _ = refl

pub reason_type_eq_iff : (a b : ReasonType) → (eq_by reason_type_place a b ≡ true) ↔ (a ≡ b)
reason_type_eq_iff =
    eq_by_iff reason_type_place (get_elem? reason_type_values) get_elem?-reason_type_place

instance abbrev pub reason_type_eq : Eq ReasonType
reason_type_eq = record { beq = eq_by reason_type_place; beq_iff = reason_type_eq_iff }

pub data ConfidenceLevel : Type 0 where
  high medium low : ConfidenceLevel

abbrev pub confidence_level_place : ConfidenceLevel → ℕ
confidence_level_place ConfidenceLevel.high = 0
confidence_level_place ConfidenceLevel.medium = 1
confidence_level_place ConfidenceLevel.low = 2

abbrev pub confidence_level_values : List ConfidenceLevel
confidence_level_values = ConfidenceLevel.high ∷ ConfidenceLevel.medium ∷ ConfidenceLevel.low ∷ []

abbrev pub confidence_level_text : ConfidenceLevel → String
confidence_level_text ConfidenceLevel.high = "high"
confidence_level_text ConfidenceLevel.medium = "medium"
confidence_level_text ConfidenceLevel.low = "low"

pub get_elem?-confidence_level_place :
    (a : ConfidenceLevel) → get_elem? confidence_level_values (confidence_level_place a) ≡ some a
get_elem?-confidence_level_place ConfidenceLevel.high = refl
get_elem?-confidence_level_place _ = refl

pub confidence_level_eq_iff :
    (a b : ConfidenceLevel) → (eq_by confidence_level_place a b ≡ true) ↔ (a ≡ b)
confidence_level_eq_iff =
    eq_by_iff confidence_level_place (get_elem? confidence_level_values)
      get_elem?-confidence_level_place

instance abbrev pub confidence_level_eq : Eq ConfidenceLevel
confidence_level_eq = record {
  beq = eq_by confidence_level_place;
  beq_iff = confidence_level_eq_iff;
}
