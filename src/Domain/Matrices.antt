-- ===== src/Domain/Matrices.antt =====
-- The formal matrices (ledger/src/core/domain/policies/FormalMatrices.ts). A key that a partial
-- matrix does not list has `none`, which the source reads as `undefined`.
use ledger_system.Prelude.{Option, none, some, List, [], ◌∷◌}
use ledger_system.Domain.Enums.{EconomicEffect, Relation, ObjectType, ObjectNature, ReasonType}

unfoldable pub economic_effect_relation_matrix : EconomicEffect → List Relation
economic_effect_relation_matrix EconomicEffect.cash_in = Relation.originates ∷ Relation.settles ∷ []
economic_effect_relation_matrix EconomicEffect.cash_out =
    Relation.originates ∷ Relation.settles ∷ []
economic_effect_relation_matrix EconomicEffect.cash_internal = Relation.adjusts ∷ []
economic_effect_relation_matrix EconomicEffect.non_cash =
    Relation.originates ∷ Relation.adjusts ∷ Relation.settles ∷ Relation.reverses
    ∷ Relation.retracts ∷ []
economic_effect_relation_matrix EconomicEffect.contingent =
    Relation.originates ∷ Relation.adjusts ∷ []

unfoldable pub object_nature_matrix : ObjectType → ObjectNature
object_nature_matrix ObjectType.commission_entitlement = ObjectNature.positional
object_nature_matrix ObjectType.commission_pool = ObjectNature.positional
object_nature_matrix ObjectType.commission_receivable = ObjectNature.positional
object_nature_matrix ObjectType.commission_payable = ObjectNature.positional
object_nature_matrix ObjectType.loan = ObjectNature.positional
object_nature_matrix ObjectType.advance = ObjectNature.positional
object_nature_matrix ObjectType.receivable = ObjectNature.positional
object_nature_matrix ObjectType.payable = ObjectNature.positional
object_nature_matrix ObjectType.penalty = ObjectNature.positional
object_nature_matrix ObjectType.chargeback = ObjectNature.positional
object_nature_matrix ObjectType.contingent_claim = ObjectNature.positional
object_nature_matrix ObjectType.dispute = ObjectNature.positional
object_nature_matrix ObjectType.incentive = ObjectNature.positional
object_nature_matrix ObjectType.bonus = ObjectNature.positional
object_nature_matrix ObjectType.payroll = ObjectNature.positional
object_nature_matrix ObjectType.service_fee = ObjectNature.positional
object_nature_matrix ObjectType.infrastructure_cost = ObjectNature.positional
object_nature_matrix ObjectType.tax = ObjectNature.positional
object_nature_matrix ObjectType.contract = ObjectNature.contextual
object_nature_matrix ObjectType.proposal = ObjectNature.contextual
object_nature_matrix ObjectType.installment = ObjectNature.contextual
object_nature_matrix ObjectType.settlement_batch = ObjectNature.contextual
object_nature_matrix ObjectType.campaign = ObjectNature.contextual

unfoldable pub object_relation_matrix : ObjectType → Option (List Relation)
object_relation_matrix ObjectType.commission_entitlement = some (
    Relation.originates ∷ Relation.adjusts ∷ Relation.settles ∷ Relation.reverses
    ∷ Relation.retracts ∷ [])
object_relation_matrix ObjectType.commission_pool =
    some (Relation.adjusts ∷ Relation.reverses ∷ Relation.retracts ∷ [])
object_relation_matrix ObjectType.commission_receivable = some (
    Relation.originates ∷ Relation.adjusts ∷ Relation.settles ∷ Relation.reverses
    ∷ Relation.retracts ∷ [])
object_relation_matrix ObjectType.commission_payable = some (
    Relation.originates ∷ Relation.adjusts ∷ Relation.settles ∷ Relation.reverses
    ∷ Relation.retracts ∷ [])
object_relation_matrix ObjectType.loan = some (
    Relation.originates ∷ Relation.adjusts ∷ Relation.settles ∷ Relation.reverses
    ∷ Relation.retracts ∷ [])
object_relation_matrix ObjectType.advance = some (
    Relation.originates ∷ Relation.adjusts ∷ Relation.settles ∷ Relation.reverses
    ∷ Relation.retracts ∷ [])
object_relation_matrix ObjectType.receivable = some (
    Relation.originates ∷ Relation.adjusts ∷ Relation.settles ∷ Relation.reverses
    ∷ Relation.retracts ∷ [])
object_relation_matrix ObjectType.payable = some (
    Relation.originates ∷ Relation.adjusts ∷ Relation.settles ∷ Relation.reverses
    ∷ Relation.retracts ∷ [])
object_relation_matrix ObjectType.penalty = some (
    Relation.originates ∷ Relation.adjusts ∷ Relation.settles ∷ Relation.reverses
    ∷ Relation.retracts ∷ [])
object_relation_matrix ObjectType.chargeback =
    some (Relation.originates ∷ Relation.settles ∷ Relation.reverses ∷ Relation.retracts ∷ [])
object_relation_matrix ObjectType.contingent_claim =
    some (Relation.originates ∷ Relation.adjusts ∷ Relation.reverses ∷ Relation.retracts ∷ [])
object_relation_matrix ObjectType.dispute =
    some (Relation.originates ∷ Relation.settles ∷ Relation.reverses ∷ Relation.retracts ∷ [])
object_relation_matrix ObjectType.incentive = some (
    Relation.originates ∷ Relation.adjusts ∷ Relation.settles ∷ Relation.reverses
    ∷ Relation.retracts ∷ [])
object_relation_matrix ObjectType.bonus =
    some (Relation.originates ∷ Relation.settles ∷ Relation.retracts ∷ [])
object_relation_matrix ObjectType.payroll =
    some (Relation.originates ∷ Relation.settles ∷ Relation.retracts ∷ [])
object_relation_matrix ObjectType.service_fee =
    some (Relation.originates ∷ Relation.settles ∷ Relation.retracts ∷ [])
object_relation_matrix ObjectType.infrastructure_cost =
    some (Relation.originates ∷ Relation.settles ∷ Relation.retracts ∷ [])
object_relation_matrix ObjectType.tax =
    some (Relation.originates ∷ Relation.settles ∷ Relation.retracts ∷ [])
object_relation_matrix ObjectType.contract = some (Relation.references ∷ [])
object_relation_matrix ObjectType.proposal = some (Relation.references ∷ [])
object_relation_matrix ObjectType.installment = some (Relation.references ∷ [])
object_relation_matrix ObjectType.settlement_batch = some (Relation.references ∷ [])
object_relation_matrix ObjectType.campaign = some (Relation.references ∷ [])

unfoldable pub reason_effect_matrix : ReasonType → Option (List EconomicEffect)
reason_effect_matrix ReasonType.ordinary_settlement = some (EconomicEffect.cash_out ∷ [])
reason_effect_matrix ReasonType.commission_payment = some (EconomicEffect.cash_in ∷ [])
reason_effect_matrix ReasonType.direct_commission_payment_authorized =
    some (EconomicEffect.cash_in ∷ EconomicEffect.non_cash ∷ [])
reason_effect_matrix ReasonType.commission_split =
    some (EconomicEffect.cash_internal ∷ EconomicEffect.cash_out ∷ [])
reason_effect_matrix ReasonType.late_identified_commission = some (EconomicEffect.non_cash ∷ [])
reason_effect_matrix ReasonType.commission_accrual = some (EconomicEffect.non_cash ∷ [])
reason_effect_matrix ReasonType.commission_waiver = some (EconomicEffect.non_cash ∷ [])
reason_effect_matrix ReasonType.loan_origination = some (EconomicEffect.cash_out ∷ [])
reason_effect_matrix ReasonType.loan_repayment = some (EconomicEffect.cash_in ∷ [])
reason_effect_matrix ReasonType.loan_repayment_via_commission =
    some (EconomicEffect.non_cash ∷ EconomicEffect.cash_internal ∷ [])
reason_effect_matrix ReasonType.advance_payment =
    some (EconomicEffect.cash_out ∷ EconomicEffect.non_cash ∷ EconomicEffect.cash_in ∷ [])
reason_effect_matrix ReasonType.debt_restructuring = some (EconomicEffect.non_cash ∷ [])
reason_effect_matrix ReasonType.penalty_payment = some (EconomicEffect.cash_out ∷ [])
reason_effect_matrix ReasonType.penalty_recognition =
    some (EconomicEffect.contingent ∷ EconomicEffect.non_cash ∷ [])
reason_effect_matrix ReasonType.chargeback =
    some (EconomicEffect.cash_out ∷ EconomicEffect.non_cash ∷ [])
reason_effect_matrix ReasonType.dispute_opened = some (EconomicEffect.contingent ∷ [])
reason_effect_matrix ReasonType.loss_recognition = some (EconomicEffect.non_cash ∷ [])
reason_effect_matrix ReasonType.payroll_payment = some (EconomicEffect.cash_out ∷ [])
reason_effect_matrix ReasonType.infrastructure_expense = some (EconomicEffect.cash_out ∷ [])
reason_effect_matrix ReasonType.third_party_payment = some (EconomicEffect.cash_out ∷ [])
reason_effect_matrix ReasonType.tax_payment = some (EconomicEffect.cash_out ∷ [])
reason_effect_matrix ReasonType.service_fee_payment = some (EconomicEffect.cash_out ∷ [])
reason_effect_matrix ReasonType.incentive_payment =
    some (EconomicEffect.cash_out ∷ EconomicEffect.non_cash ∷ [])
reason_effect_matrix ReasonType.obligation_recognition = some (EconomicEffect.non_cash ∷ [])
reason_effect_matrix ReasonType.manual_correction = some (EconomicEffect.non_cash ∷ [])
reason_effect_matrix ReasonType.data_reconciliation = some (EconomicEffect.non_cash ∷ [])
reason_effect_matrix ReasonType.late_awareness = none
reason_effect_matrix ReasonType.unknown_origin = none

unfoldable pub reason_relation_matrix : ReasonType → Option (List Relation)
reason_relation_matrix ReasonType.ordinary_settlement = some (Relation.settles ∷ [])
reason_relation_matrix ReasonType.commission_payment = some (Relation.settles ∷ [])
reason_relation_matrix ReasonType.direct_commission_payment_authorized =
    some (Relation.settles ∷ [])
reason_relation_matrix ReasonType.commission_split =
    some (Relation.adjusts ∷ Relation.settles ∷ Relation.originates ∷ [])
reason_relation_matrix ReasonType.late_identified_commission =
    some (Relation.originates ∷ Relation.adjusts ∷ [])
reason_relation_matrix ReasonType.commission_accrual = some (Relation.originates ∷ [])
reason_relation_matrix ReasonType.commission_waiver =
    some (Relation.settles ∷ Relation.reverses ∷ [])
reason_relation_matrix ReasonType.loan_origination = some (Relation.originates ∷ [])
reason_relation_matrix ReasonType.loan_repayment = some (Relation.settles ∷ [])
reason_relation_matrix ReasonType.loan_repayment_via_commission =
    some (Relation.settles ∷ Relation.adjusts ∷ [])
reason_relation_matrix ReasonType.advance_payment =
    some (Relation.originates ∷ Relation.adjusts ∷ Relation.settles ∷ [])
reason_relation_matrix ReasonType.debt_restructuring = some (Relation.adjusts ∷ [])
reason_relation_matrix ReasonType.penalty_payment = some (Relation.settles ∷ [])
reason_relation_matrix ReasonType.penalty_recognition = some (Relation.originates ∷ [])
reason_relation_matrix ReasonType.chargeback = some (Relation.originates ∷ Relation.settles ∷ [])
reason_relation_matrix ReasonType.dispute_opened = some (Relation.originates ∷ [])
reason_relation_matrix ReasonType.loss_recognition =
    some (Relation.originates ∷ Relation.settles ∷ [])
reason_relation_matrix ReasonType.payroll_payment = some (Relation.settles ∷ [])
reason_relation_matrix ReasonType.infrastructure_expense = some (Relation.settles ∷ [])
reason_relation_matrix ReasonType.third_party_payment =
    some (Relation.originates ∷ Relation.settles ∷ [])
reason_relation_matrix ReasonType.tax_payment = some (Relation.settles ∷ [])
reason_relation_matrix ReasonType.service_fee_payment = some (Relation.settles ∷ [])
reason_relation_matrix ReasonType.incentive_payment =
    some (Relation.originates ∷ Relation.settles ∷ [])
reason_relation_matrix ReasonType.obligation_recognition = some (Relation.originates ∷ [])
reason_relation_matrix ReasonType.manual_correction =
    some (Relation.reverses ∷ Relation.adjusts ∷ Relation.retracts ∷ [])
reason_relation_matrix ReasonType.data_reconciliation =
    some (Relation.reverses ∷ Relation.adjusts ∷ Relation.retracts ∷ [])
reason_relation_matrix ReasonType.late_awareness = none
reason_relation_matrix ReasonType.unknown_origin = none
