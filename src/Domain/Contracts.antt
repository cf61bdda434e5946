-- ===== src/Domain/Contracts.antt =====
-- The semantic contract of each event type (ledger/src/core/domain/contracts).
mod Shape
mod Commissions
mod Payments
mod Credit
mod Records
pub use Shape.{ContractObject, EventSemanticContract}
pub use Commissions.{
  commission_split_contract, commission_received_contract, commission_waiver_contract,
  direct_payment_acknowledged_contract, commission_expected_contract,
}
pub use Payments.{
  payroll_payment_contract, penalty_payment_contract, infrastructure_expense_contract,
  service_fee_payment_contract, tax_payment_contract, outbound_payment_contract,
  incentive_payment_contract,
}
pub use Credit.{
  advance_payment_contract, advance_settlement_contract, loan_origination_contract,
  loan_repayment_contract,
}
pub use Records.{ledger_correction_contract, obligation_recognized_contract}
use ledger_system.Domain.Enums.{EventType}

unfoldable pub event_contracts : EventType → EventSemanticContract
event_contracts EventType.commission_split = commission_split_contract
event_contracts EventType.payroll_payment = payroll_payment_contract
event_contracts EventType.commission_received = commission_received_contract
event_contracts EventType.commission_waiver = commission_waiver_contract
event_contracts EventType.penalty_payment = penalty_payment_contract
event_contracts EventType.advance_payment = advance_payment_contract
event_contracts EventType.infrastructure_expense = infrastructure_expense_contract
event_contracts EventType.service_fee_payment = service_fee_payment_contract
event_contracts EventType.tax_payment = tax_payment_contract
event_contracts EventType.outbound_payment = outbound_payment_contract
event_contracts EventType.advance_settlement = advance_settlement_contract
event_contracts EventType.loan_origination = loan_origination_contract
event_contracts EventType.loan_repayment = loan_repayment_contract
event_contracts EventType.direct_payment_acknowledged = direct_payment_acknowledged_contract
event_contracts EventType.incentive_payment = incentive_payment_contract
event_contracts EventType.ledger_correction = ledger_correction_contract
event_contracts EventType.commission_expected = commission_expected_contract
event_contracts EventType.obligation_recognized = obligation_recognized_contract
