-- ===== src/Treasury/Mapper/Table.antt =====
-- The tuples of the other scenarios, and `MAPPINGS`
-- (treasury/src/core/application/services/CandidateMapper.ts).
use ledger_system.Prelude.{true, false, some, none, [], ◌∷◌}
use ledger_system.Prelude.Dict.{Dict}
use ledger_system.Treasury.Mapper.Shape.{Who, ScenarioMapping, ContinuityMode}
use ledger_system.Treasury.Mapper.Payments.{
  cash_in_parties, obligation_parties, one_party, no_override, register_payment, register_payroll,
  register_infrastructure, register_service_fee, register_tax, register_penalty, register_incentive,
  register_advance, register_loan,
}

unfoldable pub register_waiver : ScenarioMapping
register_waiver = record {
  event_type = "commission_waiver";
  economic_effect = "non_cash";
  counterparty_slot = some "payee";
  parties = one_party Who.counterparty "beneficiary";
  objects = record { object_type = "commission_entitlement"; relation = "settles" } ∷ [];
  reason_type = "commission_waiver";
  reason_text = "Commission waiver";
  variants = some (record {
    selector_slot = "basis";
    by_choice =
        ("waiver", record no_override { relation = some "settles" })
        ∷ ("reversal", record no_override { relation = some "reverses" })
        ∷ [];
  });
  related_event_slot = none;
  object_id_slot = none;
  orphan = none;
  continuity_mode = none;
  retroactive = none;
  followup_slot = none;
  inherits_counterparty = false;
}

unfoldable pub register_commission_accrual : ScenarioMapping
register_commission_accrual = record {
  event_type = "commission_expected";
  economic_effect = "non_cash";
  counterparty_slot = none;
  parties = one_party Who.usina "beneficiary";
  objects = record { object_type = "commission_receivable"; relation = "originates" } ∷ [];
  reason_type = "commission_accrual";
  reason_text = "Accrual of an expected commission";
  variants = none;
  related_event_slot = none;
  object_id_slot = none;
  orphan = none;
  continuity_mode = none;
  retroactive = none;
  followup_slot = none;
  inherits_counterparty = false;
}

unfoldable pub register_direct_payment : ScenarioMapping
register_direct_payment = record {
  event_type = "direct_payment_acknowledged";
  economic_effect = "non_cash";
  counterparty_slot = some "payee";
  parties = one_party Who.counterparty "beneficiary";
  objects =
      record { object_type = "commission_receivable"; relation = "settles" }
      ∷ record { object_type = "commission_entitlement"; relation = "settles" }
      ∷ [];
  reason_type = "direct_commission_payment_authorized";
  reason_text = "Operator paid the broker directly";
  variants = none;
  related_event_slot = none;
  object_id_slot = none;
  orphan = none;
  continuity_mode = none;
  retroactive = none;
  followup_slot = none;
  inherits_counterparty = false;
}

unfoldable pub register_commission_received : ScenarioMapping
register_commission_received = record {
  event_type = "commission_received";
  economic_effect = "cash_in";
  counterparty_slot = some "payer";
  parties = cash_in_parties;
  objects = record { object_type = "commission_receivable"; relation = "settles" } ∷ [];
  reason_type = "commission_payment";
  reason_text = "Commission received";
  variants = none;
  related_event_slot = some "origin";
  object_id_slot = some "objectRef";
  orphan = some (record {
    reason_type = "unknown_origin";
    reason_text = "Commission received; originating expected unknown";
  });
  continuity_mode = none;
  retroactive = none;
  followup_slot = none;
  inherits_counterparty = false;
}

unfoldable pub register_advance_settlement : ScenarioMapping
register_advance_settlement = record {
  event_type = "advance_settlement";
  economic_effect = "cash_in";
  counterparty_slot = some "payer";
  parties = cash_in_parties;
  objects = record { object_type = "advance"; relation = "settles" } ∷ [];
  reason_type = "advance_payment";
  reason_text = "Advance recovery";
  variants = none;
  related_event_slot = some "origin";
  object_id_slot = some "objectRef";
  orphan = none;
  continuity_mode = none;
  retroactive = none;
  followup_slot = none;
  inherits_counterparty = true;
}

unfoldable pub register_rectification : ScenarioMapping
register_rectification = record {
  event_type = "ledger_correction";
  economic_effect = "non_cash";
  counterparty_slot = none;
  parties = one_party Who.usina "platform";
  objects = record { object_type = "advance"; relation = "retracts" } ∷ [];
  reason_type = "data_reconciliation";
  reason_text = "Entry rectified: verified against the source, it never happened";
  variants = some (record {
    selector_slot = "objectType";
    by_choice =
        ("advance", record no_override { object_type = some "advance" })
        ∷ ("loan", record no_override { object_type = some "loan" })
        ∷ (
          "commission_receivable",
          record no_override { object_type = some "commission_receivable" },
        )
        ∷ [];
  });
  related_event_slot = some "target";
  object_id_slot = some "objectRef";
  orphan = none;
  continuity_mode = none;
  retroactive = none;
  followup_slot = some "reissue";
  inherits_counterparty = false;
}

unfoldable pub register_loan_repayment : ScenarioMapping
register_loan_repayment = record {
  event_type = "loan_repayment";
  economic_effect = "cash_in";
  counterparty_slot = some "payer";
  parties = cash_in_parties;
  objects = record { object_type = "loan"; relation = "settles" } ∷ [];
  reason_type = "loan_repayment";
  reason_text = "Loan repayment";
  variants = none;
  related_event_slot = some "origin";
  object_id_slot = some "objectRef";
  orphan = none;
  continuity_mode = none;
  retroactive = none;
  followup_slot = none;
  inherits_counterparty = true;
}

unfoldable pub register_obligation_recognition : ScenarioMapping
register_obligation_recognition = record {
  event_type = "obligation_recognized";
  economic_effect = "non_cash";
  counterparty_slot = some "payee";
  parties = obligation_parties;
  objects = record { object_type = "payable"; relation = "originates" } ∷ [];
  reason_type = "obligation_recognition";
  reason_text = "Obligation established by an external fact";
  variants = some (record {
    selector_slot = "kind";
    by_choice =
        ("payroll", record no_override { object_type = some "payroll" })
        ∷ ("service", record no_override { object_type = some "service_fee" })
        ∷ ("infrastructure", record no_override { object_type = some "infrastructure_cost" })
        ∷ ("tax", record no_override { object_type = some "tax" })
        ∷ ("other", record no_override { object_type = some "payable" })
        ∷ [];
  });
  related_event_slot = none;
  object_id_slot = some "objectRef";
  orphan = none;
  continuity_mode = some ContinuityMode.unoriginated;
  retroactive = some (record {
    reason_type = "late_awareness";
    reason_text = "Obligation identified after the payment was already recorded";
  });
  followup_slot = none;
  inherits_counterparty = false;
}

-- `MAPPINGS`
unfoldable pub mappings : Dict ScenarioMapping
mappings =
    ("register_payment", register_payment)
    ∷ ("register_payroll", register_payroll)
    ∷ ("register_infrastructure", register_infrastructure)
    ∷ ("register_service_fee", register_service_fee)
    ∷ ("register_tax", register_tax)
    ∷ ("register_penalty", register_penalty)
    ∷ ("register_incentive", register_incentive)
    ∷ ("register_advance", register_advance)
    ∷ ("register_loan", register_loan)
    ∷ ("register_waiver", register_waiver)
    ∷ ("register_commission_accrual", register_commission_accrual)
    ∷ ("register_direct_payment", register_direct_payment)
    ∷ ("register_commission_received", register_commission_received)
    ∷ ("register_advance_settlement", register_advance_settlement)
    ∷ ("register_rectification", register_rectification)
    ∷ ("register_loan_repayment", register_loan_repayment)
    ∷ ("register_obligation_recognition", register_obligation_recognition)
    ∷ []
