-- ===== src/Treasury/Mapper/Payments.antt =====
-- The tuples of the scenarios in which the usina pays: rows of `MAPPINGS`
-- (treasury/src/core/application/services/CandidateMapper.ts).
use ledger_system.Prelude.{String, true, false, some, none, List, [], ◌∷◌}
use ledger_system.Treasury.Mapper.Shape.{TupleOverride, Who, PartyTemplate, ScenarioMapping}

-- `cashInParties`
abbrev pub cash_in_parties : List PartyTemplate
cash_in_parties =
    record { who = Who.usina; role = "payee"; direction = "in"; carries_amount = true }
    ∷ record {
      who = Who.counterparty;
      role = "payer";
      direction = "neutral";
      carries_amount = true;
    }
    ∷ []

-- `cashOutParties`
abbrev pub cash_out_parties : List PartyTemplate
cash_out_parties =
    record { who = Who.usina; role = "payer"; direction = "out"; carries_amount = true }
    ∷ record {
      who = Who.counterparty;
      role = "payee";
      direction = "neutral";
      carries_amount = false;
    }
    ∷ []

-- `obligationParties`
abbrev pub obligation_parties : List PartyTemplate
obligation_parties =
    record { who = Who.usina; role = "payer"; direction = "neutral"; carries_amount = false }
    ∷ record {
      who = Who.counterparty;
      role = "payee";
      direction = "neutral";
      carries_amount = false;
    }
    ∷ []

-- A single party, to which no money moves.
abbrev pub one_party : Who → String → List PartyTemplate
one_party who role =
    record { who = who; role = role; direction = "neutral"; carries_amount = false } ∷ []

abbrev pub no_override : TupleOverride
no_override = record {
  economic_effect = none;
  object_type = none;
  relation = none;
  reason_type = none;
  reason_text = none;
}

unfoldable pub register_payment : ScenarioMapping
register_payment = record {
  event_type = "outbound_payment";
  economic_effect = "cash_out";
  counterparty_slot = some "payee";
  parties = cash_out_parties;
  objects = record { object_type = "payable"; relation = "settles" } ∷ [];
  reason_type = "ordinary_settlement";
  reason_text = "Ordinary settlement of a payable";
  variants = none;
  related_event_slot = none;
  object_id_slot = some "objectRef";
  orphan = none;
  continuity_mode = none;
  retroactive = none;
  followup_slot = none;
  inherits_counterparty = false;
}

unfoldable pub register_payroll : ScenarioMapping
register_payroll = record {
  event_type = "payroll_payment";
  economic_effect = "cash_out";
  counterparty_slot = some "payee";
  parties = cash_out_parties;
  objects = record { object_type = "payroll"; relation = "settles" } ∷ [];
  reason_type = "payroll_payment";
  reason_text = "Payroll payment";
  variants = none;
  related_event_slot = none;
  object_id_slot = some "objectRef";
  orphan = none;
  continuity_mode = none;
  retroactive = none;
  followup_slot = none;
  inherits_counterparty = true;
}

unfoldable pub register_infrastructure : ScenarioMapping
register_infrastructure = record {
  event_type = "infrastructure_expense";
  economic_effect = "cash_out";
  counterparty_slot = some "payee";
  parties = cash_out_parties;
  objects = record { object_type = "infrastructure_cost"; relation = "settles" } ∷ [];
  reason_type = "infrastructure_expense";
  reason_text = "Infrastructure expense";
  variants = none;
  related_event_slot = none;
  object_id_slot = some "objectRef";
  orphan = none;
  continuity_mode = none;
  retroactive = none;
  followup_slot = none;
  inherits_counterparty = false;
}

unfoldable pub register_service_fee : ScenarioMapping
register_service_fee = record {
  event_type = "service_fee_payment";
  economic_effect = "cash_out";
  counterparty_slot = some "payee";
  parties = cash_out_parties;
  objects = record { object_type = "service_fee"; relation = "settles" } ∷ [];
  reason_type = "service_fee_payment";
  reason_text = "Service fee payment";
  variants = none;
  related_event_slot = none;
  object_id_slot = some "objectRef";
  orphan = none;
  continuity_mode = none;
  retroactive = none;
  followup_slot = none;
  inherits_counterparty = false;
}

unfoldable pub register_tax : ScenarioMapping
register_tax = record {
  event_type = "tax_payment";
  economic_effect = "cash_out";
  counterparty_slot = some "payee";
  parties = cash_out_parties;
  objects = record { object_type = "tax"; relation = "settles" } ∷ [];
  reason_type = "tax_payment";
  reason_text = "Tax payment";
  variants = none;
  related_event_slot = none;
  object_id_slot = some "objectRef";
  orphan = none;
  continuity_mode = none;
  retroactive = none;
  followup_slot = none;
  inherits_counterparty = false;
}

unfoldable pub register_penalty : ScenarioMapping
register_penalty = record {
  event_type = "penalty_payment";
  economic_effect = "cash_out";
  counterparty_slot = some "payee";
  parties = cash_out_parties;
  objects = record { object_type = "penalty"; relation = "settles" } ∷ [];
  reason_type = "penalty_payment";
  reason_text = "Penalty payment";
  variants = none;
  related_event_slot = none;
  object_id_slot = none;
  orphan = none;
  continuity_mode = none;
  retroactive = none;
  followup_slot = none;
  inherits_counterparty = false;
}

unfoldable pub register_incentive : ScenarioMapping
register_incentive = record {
  event_type = "incentive_payment";
  economic_effect = "cash_out";
  counterparty_slot = some "payee";
  parties = cash_out_parties;
  objects = record { object_type = "incentive"; relation = "settles" } ∷ [];
  reason_type = "incentive_payment";
  reason_text = "Incentive payment";
  variants = some (record {
    selector_slot = "kind";
    by_choice =
        ("incentive", record no_override { object_type = some "incentive" })
        ∷ ("bonus", record no_override { object_type = some "bonus" })
        ∷ [];
  });
  related_event_slot = none;
  object_id_slot = none;
  orphan = none;
  continuity_mode = none;
  retroactive = none;
  followup_slot = none;
  inherits_counterparty = false;
}

unfoldable pub register_advance : ScenarioMapping
register_advance = record {
  event_type = "advance_payment";
  economic_effect = "cash_out";
  counterparty_slot = some "payee";
  parties = cash_out_parties;
  objects = record { object_type = "advance"; relation = "originates" } ∷ [];
  reason_type = "advance_payment";
  reason_text = "Advance disbursement";
  variants = none;
  related_event_slot = none;
  object_id_slot = none;
  orphan = none;
  continuity_mode = none;
  retroactive = none;
  followup_slot = none;
  inherits_counterparty = false;
}

unfoldable pub register_loan : ScenarioMapping
register_loan = record {
  event_type = "loan_origination";
  economic_effect = "cash_out";
  counterparty_slot = some "payee";
  parties = cash_out_parties;
  objects = record { object_type = "loan"; relation = "originates" } ∷ [];
  reason_type = "loan_origination";
  reason_text = "Loan origination";
  variants = none;
  related_event_slot = none;
  object_id_slot = none;
  orphan = none;
  continuity_mode = none;
  retroactive = none;
  followup_slot = none;
  inherits_counterparty = false;
}
