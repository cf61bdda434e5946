-- ===== src/Tests/Positions.antt =====
-- The theorems on positions at concrete totals.
use ledger_system.Prelude.{
  ◌+◌, ◌≤◌, ◌≡◌, ◌↔◌, refl, true, false, none, some, List, [], ◌∷◌, ok, string_eq,
}
use ledger_system.Domain.Enums.{ObjectType}
use ledger_system.Domain.Money.{is_currency, zero_money, add, subtract}
use ledger_system.Application.Retraction.{retracted_event_ids, fold_object_totals}
use ledger_system.Application.Positions.{
  PositionAggregate, PositionStatus, EconomicOutcome, no_metrics, derive_position_status,
  compute_capital_metrics,
}
use ledger_system.Application.Positions.Status.{Means, derive_position_status-Means}
use ledger_system.Application.Positions.Metrics.{
  summed, compute_capital_metrics_eq, payables_partition, capital_at_risk_within_exposure,
}
use ledger_system.Application.Projection.{
  PositionSummary, project, figures_of, summary_of, extract_origin,
}
use ledger_system.Application.Projection.Derive.{
  derive_open_balance, derive_over_settlement, derive_allocation_gap, derive_status, derive_outcome,
}
use ledger_system.Application.Projection.Agreement.{project-fold_object_totals}
use ledger_system.Application.Listing.{aggregate_to_list_item}
use ledger_system.Application.Listing.Consistency.{item_of, aggregate_to_list_item_eq}
use ledger_system.Domain.Creation.{event_of}
use ledger_system.Domain.Entities.{LedgerEvent}
use ledger_system.Tests.Samples.{recognition, payment, reais}

-- A payroll of 100.00 of which 40.00 are paid, due at 5000.
abbrev payroll_totals : PositionAggregate
payroll_totals = record {
  object_id = "payroll-1";
  object_type = ObjectType.payroll;
  currency = "BRL";
  total_originated_units = 10000;
  total_settled_units = 4000;
  total_adjusted_units = 0;
  cash_recovered_units = 0;
  non_cash_closed_units = 0;
  ref_cash_in_units = 0;
  ref_cash_out_units = 0;
  has_reversal = false;
  has_unresolved_lineage = false;
  event_count = 2;
  last_event_at = 1000;
  originated_at = some 1000;
  created_at = 3000;
  due_at = some 5000;
  parties = none;
}

-- A loan that nothing has closed.
abbrev loan_totals : PositionAggregate
loan_totals = record payroll_totals {
  object_id = "loan-1";
  object_type = ObjectType.loan;
  total_settled_units = 0;
  due_at = none;
}

abbrev positions : List PositionAggregate
positions = payroll_totals ∷ loan_totals ∷ []

derive_position_status-Means_example : Means (derive_position_status payroll_totals) payroll_totals
derive_position_status-Means_example = derive_position_status-Means payroll_totals

compute_capital_metrics_eq_example :
    compute_capital_metrics positions "BRL" 2000 6000 ≡ summed positions "BRL" 2000 6000 no_metrics
compute_capital_metrics_eq_example = compute_capital_metrics_eq positions "BRL" 2000 6000

payables_partition_example :
    (compute_capital_metrics positions "BRL" 2000 6000).overdue_payable_units
      + (compute_capital_metrics positions "BRL" 2000 6000).upcoming_payable_units
      + (compute_capital_metrics positions "BRL" 2000 6000).undated_payable_units
    ≡ (compute_capital_metrics positions "BRL" 2000 6000).open_payable_exposure_units
payables_partition_example = payables_partition positions "BRL" 2000 6000

capital_at_risk_within_exposure_example :
    (compute_capital_metrics positions "BRL" 2000 6000).capital_at_risk_units
    ≤ (compute_capital_metrics positions "BRL" 2000 6000).open_exposure_units
capital_at_risk_within_exposure_example = capital_at_risk_within_exposure positions "BRL" 2000 6000

payroll_currency : is_currency payroll_totals.currency ≡ true
unfolding is_currency
payroll_currency = refl

aggregate_to_list_item_eq_example :
    aggregate_to_list_item payroll_totals ≡ ok (item_of payroll_totals)
aggregate_to_list_item_eq_example = aggregate_to_list_item_eq payroll_totals payroll_currency

abbrev first : LedgerEvent
first = event_of recognition 3000 "digest"

abbrev second : LedgerEvent
second = event_of payment 3000 "digest"

abbrev payroll_summary : PositionSummary
payroll_summary = record {
  object_id = "payroll-1";
  object_type = ObjectType.payroll;
  status = PositionStatus.partially_settled;
  total_originated = reais 10000;
  total_settled = reais 4000;
  total_adjusted = reais 0;
  open_balance = some (reais 6000);
  over_settlement = some (reais 0);
  cash_recovered = reais 0;
  non_cash_closed = reais 0;
  allocation_gap = reais 0;
  outcome = EconomicOutcome.pending;
  event_count = 2;
  events = first ∷ second ∷ [];
  origin = extract_origin "payroll-1" (first ∷ []);
}

payroll_projected : project "payroll-1" first (second ∷ []) ≡ ok payroll_summary
unfolding project extract_origin zero_money is_currency add subtract figures_of summary_of
    derive_open_balance derive_over_settlement derive_allocation_gap derive_status derive_outcome
    retracted_event_ids
payroll_projected = refl

project-fold_object_totals_example :
    (payroll_summary.total_originated.units
      ≡ (fold_object_totals (first ∷ second ∷ []) "payroll-1").originated_units)
    × (payroll_summary.total_settled.units + payroll_summary.total_adjusted.units
        ≡ (fold_object_totals (first ∷ second ∷ []) "payroll-1").closed_units)
    × ((payroll_summary.status ≡ PositionStatus.reversed)
        ↔ ((fold_object_totals (first ∷ second ∷ []) "payroll-1").has_reversal ≡ true))
project-fold_object_totals_example =
    project-fold_object_totals "payroll-1" first (second ∷ []) payroll_projected
