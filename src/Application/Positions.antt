-- ===== src/Application/Positions.antt =====
-- What the totals of a position say of it: its status, its open balance, when it falls due
-- (ledger/src/core/application/dtos/positionUtils.ts, PositionAggregate.ts, PositionSummary.ts).
pub mod Status
pub mod Metrics
use ledger_system.Prelude.{
  ℕ, ◌+◌, ◌-◌, String, Bool, true, false, not, ◌&&◌, ◌||◌, Option, none, some, List, [], ◌∷◌, ltb,
  leb, ◌==◌, nat_eq, string_eq, if◌then◌else◌, includes,
}
use ledger_system.Domain.Enums.{ObjectType, object_type_eq}
use ledger_system.Domain.Entities.{Instant}
use ledger_system.Domain.CashTypes.{usina_payable_object_types}

pub data PositionStatus : Type 0 where
  open_ partially_settled fully_settled reversed unknown_origin : PositionStatus

pub data EconomicOutcome : Type 0 where
  gain partial_loss full_loss cancelled pending : EconomicOutcome

pub record PositionAggregate : Type 0 where
  pub object_id : String
  pub object_type : ObjectType
  pub currency : String
  pub total_originated_units : ℕ
  pub total_settled_units : ℕ
  pub total_adjusted_units : ℕ
  pub cash_recovered_units : ℕ
  pub non_cash_closed_units : ℕ
  pub ref_cash_in_units : ℕ
  pub ref_cash_out_units : ℕ
  pub has_reversal : Bool
  pub has_unresolved_lineage : Bool
  pub event_count : ℕ
  pub last_event_at : Instant
  pub originated_at : Option Instant
  pub created_at : Instant
  pub due_at : Option Instant
  pub parties : Option (List String)

unfoldable pub has_unknown_origination : PositionAggregate → Bool
has_unknown_origination agg = agg.has_unresolved_lineage && agg.total_originated_units == 0

abbrev pub total_closed : PositionAggregate → ℕ
total_closed agg = agg.total_settled_units + agg.total_adjusted_units

unfoldable pub derive_position_status : PositionAggregate → PositionStatus
unfolding has_unknown_origination
derive_position_status agg =
    if agg.has_reversal
    then PositionStatus.reversed
    else if has_unknown_origination agg
    then PositionStatus.unknown_origin
    else if agg.total_originated_units == 0
    then PositionStatus.open_
    else if leb agg.total_originated_units (total_closed agg)
    then PositionStatus.fully_settled
    else if ltb 0 (total_closed agg)
    then PositionStatus.partially_settled
    else PositionStatus.open_

-- The subtraction is of a smaller number from a larger one.
unfoldable pub open_balance_units_of : PositionAggregate → Option ℕ
unfolding has_unknown_origination
open_balance_units_of agg =
    if has_unknown_origination agg
    then none
    else if leb agg.total_originated_units (total_closed agg)
    then some 0
    else some (agg.total_originated_units - total_closed agg)

pub data DueState : Type 0 where
  overdue upcoming unknown : DueState

abbrev due_state : Option Instant → Instant → DueState
due_state none as_of = DueState.unknown
due_state (some due) as_of = if ltb due as_of then DueState.overdue else DueState.upcoming

unfoldable pub due_state_of : PositionAggregate → Instant → DueState
due_state_of agg as_of = due_state agg.due_at as_of

pub record CapitalMetrics : Type 0 where
  pub open_exposure_units : ℕ
  pub capital_at_risk_units : ℕ
  pub open_payable_exposure_units : ℕ
  pub overdue_payable_units : ℕ
  pub upcoming_payable_units : ℕ
  pub undated_payable_units : ℕ

abbrev pub no_metrics : CapitalMetrics
no_metrics = record {
  open_exposure_units = 0;
  capital_at_risk_units = 0;
  open_payable_exposure_units = 0;
  overdue_payable_units = 0;
  upcoming_payable_units = 0;
  undated_payable_units = 0;
}

-- The `switch` on the state.
abbrev pub add_due : DueState → ℕ → CapitalMetrics → CapitalMetrics
add_due DueState.overdue b m = record m { overdue_payable_units = m.overdue_payable_units + b }
add_due DueState.upcoming b m = record m { upcoming_payable_units = m.upcoming_payable_units + b }
add_due DueState.unknown b m = record m { undated_payable_units = m.undated_payable_units + b }

abbrev pub add_payable : DueState → ℕ → CapitalMetrics → CapitalMetrics
add_payable state b m =
    let m' = record m { open_payable_exposure_units = m.open_payable_exposure_units + b } in
    if ltb 0 b then add_due state b m' else m'

-- `originatedAt !== null && originatedAt <= riskCutoff`
abbrev pub is_old : Option Instant → Instant → Bool
is_old none cutoff = false
is_old (some at) cutoff = leb at cutoff

abbrev pub is_at_risk : PositionAggregate → ℕ → Instant → Bool
is_at_risk agg b cutoff =
    ltb 0 b
    && agg.total_settled_units == 0
    && agg.total_adjusted_units == 0
    && is_old agg.originated_at cutoff

abbrev pub add_exposure : PositionAggregate → ℕ → Instant → CapitalMetrics → CapitalMetrics
add_exposure agg b cutoff m =
    let m' = record m { open_exposure_units = m.open_exposure_units + b } in
    if is_at_risk agg b cutoff
    then record m' { capital_at_risk_units = m.capital_at_risk_units + b }
    else m'

abbrev pub is_payable : PositionAggregate → Bool
is_payable agg = includes usina_payable_object_types agg.object_type

-- A balance that is known.
abbrev pub add_balance :
    Option ℕ → PositionAggregate → (cutoff as_of : Instant) → CapitalMetrics → CapitalMetrics
add_balance none agg cutoff as_of m = m
add_balance (some b) agg cutoff as_of m =
    if is_payable agg then add_payable (due_state_of agg as_of) b m else add_exposure agg b cutoff m

-- The loop of `computeCapitalMetrics`.
unfoldable pub metrics_from :
    List PositionAggregate → String → (cutoff as_of : Instant) → CapitalMetrics → CapitalMetrics
unfolding open_balance_units_of
metrics_from [] currency cutoff as_of m = m
metrics_from (agg ∷ aggs) currency cutoff as_of m = metrics_from aggs currency cutoff as_of (
    if not (agg.currency == currency) || agg.has_reversal
    then m
    else add_balance (open_balance_units_of agg) agg cutoff as_of m)

unfoldable pub compute_capital_metrics :
    List PositionAggregate → String → (cutoff as_of : Instant) → CapitalMetrics
unfolding metrics_from
compute_capital_metrics aggs currency cutoff as_of =
    metrics_from aggs currency cutoff as_of no_metrics
