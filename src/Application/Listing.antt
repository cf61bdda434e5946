-- ===== src/Application/Listing.antt =====
-- The items of a listing of positions
-- (ledger/src/core/application/services/PositionProjectionService.ts, `aggregateToListItem`).
pub mod Consistency
use ledger_system.Prelude.{ℕ, String, Bool, Option, List, ok, ◌>>=◌}
use ledger_system.Prelude.Int.{pos}
use ledger_system.Domain.Errors.{Throws}
use ledger_system.Domain.Enums.{ObjectType}
use ledger_system.Domain.Money.{Money, from_units, add}
use ledger_system.Domain.Entities.{Instant}
use ledger_system.Application.Positions.{
  PositionStatus, EconomicOutcome, PositionAggregate, has_unknown_origination,
}
use ledger_system.Application.Projection.Derive.{
  derive_open_balance, derive_over_settlement, derive_allocation_gap, derive_status, derive_outcome,
}

pub record PositionListItem : Type 0 where
  pub object_id : String
  pub object_type : ObjectType
  pub status : PositionStatus
  pub outcome : EconomicOutcome
  pub total_originated : Money
  pub total_settled : Money
  pub total_adjusted : Money
  pub open_balance : Option Money
  pub over_settlement : Option Money
  pub cash_recovered : Money
  pub non_cash_closed : Money
  pub allocation_gap : Money
  pub event_count : ℕ
  pub last_event_at : Instant
  pub originated_at : Option Instant
  pub created_at : Instant
  pub due_at : Option Instant
  pub parties : Option (List String)

unfoldable pub aggregate_to_list_item : PositionAggregate → Throws PositionListItem
aggregate_to_list_item agg = do
  let currency = agg.currency
  originated ← from_units (pos agg.total_originated_units) currency
  settled ← from_units (pos agg.total_settled_units) currency
  adjusted ← from_units (pos agg.total_adjusted_units) currency
  cash_recovered ← from_units (pos agg.cash_recovered_units) currency
  non_cash_closed ← from_units (pos agg.non_cash_closed_units) currency
  ref_in ← from_units (pos agg.ref_cash_in_units) currency
  ref_out ← from_units (pos agg.ref_cash_out_units) currency
  closed ← add settled adjusted
  let origin_unknown = has_unknown_origination agg
  open_balance ← derive_open_balance originated closed origin_unknown currency
  over ← derive_over_settlement originated closed origin_unknown currency
  gap ← derive_allocation_gap ref_in ref_out currency
  let status = derive_status originated closed agg.has_reversal origin_unknown
  ok (record {
    object_id = agg.object_id;
    object_type = agg.object_type;
    status = status;
    outcome = derive_outcome status cash_recovered non_cash_closed;
    total_originated = originated;
    total_settled = settled;
    total_adjusted = adjusted;
    open_balance = open_balance;
    over_settlement = over;
    cash_recovered = cash_recovered;
    non_cash_closed = non_cash_closed;
    allocation_gap = gap;
    event_count = agg.event_count;
    last_event_at = agg.last_event_at;
    originated_at = agg.originated_at;
    created_at = agg.created_at;
    due_at = agg.due_at;
    parties = agg.parties;
  })
