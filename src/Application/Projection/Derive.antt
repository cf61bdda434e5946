-- ===== src/Application/Projection/Derive.antt =====
-- The private derivations of the projection
-- (ledger/src/core/application/services/PositionProjectionService.ts), and the item of a listing.
use ledger_system.Prelude.{
  Bool, true, false, not, ◌||◌, String, Option, none, some, nat_eq, leb, if◌then◌else◌, ok, ◌>>=◌,
}
use ledger_system.Domain.Errors.{Throws}
use ledger_system.Domain.Money.{Money, zero_money, subtract, is_zero}
use ledger_system.Application.Positions.{PositionStatus, EconomicOutcome}

unfoldable pub derive_open_balance : Money → Money → Bool → String → Throws (Option Money)
derive_open_balance originated closed true currency = ok none
derive_open_balance originated closed false currency = do
  m ← if leb originated.units closed.units then zero_money currency else subtract originated closed
  ok (some m)

unfoldable pub derive_over_settlement : Money → Money → Bool → String → Throws (Option Money)
derive_over_settlement originated closed true currency = ok none
derive_over_settlement originated closed false currency = do
  m ←
      if is_zero originated || leb closed.units originated.units
      then zero_money currency
      else subtract closed originated
  ok (some m)

unfoldable pub derive_allocation_gap : Money → Money → String → Throws Money
derive_allocation_gap ref_in ref_out currency =
    if leb ref_in.units ref_out.units then zero_money currency else subtract ref_in ref_out

unfoldable pub derive_status : Money → Money → Bool → Bool → PositionStatus
derive_status originated closed has_reversal origin_unknown =
    if has_reversal
    then PositionStatus.reversed
    else if origin_unknown
    then PositionStatus.unknown_origin
    else if is_zero originated
    then PositionStatus.open_
    else if leb originated.units closed.units
    then PositionStatus.fully_settled
    else if not (is_zero closed)
    then PositionStatus.partially_settled
    else PositionStatus.open_

unfoldable pub derive_outcome : PositionStatus → Money → Money → EconomicOutcome
derive_outcome PositionStatus.reversed cash_recovered non_cash_closed = EconomicOutcome.cancelled
derive_outcome PositionStatus.fully_settled cash_recovered non_cash_closed =
    if is_zero non_cash_closed
    then EconomicOutcome.gain
    else if is_zero cash_recovered
    then EconomicOutcome.full_loss
    else EconomicOutcome.partial_loss
derive_outcome _ cash_recovered non_cash_closed = EconomicOutcome.pending
