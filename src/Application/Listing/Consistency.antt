-- ===== src/Application/Listing/Consistency.antt =====
-- The item of a listing against the derivations of ledger/src/core/application/dtos/positionUtils.ts.
use ledger_system.Prelude.{
  ℕ, ◌-◌, ◌==◌, nat_eq, String, ◌≡◌, refl, Bool, true, false, Option, none, some, ok, ap,
  if◌then◌else◌, arith, leb, inl, inr, Bool-cases, string_eq,
}
use ledger_system.Domain.Money.{Money, is_currency, subtract, zero_money}
use ledger_system.Domain.Money.Laws.{add_same, subtract_outcomes, from_units_ok, zero_money_ok}
use ledger_system.Application.Positions.{
  PositionAggregate, has_unknown_origination, total_closed, derive_position_status,
  open_balance_units_of,
}
use ledger_system.Application.Projection.Derive.{
  derive_open_balance, derive_over_settlement, derive_allocation_gap, derive_status, derive_outcome,
}
use ledger_system.Application.Listing.{PositionListItem, aggregate_to_list_item}

abbrev pub money : ℕ → String → Money
money n currency = record { units = n; currency = currency }

abbrev pub with_currency : Option ℕ → String → Option Money
with_currency none currency = none
with_currency (some n) currency = some (money n currency)

module _ (originated closed : ℕ) (currency : String) (valid : is_currency currency ≡ true) where
  -- The larger amount less the smaller, or nothing.
  difference_ok :
      (if leb originated closed
        then zero_money currency
        else subtract (money originated currency) (money closed currency))
      ≡ ok (money (originated - closed) currency)
  difference_ok = elim (Bool-cases (leb originated closed)) [
    | inl less ↦
        rw (less, zero_money_ok currency valid)
          (ap (λ n. ok (money n currency)) (ground (arith, less)))
    | inr more ↦ rw more (
        (subtract_outcomes (money originated currency) (money closed currency) valid).2 refl
          (ground (arith, more)))
  ]

  derive_open_balance_ok :
      (u : Bool)
      → derive_open_balance (money originated currency) (money closed currency) u currency
        ≡ ok (if u then none else some (money (originated - closed) currency))
  unfolding derive_open_balance
  derive_open_balance_ok true = refl
  derive_open_balance_ok false = rw difference_ok refl

  derive_allocation_gap_ok :
      derive_allocation_gap (money originated currency) (money closed currency) currency
      ≡ ok (money (originated - closed) currency)
  unfolding derive_allocation_gap
  derive_allocation_gap_ok = difference_ok

-- What exceeds the origination, where there is one.
abbrev pub excess : (originated closed : ℕ) → ℕ
excess originated closed = if originated == 0 then 0 else closed - originated

derive_over_settlement_ok :
    (originated closed : ℕ) (currency : String)
    → is_currency currency ≡ true
    → (u : Bool)
    → derive_over_settlement (money originated currency) (money closed currency) u currency
      ≡ ok (if u then none else some (money (excess originated closed) currency))
unfolding derive_over_settlement
derive_over_settlement_ok originated closed currency valid true = refl
derive_over_settlement_ok originated closed currency valid false =
    elim (Bool-cases (originated == 0)) [
      | inl z ↦ rw (z, zero_money_ok currency valid) refl
      | inr n ↦ rw (n, difference_ok closed originated currency valid) refl
    ]

abbrev pub over_settlement_units : PositionAggregate → Option ℕ
over_settlement_units agg =
    if has_unknown_origination agg
    then none
    else some (excess agg.total_originated_units (total_closed agg))

-- The item that the derivations on the totals describe.
abbrev pub item_of : PositionAggregate → PositionListItem
item_of agg = record {
  object_id = agg.object_id;
  object_type = agg.object_type;
  status = derive_position_status agg;
  outcome =
      derive_outcome (derive_position_status agg) (money agg.cash_recovered_units agg.currency)
        (money agg.non_cash_closed_units agg.currency);
  total_originated = money agg.total_originated_units agg.currency;
  total_settled = money agg.total_settled_units agg.currency;
  total_adjusted = money agg.total_adjusted_units agg.currency;
  open_balance = with_currency (open_balance_units_of agg) agg.currency;
  over_settlement = with_currency (over_settlement_units agg) agg.currency;
  cash_recovered = money agg.cash_recovered_units agg.currency;
  non_cash_closed = money agg.non_cash_closed_units agg.currency;
  allocation_gap = money (agg.ref_cash_in_units - agg.ref_cash_out_units) agg.currency;
  event_count = agg.event_count;
  last_event_at = agg.last_event_at;
  originated_at = agg.originated_at;
  created_at = agg.created_at;
  due_at = agg.due_at;
  parties = agg.parties;
}

same_status :
    (agg : PositionAggregate)
    → derive_status
        (money agg.total_originated_units agg.currency)
        (money (total_closed agg) agg.currency)
        agg.has_reversal
        (has_unknown_origination agg)
      ≡ derive_position_status agg
unfolding derive_status derive_position_status
same_status agg = ground arith

same_open_balance :
    (agg : PositionAggregate)
    → (if has_unknown_origination agg
        then none
        else some (money (agg.total_originated_units - total_closed agg) agg.currency))
      ≡ with_currency (open_balance_units_of agg) agg.currency
unfolding open_balance_units_of
same_open_balance agg = ground arith

same_over_settlement :
    (agg : PositionAggregate)
    → (if has_unknown_origination agg
        then none
        else some (money (excess agg.total_originated_units (total_closed agg)) agg.currency))
      ≡ with_currency (over_settlement_units agg) agg.currency
same_over_settlement agg = elim (Bool-cases (has_unknown_origination agg)) [
  | inl e ↦ rw e refl
  | inr e ↦ rw e refl
]

-- For totals in a valid currency the item of a listing is always made, and it shows the status and
-- the open balance that the other readers derive from the same totals, the excess over what was
-- originated, and the cash received in a batch less the cash paid out of it, at least zero.
pub aggregate_to_list_item_eq :
    (agg : PositionAggregate)
    → is_currency agg.currency ≡ true
    → aggregate_to_list_item agg ≡ ok (item_of agg)
unfolding aggregate_to_list_item
aggregate_to_list_item_eq agg valid =
    rw
      (
        from_units_ok agg.total_originated_units agg.currency valid,
        from_units_ok agg.total_settled_units agg.currency valid,
        from_units_ok agg.total_adjusted_units agg.currency valid,
        from_units_ok agg.cash_recovered_units agg.currency valid,
        from_units_ok agg.non_cash_closed_units agg.currency valid,
        from_units_ok agg.ref_cash_in_units agg.currency valid,
        from_units_ok agg.ref_cash_out_units agg.currency valid,
        add_same (money agg.total_settled_units agg.currency)
            (money agg.total_adjusted_units agg.currency) valid refl,
        derive_open_balance_ok agg.total_originated_units (total_closed agg) agg.currency valid
            (has_unknown_origination agg),
        derive_over_settlement_ok agg.total_originated_units (total_closed agg) agg.currency valid
            (has_unknown_origination agg),
        derive_allocation_gap_ok agg.ref_cash_in_units agg.ref_cash_out_units agg.currency valid,
        same_status agg,
        same_open_balance agg,
        same_over_settlement agg,
      )
      refl
