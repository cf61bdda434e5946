-- ===== src/Application/Statement/Balance.antt =====
-- The arithmetic of a cash statement
-- (ledger/src/core/application/services/CashStatementService.ts).
use ledger_system.Prelude.{
  ℕ, ◌+◌, ◌-◌, String, ◌≡◌, ◌⊎◌, refl, Bool, true, ltb, leb, if◌then◌else◌, includes, string_eq, ok,
  arith,
}
use ledger_system.Domain.Money.{Money, is_currency}
use ledger_system.Domain.Money.Laws.{from_units_ok}
use ledger_system.Domain.Entities.{Instant}
use ledger_system.Infra.Memory.{Book, find_by_period}
use ledger_system.Infra.Memory.Flows.{CashFlows, aggregate_cash_flows_before}
use ledger_system.Application.Statement.{
  CashStatement, Sums, gap, retracted_in_period, sums_from, statement_of, summarize_period,
}

-- A balance with a sign, as what is in hand and what is owed.
abbrev pub in_hand : Money → Bool → ℕ
in_hand m negative = if negative then 0 else m.units

abbrev pub owed : Money → Bool → ℕ
owed m negative = if negative then m.units else 0

-- Opening balance, inflow and outflow account for the closing balance, signs included, and the net
-- flow is the distance of inflow and outflow.
pub record AddsUp (s : CashStatement) : Type 0 where
  pub closing :
      in_hand s.opening_balance s.opening_balance_negative
        + s.total_cash_in.units
        + owed s.closing_balance s.closing_balance_negative
      ≡ owed s.opening_balance s.opening_balance_negative
        + s.total_cash_out.units
        + in_hand s.closing_balance s.closing_balance_negative
  pub net :
      (s.net_flow.units + s.total_cash_in.units ≡ s.total_cash_out.units)
      ⊎ (s.net_flow.units + s.total_cash_out.units ≡ s.total_cash_in.units)

-- The statement as numbers.
abbrev statement : Instant → Instant → CashFlows → Sums → CashStatement
statement from to before s = record {
  from = from;
  to = to;
  opening_balance = record {
    units = gap before.cash_in_units before.cash_out_units;
    currency = before.currency;
  };
  opening_balance_negative = ltb before.cash_in_units before.cash_out_units;
  closing_balance = record {
    units = gap (before.cash_in_units + s.cash_in) (before.cash_out_units + s.cash_out);
    currency = before.currency;
  };
  closing_balance_negative =
      ltb (before.cash_in_units + s.cash_in) (before.cash_out_units + s.cash_out);
  total_cash_in = record { units = s.cash_in; currency = before.currency };
  total_cash_out = record { units = s.cash_out; currency = before.currency };
  net_flow = record {
    units = if leb s.cash_out s.cash_in then s.cash_in - s.cash_out else s.cash_out - s.cash_in;
    currency = before.currency;
  };
  currency = before.currency;
}

statement_of_ok :
    (from to : Instant) (before : CashFlows) (s : Sums)
    → is_currency before.currency ≡ true
    → statement_of from to before s ≡ ok (statement from to before s)
unfolding statement_of
statement_of_ok from to before s valid =
    rw
      (
        from_units_ok (gap before.cash_in_units before.cash_out_units) before.currency valid,
        from_units_ok s.cash_in before.currency valid,
        from_units_ok s.cash_out before.currency valid,
        from_units_ok
            (if leb s.cash_out s.cash_in then s.cash_in - s.cash_out else s.cash_out - s.cash_in)
            before.currency valid,
        from_units_ok (gap (before.cash_in_units + s.cash_in) (before.cash_out_units + s.cash_out))
            before.currency valid,
      )
      refl

statement-AddsUp :
    (from to : Instant) (before : CashFlows) (s : Sums) → AddsUp (statement from to before s)
statement-AddsUp from to before s = record { closing = ground arith; net = ground arith }

-- A statement is always made where the currency of the earlier flows is valid, and it adds up:
-- with their signs the closing balance is the opening balance and the inflow less the outflow, and
-- the net flow is the distance of inflow and outflow.
pub summarize_period-AddsUp :
    (usina_party_id : String) (from to : Instant) (book : Book)
    → is_currency (aggregate_cash_flows_before from book).currency ≡ true
    → (s : CashStatement) × (summarize_period usina_party_id from to book ≡ ok s) × AddsUp s
unfolding summarize_period
summarize_period-AddsUp usina_party_id from to book valid =
    let before = aggregate_cash_flows_before from book in
    let sums =
      sums_from (λ id. includes (retracted_in_period (find_by_period from to book) book) id)
        usina_party_id (find_by_period from to book) (record { cash_in = 0; cash_out = 0 }) in
    (
      statement from to before sums,
      statement_of_ok from to before sums valid,
      statement-AddsUp from to before sums,
    )
