-- ===== src/Tests/Cash.antt =====
-- The theorems on cash at a concrete book.
use ledger_system.Prelude.{◌≡◌, refl, true, [], ◌∷◌, ok}
use ledger_system.Domain.Creation.{event_of}
use ledger_system.Domain.Money.{is_currency}
use ledger_system.Infra.Memory.{Book}
use ledger_system.Infra.Memory.Flows.{aggregate_cash_flows_before, cash_from}
use ledger_system.Application.Retraction.{retracted_event_ids}
use ledger_system.Application.Statement.{CashStatement, summarize_period}
use ledger_system.Application.Statement.Balance.{AddsUp, summarize_period-AddsUp}
use ledger_system.Tests.Samples.{payment, unknown_receipt}

-- A payment of 40.00 and, later, a receipt of 7.00.
abbrev book : Book
book =
    event_of payment 3000 "digest"
    ∷ event_of (record unknown_receipt { occurred_at = 1500 }) 3000 "digest"
    ∷ []

earlier_currency : is_currency (aggregate_cash_flows_before 1200 book).currency ≡ true
unfolding is_currency aggregate_cash_flows_before cash_from retracted_event_ids
earlier_currency = refl

summarize_period-AddsUp_example :
    (s : CashStatement) × (summarize_period "usina" 1200 2000 book ≡ ok s) × AddsUp s
summarize_period-AddsUp_example = summarize_period-AddsUp "usina" 1200 2000 book earlier_currency
