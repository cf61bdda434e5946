-- ===== src/Application/Statement.antt =====
-- The cash statement of a period
-- (ledger/src/core/application/services/CashStatementService.ts, dtos/CashStatement.ts).
pub mod Balance
use ledger_system.Prelude.{
  ℕ, ◌+◌, ◌-◌, String, Bool, true, false, ◌&&◌, ◌||◌, List, [], ◌∷◌, ◌++◌, ◌==◌, string_eq, ltb,
  leb, if◌then◌else◌, any, filter, includes, ok, ◌>>=◌,
}
use ledger_system.Prelude.Int.{pos}
use ledger_system.Domain.Errors.{Throws}
use ledger_system.Domain.Enums.{EconomicEffect, economic_effect_eq, Direction, direction_eq}
use ledger_system.Domain.Money.{Money, from_units}
use ledger_system.Domain.Entities.{Instant, LedgerEvent}
use ledger_system.Application.Retraction.{retracted_event_ids}
use ledger_system.Infra.Memory.{Book, find_by_related_event_id, find_by_period}
use ledger_system.Infra.Memory.Flows.{CashFlows, aggregate_cash_flows_before}

pub record CashStatement : Type 0 where
  pub from : Instant
  pub to : Instant
  pub opening_balance : Money
  pub opening_balance_negative : Bool
  pub closing_balance : Money
  pub closing_balance_negative : Bool
  pub total_cash_in : Money
  pub total_cash_out : Money
  pub net_flow : Money
  pub currency : String

abbrev pub moves_cash : LedgerEvent → Bool
moves_cash e =
    e.economic_effect == EconomicEffect.cash_in || e.economic_effect == EconomicEffect.cash_out

-- `(await Promise.all(events.map(...))).flat()`
unfoldable pub hop : List LedgerEvent → Book → List LedgerEvent
hop [] book = []
hop (e ∷ es) book = find_by_related_event_id e.id book ++ hop es book

-- The set of retracted events, from the two hops.
unfoldable pub retracted_in_period : List LedgerEvent → Book → List String
unfolding hop
retracted_in_period period book =
    let first_hop = hop (filter moves_cash period) book in
    let second_hop = hop first_hop book in retracted_event_ids (first_hop ++ second_hop)

abbrev pub names_party : String → Direction → LedgerEvent → Bool
names_party party d e = any (λ p. p.party_id == party && p.direction == d) e.parties

-- The sums of the loop.
pub record Sums : Type 0 where
  pub cash_in : ℕ
  pub cash_out : ℕ

abbrev pub add_movement : EconomicEffect → String → LedgerEvent → Sums → Sums
add_movement EconomicEffect.cash_in party e s =
    if names_party party Direction.inbound e
    then record s { cash_in = s.cash_in + e.amount.units }
    else s
add_movement EconomicEffect.cash_out party e s =
    if names_party party Direction.outbound e
    then record s { cash_out = s.cash_out + e.amount.units }
    else s
add_movement _ party e s = s

unfoldable pub sums_from : (String → Bool) → String → List LedgerEvent → Sums → Sums
sums_from gone party [] s = s
sums_from gone party (e ∷ es) s =
    sums_from gone party es (if gone e.id then s else add_movement e.economic_effect party e s)

-- The distance of two numbers: the larger less the smaller.
abbrev pub gap : ℕ → ℕ → ℕ
gap a b = if ltb a b then b - a else a - b

-- The statement from the flows before the period and the sums of the period.
unfoldable pub statement_of : Instant → Instant → CashFlows → Sums → Throws CashStatement
statement_of from to before s = do
  opening ← from_units (pos (gap before.cash_in_units before.cash_out_units)) before.currency
  total_in ← from_units (pos s.cash_in) before.currency
  total_out ← from_units (pos s.cash_out) before.currency
  net ←
      from_units
        (pos (if leb s.cash_out s.cash_in then s.cash_in - s.cash_out else s.cash_out - s.cash_in))
        before.currency
  let all_in = before.cash_in_units + s.cash_in
  let all_out = before.cash_out_units + s.cash_out
  closing ← from_units (pos (gap all_in all_out)) before.currency
  ok (record {
    from = from;
    to = to;
    opening_balance = opening;
    opening_balance_negative = ltb before.cash_in_units before.cash_out_units;
    closing_balance = closing;
    closing_balance_negative = ltb all_in all_out;
    total_cash_in = total_in;
    total_cash_out = total_out;
    net_flow = net;
    currency = before.currency;
  })

-- `CashStatementService.summarize`
unfoldable pub summarize_period :
    (usina_party_id : String) → Instant → Instant → Book → Throws CashStatement
unfolding retracted_in_period sums_from statement_of
summarize_period usina_party_id from to book =
    let period = find_by_period from to book in
    let retracted = retracted_in_period period book in
    statement_of from to (aggregate_cash_flows_before from book) (
      sums_from (λ id. includes retracted id) usina_party_id period
        (record { cash_in = 0; cash_out = 0 }))
