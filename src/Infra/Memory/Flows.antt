-- ===== src/Infra/Memory/Flows.antt =====
-- The cash aggregates of the book kept in memory
-- (ledger/src/infra/persistence/memory/InMemoryLedgerEventRepository.ts).
use ledger_system.Prelude.{
  ℕ, ◌+◌, String, Bool, true, false, not, ◌||◌, List, [], ◌∷◌, ◌==◌, string_eq, ltb, leb,
  if◌then◌else◌, any, includes,
}
use ledger_system.Domain.Enums.{EconomicEffect, economic_effect_eq, Relation, relation_eq}
use ledger_system.Domain.Entities.{Instant, LedgerEvent}
use ledger_system.Application.Retraction.{retracted_event_ids}

pub record CashFlows : Type 0 where
  pub cash_in_units : ℕ
  pub cash_out_units : ℕ
  pub currency : String

-- The variables of the loop: `found` says whether the currency was taken from an event.
pub record CashState : Type 0 where
  pub flows : CashFlows
  pub found : Bool

abbrev pub no_cash : CashState
no_cash = record {
  flows = record { cash_in_units = 0; cash_out_units = 0; currency = "BRL" };
  found = false;
}

abbrev currency_of : LedgerEvent → CashState → String
currency_of e s = if s.found then s.flows.currency else e.amount.currency

-- The branches of the loop body on the economic effect.
abbrev pub add_cash : EconomicEffect → LedgerEvent → CashState → CashState
add_cash EconomicEffect.cash_in e s = record {
  flows = record {
    cash_in_units = s.flows.cash_in_units + e.amount.units;
    cash_out_units = s.flows.cash_out_units;
    currency = currency_of e s;
  };
  found = true;
}
add_cash EconomicEffect.cash_out e s = record {
  flows = record {
    cash_in_units = s.flows.cash_in_units;
    cash_out_units = s.flows.cash_out_units + e.amount.units;
    currency = currency_of e s;
  };
  found = true;
}
add_cash _ e s = s

unfoldable pub cash_from : (LedgerEvent → Bool) → List LedgerEvent → CashState → CashState
cash_from skipped [] s = s
cash_from skipped (e ∷ es) s =
    cash_from skipped es (if skipped e then s else add_cash e.economic_effect e s)

unfoldable pub aggregate_cash_flows : List LedgerEvent → CashFlows
aggregate_cash_flows store =
    let retracted = retracted_event_ids store in
    (cash_from (λ e. includes retracted e.id) store no_cash).flows

unfoldable pub aggregate_cash_flows_before : Instant → List LedgerEvent → CashFlows
aggregate_cash_flows_before date store =
    let retracted = retracted_event_ids store in
    (cash_from (λ e. includes retracted e.id || leb date e.occurred_at) store no_cash).flows

pub record ClosureStats : Type 0 where
  pub cash_in_settled_units : ℕ
  pub total_settled_units : ℕ

-- Whether an event is passed over by the `continue`s of `aggregateClosureStats`.
abbrev pub closes_nothing : List String → Instant → Instant → String → LedgerEvent → Bool
closes_nothing retracted from to currency e =
    includes retracted e.id
    || (ltb e.occurred_at from || ltb to e.occurred_at)
    || not (e.amount.currency == currency)
    || not (any (λ o. o.relation == Relation.settles) e.objects)

abbrev pub add_closure : LedgerEvent → ClosureStats → ClosureStats
add_closure e s = record {
  total_settled_units = s.total_settled_units + e.amount.units;
  cash_in_settled_units =
      if e.economic_effect == EconomicEffect.cash_in
      then s.cash_in_settled_units + e.amount.units
      else s.cash_in_settled_units;
}

unfoldable pub closure_from : (LedgerEvent → Bool) → List LedgerEvent → ClosureStats → ClosureStats
closure_from skipped [] s = s
closure_from skipped (e ∷ es) s = closure_from skipped es (if skipped e then s else add_closure e s)

unfoldable pub aggregate_closure_stats :
    Instant → Instant → String → List LedgerEvent → ClosureStats
aggregate_closure_stats from to currency store =
    closure_from (closes_nothing (retracted_event_ids store) from to currency) store
      (record { cash_in_settled_units = 0; total_settled_units = 0 })
