-- ===== src/Domain/Event.antt =====
-- The checks of `LedgerEvent.create` that look at one event alone
-- (ledger/src/core/domain/entities/LedgerEvent.ts, `validateBasic`, `validateFlow` and
-- `validateReasonRules`).
pub mod Balance
use ledger_system.Prelude.{
  ℕ, String, Bool, true, false, not, ◌&&◌, ◌||◌, Option, none, some, List, [], ◌∷◌, ◌==◌, string_eq,
  if◌then◌else◌, is_some, ok, err, ◌>>=◌, ◌>>◌, throw_if, for_each,
}
use ledger_system.Domain.Errors.{
  Throws, amount_zero, no_party, no_object, payer_inbound, payee_outbound, party_currency_mismatch,
  internal_unbalanced, internal_total_mismatch, cash_in_without_inbound, cash_in_total_mismatch,
  cash_in_with_outbound, cash_out_without_outbound, cash_out_total_mismatch, cash_out_with_inbound,
  non_cash_flow, contingent_flow, allocation_gap, non_cash_without_reason,
  contingent_without_followup,
}
use ledger_system.Domain.Enums.{
  EconomicEffect, economic_effect_eq, Direction, direction_eq, PartyRole, party_role_eq,
}
use ledger_system.Domain.Money.{Money, zero_money, add, equals, is_zero}
use ledger_system.Domain.Entities.{LedgerEventParty, EventReason, CreateLedgerEventProps}

abbrev pub is_empty {ℓ} : {A : Type ℓ} → List A → Bool
is_empty [] = true
is_empty (x ∷ xs) = false

-- The body of the loop over the parties.
unfoldable pub validate_role : LedgerEventParty → Throws (Unit {0})
validate_role p = do
  throw_if (p.role == PartyRole.payer && p.direction == Direction.inbound)
      (payer_inbound p.party_id)
  throw_if (p.role == PartyRole.payee && p.direction == Direction.outbound)
      (payee_outbound p.party_id)

unfoldable pub validate_basic : CreateLedgerEventProps → Throws (Unit {0})
unfolding validate_role
validate_basic props = do
  throw_if (is_zero props.amount) amount_zero
  throw_if (is_empty props.parties) no_party
  throw_if (is_empty props.objects) no_object
  for_each props.parties validate_role

-- The three totals of `validateFlow`.
pub record FlowTotals : Type 0 where
  pub total_in : Money
  pub total_out : Money
  pub total_neutral : Money

-- The `switch` on the direction of a party that carries an amount.
abbrev pub add_flow : Direction → Money → FlowTotals → Throws FlowTotals
add_flow Direction.inbound amount f = do
  total ← add f.total_in amount
  ok (record f { total_in = total })
add_flow Direction.outbound amount f = do
  total ← add f.total_out amount
  ok (record f { total_out = total })
add_flow Direction.neutral amount f = do
  total ← add f.total_neutral amount
  ok (record f { total_neutral = total })

abbrev pub party_flow : String → Option Money → Direction → FlowTotals → Throws FlowTotals
party_flow currency none direction f = ok f
party_flow currency (some amount) direction f = do
  throw_if (not (amount.currency == currency)) party_currency_mismatch
  add_flow direction amount f

-- The loop over the parties.
unfoldable pub total_flow : String → List LedgerEventParty → FlowTotals → Throws FlowTotals
total_flow currency [] f = ok f
total_flow currency (p ∷ ps) f =
    party_flow currency p.amount p.direction f >>= λ g. total_flow currency ps g

-- The `switch` on the economic effect.
abbrev pub check_effect : EconomicEffect → Money → FlowTotals → Throws (Unit {0})
check_effect EconomicEffect.cash_internal amount f = do
  throw_if (not (equals f.total_in f.total_out)) internal_unbalanced
  throw_if (not (equals f.total_in amount)) internal_total_mismatch
check_effect EconomicEffect.cash_in amount f = do
  throw_if (is_zero f.total_in) cash_in_without_inbound
  throw_if (not (equals f.total_in amount)) cash_in_total_mismatch
  throw_if (not (is_zero f.total_out)) cash_in_with_outbound
check_effect EconomicEffect.cash_out amount f = do
  throw_if (is_zero f.total_out) cash_out_without_outbound
  throw_if (not (equals f.total_out amount)) cash_out_total_mismatch
  throw_if (not (is_zero f.total_in)) cash_out_with_inbound
check_effect EconomicEffect.non_cash amount f =
    throw_if (not (is_zero f.total_in) || not (is_zero f.total_out)) non_cash_flow
check_effect EconomicEffect.contingent amount f =
    throw_if (not (is_zero f.total_in) || not (is_zero f.total_out)) contingent_flow

abbrev pub check_allocation : FlowTotals → Throws (Unit {0})
check_allocation f =
    let directional = if is_zero f.total_in then f.total_out else f.total_in in
    throw_if
      (not (is_zero f.total_neutral)
        && not (is_zero directional)
        && not (equals f.total_neutral directional))
      allocation_gap

unfoldable pub validate_flow : CreateLedgerEventProps → Throws (Unit {0})
validate_flow props = do
  let currency = props.amount.currency
  nothing ← zero_money currency
  f ←
      total_flow currency props.parties
        (record { total_in = nothing; total_out = nothing; total_neutral = nothing })
  check_effect props.economic_effect props.amount f
  check_allocation f

-- `props.reason?.requiresFollowup`
abbrev pub requires_followup : Option EventReason → Bool
requires_followup none = false
requires_followup (some r) = r.requires_followup

unfoldable pub validate_reason_rules : CreateLedgerEventProps → Throws (Unit {0})
validate_reason_rules props = do
  throw_if (props.economic_effect == EconomicEffect.non_cash && not (is_some props.reason))
      non_cash_without_reason
  throw_if
      (props.economic_effect == EconomicEffect.contingent && not (requires_followup props.reason))
      contingent_without_followup
