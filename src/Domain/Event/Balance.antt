-- ===== src/Domain/Event/Balance.antt =====
-- What `validateFlow` accepts (ledger/src/core/domain/entities/LedgerEvent.ts), stated by the sums
-- of the parties' amounts.
use ledger_system.Prelude.{
  ℕ, ◌+◌, String, ◌≡◌, ◌≢◌, ◌↔◌, ◌⊎◌, inl, inr, refl, ◌∙◌, true, Option, none, some, List, [], ◌∷◌,
  All, ◌==◌, string_eq, ==_refl, if◌then◌else◌, ok, ◌>>◌, >>=-eq-ok, >>-eq-ok, arith, Bool-cases,
}
use ledger_system.Domain.Enums.{EconomicEffect, Direction, direction_eq}
use ledger_system.Domain.Money.{Money, is_currency, zero_money, add}
use ledger_system.Domain.Entities.{LedgerEventParty, CreateLedgerEventProps}
use ledger_system.Domain.Event.{
  FlowTotals, party_flow, total_flow, check_effect, check_allocation, validate_flow,
}

abbrev pub units_of : Option Money → ℕ
units_of none = 0
units_of (some m) = m.units

-- The sum of the amounts of the parties of one direction.
abbrev pub moved : Direction → List LedgerEventParty → ℕ
moved d [] = 0
moved d (p ∷ ps) = (if p.direction == d then units_of p.amount else 0) + moved d ps

abbrev pub IsIn : String → Option Money → Type 0
IsIn currency none = Unit
IsIn currency (some m) = m.currency ≡ currency

-- What an economic effect demands of the cash that comes in and goes out, against the event's amount.
abbrev pub Balances : EconomicEffect → (amount total_in total_out : ℕ) → Type 0
Balances EconomicEffect.cash_in amount i o = (i ≢ 0) × (i ≡ amount) × (o ≡ 0)
Balances EconomicEffect.cash_out amount i o = (o ≢ 0) × (o ≡ amount) × (i ≡ 0)
Balances EconomicEffect.cash_internal amount i o = (i ≡ o) × (i ≡ amount)
Balances EconomicEffect.non_cash amount i o = (i ≡ 0) × (o ≡ 0)
Balances EconomicEffect.contingent amount i o = (i ≡ 0) × (o ≡ 0)

-- Allocated amounts account for all of the cash that moves, where both are present.
abbrev pub Allocates : (total_in total_out total_neutral : ℕ) → Type 0
Allocates i o n = (n ≡ 0) ⊎ ((i ≡ 0) × (o ≡ 0)) ⊎ ((i ≢ 0) × (n ≡ i)) ⊎ ((i ≡ 0) × (n ≡ o))

pub record IsBalanced (props : CreateLedgerEventProps) : Type 0 where
  pub currency : is_currency props.amount.currency ≡ true
  pub one_currency : All (λ p. IsIn props.amount.currency p.amount) props.parties
  pub balances :
      Balances props.economic_effect props.amount.units
        (moved Direction.inbound props.parties)
        (moved Direction.outbound props.parties)
  pub allocates :
      Allocates
        (moved Direction.inbound props.parties)
        (moved Direction.outbound props.parties)
        (moved Direction.neutral props.parties)

abbrev flow : String → ℕ → ℕ → ℕ → FlowTotals
flow currency i o n = record {
  total_in = record { units = i; currency = currency };
  total_out = record { units = o; currency = currency };
  total_neutral = record { units = n; currency = currency };
}

module _ (currency : String) (valid : is_currency currency ≡ true) where
  party_flow_ok :
      (amount : Option Money) (d : Direction) (i o n : ℕ)
      → IsIn currency amount
      → party_flow currency amount d (flow currency i o n)
        ≡ ok (
            flow currency
              (i + (if d == Direction.inbound then units_of amount else 0))
              (o + (if d == Direction.outbound then units_of amount else 0))
              (n + (if d == Direction.neutral then units_of amount else 0)))
  unfolding add
  party_flow_ok none d i o n h = ground arith
  party_flow_ok (some m) Direction.inbound i o n h =
      ground
        (arith, valid, string_eq.beq_iff m.currency currency, string_eq.beq_iff currency m.currency)
  party_flow_ok (some m) _ i o n h =
      ground
        (arith, valid, string_eq.beq_iff m.currency currency, string_eq.beq_iff currency m.currency)

  total_flow_ok :
      (ps : List LedgerEventParty) (i o n : ℕ)
      → All (λ p. IsIn currency p.amount) ps
      → total_flow currency ps (flow currency i o n)
        ≡ ok (
            flow currency
              (i + moved Direction.inbound ps)
              (o + moved Direction.outbound ps)
              (n + moved Direction.neutral ps))
  unfolding total_flow
  total_flow_ok [] i o n h = ground arith
  total_flow_ok (p ∷ ps) i o n h =
      rw (party_flow_ok p.amount p.direction i o n h.0) (total_flow_ok ps _ _ _ h.1 ∙ ground arith)

total_flow-one_currency :
    (currency : String) (ps : List LedgerEventParty) (f : FlowTotals) {g : FlowTotals}
    → total_flow currency ps f ≡ ok g
    → All (λ p. IsIn currency p.amount) ps
unfolding total_flow
total_flow-one_currency currency [] f h = tt
total_flow-one_currency currency (p ∷ ps) f h =
    let (g, now, later) =
      >>=-eq-ok (party_flow currency p.amount p.direction f) (total_flow currency ps) h in
    (own p.amount p.direction f now, total_flow-one_currency currency ps g later)
  where
    own :
        (a : Option Money) (d : Direction) (f : FlowTotals) {g : FlowTotals}
        → party_flow currency a d f ≡ ok g
        → IsIn currency a
    own none d f e = tt
    own (some m) d f e = ground (arith, string_eq.beq_iff m.currency currency)

module _ (currency : String) (i o n : ℕ) where
  check_effect_iff :
      (e : EconomicEffect) (amount : Money)
      → amount.currency ≡ currency
      → (check_effect e amount (flow currency i o n) ≡ ok tt) ↔ Balances e amount.units i o
  check_effect_iff EconomicEffect.cash_in amount h =
      (ground (arith, ==_refl currency, h), ground (arith, ==_refl currency, h))
  check_effect_iff _ amount h =
      (ground (arith, ==_refl currency, h), ground (arith, ==_refl currency, h))

  check_allocation_iff : (check_allocation (flow currency i o n) ≡ ok tt) ↔ Allocates i o n
  check_allocation_iff = (ground (arith, ==_refl currency), ground (arith, ==_refl currency))

-- The sums of the parties, as the checks see them.
abbrev sums : CreateLedgerEventProps → FlowTotals
sums props =
    flow props.amount.currency (moved Direction.inbound props.parties)
      (moved Direction.outbound props.parties) (moved Direction.neutral props.parties)

total_flow-sums :
    (props : CreateLedgerEventProps)
    → is_currency props.amount.currency ≡ true
    → All (λ p. IsIn props.amount.currency p.amount) props.parties
    → total_flow props.amount.currency props.parties (flow props.amount.currency 0 0 0)
      ≡ ok (sums props)
total_flow-sums props v one =
    total_flow_ok props.amount.currency v props.parties 0 0 0 one ∙ ground arith

-- With a valid currency the checks run on the sums.
validate_flow-sums :
    (props : CreateLedgerEventProps)
    → is_currency props.amount.currency ≡ true
    → All (λ p. IsIn props.amount.currency p.amount) props.parties
    → validate_flow props ≡ (
        check_effect props.economic_effect props.amount (sums props)
        >> check_allocation (sums props))
unfolding validate_flow zero_money
validate_flow-sums props v one = rw v (rw (total_flow-sums props v one))

-- What a successful run has passed on its way to the checks.
validate_flow-one_currency :
    (props : CreateLedgerEventProps)
    → validate_flow props ≡ ok tt
    → (is_currency props.amount.currency ≡ true)
      × All (λ p. IsIn props.amount.currency p.amount) props.parties
unfolding validate_flow zero_money
validate_flow-one_currency props h = elim (Bool-cases (is_currency props.amount.currency)) [
  | inr bad ↦ cc (bad, h)
  | inl v ↦
      let (f, run, rest) =
        >>=-eq-ok
          (total_flow props.amount.currency props.parties (flow props.amount.currency 0 0 0))
          (λ f. check_effect props.economic_effect props.amount f >> check_allocation f)
          (rw v at h) in
      (v, total_flow-one_currency props.amount.currency props.parties _ run)
]

-- The flow checks accept an event exactly when its amounts are in one valid currency, its inbound
-- and outbound sums are what the economic effect demands of the event's amount, and its neutral
-- sum, where both are present, accounts for the cash that moves.
pub validate_flow_iff :
    (props : CreateLedgerEventProps) → (validate_flow props ≡ ok tt) ↔ IsBalanced props
validate_flow_iff props = (sound, complete)
  where
    sound : validate_flow props ≡ ok tt → IsBalanced props
    sound h =
        let (v, one) = validate_flow-one_currency props h in
        let (effect, allocation) = >>-eq-ok _ _ (rw (validate_flow-sums props v one) at h) in
        record {
          currency = v;
          one_currency = one;
          balances = (check_effect_iff _ _ _ _ props.economic_effect props.amount refl).0 effect;
          allocates = (check_allocation_iff props.amount.currency _ _ _).0 allocation;
        }

    complete : IsBalanced props → validate_flow props ≡ ok tt
    complete b = rw (validate_flow-sums props b.currency b.one_currency) (
        rw ((check_effect_iff _ _ _ _ props.economic_effect props.amount refl).1 b.balances)
          ((check_allocation_iff props.amount.currency _ _ _).1 b.allocates))
