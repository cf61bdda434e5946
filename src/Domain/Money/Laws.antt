-- ===== src/Domain/Money/Laws.antt =====
-- The arithmetic of amounts (ledger/src/core/domain/value-objects/Money.ts).
use ledger_system.Prelude.{
  ℕ, true, String, ◌+◌, ◌-◌, ◌≤◌, ◌<◌, ◌≡◌, ◌≢◌, arith, ==_false, string_eq, ok, err,
}
use ledger_system.Domain.Errors.{currency_mismatch, negative_subtraction}
use ledger_system.Domain.Money.{Money, IsMoney, is_currency, from_units, zero_money, add, subtract}
use ledger_system.Prelude.Int.{pos}

-- Amounts of one currency add up, and the sum is an amount again.
pub add_same :
    (a b : Money)
    → IsMoney a
    → a.currency ≡ b.currency
    → add a b ≡ ok (record { units = a.units + b.units; currency = a.currency })
unfolding add
add_same a b valid same = ground (arith, string_eq.beq_iff a.currency b.currency)

-- Addition of amounts of two currencies is refused.
pub add_other : (a b : Money) → a.currency ≢ b.currency → add a b ≡ err currency_mismatch
unfolding add
add_other a b other = ground (arith, ==_false a.currency b.currency other)

-- Every way a subtraction can end: amounts of two currencies are refused, so is a negative
-- difference, and else the difference is exact.
pub subtract_outcomes :
    (a b : Money)
    → IsMoney a
    → (a.currency ≢ b.currency → subtract a b ≡ err currency_mismatch)
      × (a.currency ≡ b.currency → a.units < b.units → subtract a b ≡ err negative_subtraction)
      × (a.currency ≡ b.currency
          → b.units ≤ a.units
          → subtract a b ≡ ok (record { units = a.units - b.units; currency = a.currency }))
unfolding subtract
subtract_outcomes a b valid = (
  λ other. ground (arith, ==_false a.currency b.currency other),
  λ same less. ground (arith, string_eq.beq_iff a.currency b.currency),
  λ same fits. ground (arith, string_eq.beq_iff a.currency b.currency),
)

-- Subtraction undoes addition.
pub subtract-add : (a b : Money) {c : Money} → IsMoney a → add a b ≡ ok c → subtract c b ≡ ok a
unfolding add subtract
subtract-add a b {c} valid sum = ground (arith, string_eq.beq_iff a.currency b.currency)

-- A sum that is returned has the units of both.
pub add-units : (a b : Money) {c : Money} → add a b ≡ ok c → c.units ≡ a.units + b.units
unfolding add
add-units a b {c} sum = ground arith

pub zero_money-units : (currency : String) {m : Money} → zero_money currency ≡ ok m → m.units ≡ 0
unfolding zero_money
zero_money-units currency {m} h = ground arith

pub from_units_ok :
    (n : ℕ) (currency : String)
    → is_currency currency ≡ true
    → from_units (pos n) currency ≡ ok (record { units = n; currency = currency })
unfolding from_units
from_units_ok n currency valid = ground (arith, valid)

pub zero_money_ok :
    (currency : String)
    → is_currency currency ≡ true
    → zero_money currency ≡ ok (record { units = 0; currency = currency })
unfolding zero_money
zero_money_ok currency valid = ground (arith, valid)
