-- ===== src/Domain/Money.antt =====
-- Amounts (ledger/src/core/domain/value-objects/Money.ts). `units` is the private field, a whole
-- number of cents; the constructor refuses a negative one, so that it is a natural number.
pub mod Decimal
pub mod Laws
use ledger_system.Prelude.{
  ◌≡◌, ℕ, ◌+◌, ◌*◌, ◌/◌, ◌%◌, String, Bool, true, false, not, ◌&&◌, Option, none, some, List, [],
  ◌∷◌, ltb, leb, ◌==◌, nat_eq, string_eq, if◌then◌else◌, ok, err, ◌>>=◌, ◌>>◌, throw_if,
}
use ledger_system.Prelude.Int.{ℤ, pos, negsuc, sub_ℕ}
use ledger_system.Prelude.Texts.{codes, is_digit, print, read}
use ledger_system.Domain.Errors.{
  LedgerError, money_negative, invalid_currency, invalid_decimal, currency_mismatch,
  negative_subtraction, Throws,
}
use Prim.Native.String.{◌++◌ as append}

pub record Money : Type 0 where
  pub units : ℕ
  pub currency : String

-- `10n ** SCALE`, two decimal places.
abbrev pub scale_factor : ℕ
scale_factor = 100

-- `[A-Z]`
abbrev pub is_upper : ℕ → Bool
is_upper c = leb b'A' c && leb c b'Z'

-- `/^[A-Z]{3}$/`
abbrev pub three_letters : List ℕ → Bool
three_letters (a ∷ b ∷ c ∷ []) = is_upper a && is_upper b && is_upper c
three_letters _ = false

unfoldable pub is_currency : String → Bool
is_currency s = three_letters (codes s)

-- The private constructor.
unfoldable pub new_money : ℤ → String → Throws Money
new_money (negsuc n) currency = err money_negative
new_money (pos n) currency = do
  throw_if (not (is_currency currency)) invalid_currency
  ok (record { units = n; currency = currency })

-- `Money.fromUnits`
unfoldable pub from_units : ℤ → String → Throws Money
unfolding new_money
from_units = new_money

-- `Money.zero`
unfoldable pub zero_money : String → Throws Money
unfolding new_money
zero_money = new_money (pos 0)

-- The part of the pattern after the point: `\d{1,2}$`.
abbrev pub is_fraction : List ℕ → Bool
is_fraction (a ∷ []) = is_digit a
is_fraction (a ∷ b ∷ []) = is_digit a && is_digit b
is_fraction _ = false

-- The part of the pattern after the first digit: `\d*(\.\d{1,2})?$`.
abbrev pub is_rest : List ℕ → Bool
is_rest [] = true
is_rest (c ∷ cs) = let more = is_rest cs in if c == b'.' then is_fraction cs else is_digit c && more

-- `/^\d+(\.\d{1,2})?$/`
abbrev pub is_decimal : List ℕ → Bool
is_decimal [] = false
is_decimal (c ∷ cs) = is_digit c && is_rest cs

-- The first part of `amount.split(".")`.
abbrev pub before_point : List ℕ → List ℕ
before_point [] = []
before_point (c ∷ cs) = let rest = before_point cs in if c == b'.' then [] else c ∷ rest

-- The second part of `amount.split(".")`, where there is one.
abbrev pub after_point : List ℕ → Option (List ℕ)
after_point [] = none
after_point (c ∷ cs) =
    let rest = after_point cs in if c == b'.' then some (before_point cs) else rest

-- `(decimalPartRaw ?? "").padEnd(2, "0")`
abbrev pub pad_end : Option (List ℕ) → List ℕ
pad_end none = b'0' ∷ b'0' ∷ []
pad_end (some []) = b'0' ∷ b'0' ∷ []
pad_end (some (a ∷ [])) = a ∷ b'0' ∷ []
pad_end (some cs) = cs

-- `Money.fromDecimal`
unfoldable pub from_decimal : String → String → Throws Money
unfolding new_money
from_decimal amount currency = do
  let text = codes amount
  throw_if (not (is_decimal text)) invalid_decimal
  let units = read (before_point text) * scale_factor + read (pad_end (after_point text))
  new_money (pos units) currency

assert_same_currency : Money → Money → Throws (Unit {0})
assert_same_currency a b = throw_if (not (a.currency == b.currency)) currency_mismatch

unfoldable pub add : Money → Money → Throws Money
unfolding new_money assert_same_currency
add a b = do assert_same_currency a b; new_money (pos (a.units + b.units)) a.currency

unfoldable pub subtract : Money → Money → Throws Money
unfolding new_money assert_same_currency
subtract a b = do
  assert_same_currency a b
  throw_if (ltb a.units b.units) negative_subtraction
  new_money (sub_ℕ a.units b.units) a.currency

abbrev pub equals : Money → Money → Bool
equals a b = a.units == b.units && a.currency == b.currency

abbrev pub is_zero : Money → Bool
is_zero a = a.units == 0

unfoldable pub greater_than : Money → Money → Throws Bool
unfolding assert_same_currency
greater_than a b = do assert_same_currency a b; ok (ltb b.units a.units)

-- `padStart(2, "0")` of the digits of a number below a hundred.
abbrev pub pad_start : ℕ → String
pad_start n = if ltb n 10 then append "0" (print n) else print n

unfoldable pub to_string : Money → String
to_string m =
    append (print (m.units / scale_factor)) (append "." (pad_start (m.units % scale_factor)))

-- What the constructor guarantees of every amount.
abbrev pub IsMoney : Money → Type 0
IsMoney m = is_currency m.currency ≡ true
