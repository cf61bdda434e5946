-- ===== src/Domain/Money/Decimal.antt =====
-- `fromDecimal` and `toString` of amounts (ledger/src/core/domain/value-objects/Money.ts).
use Prim.Native.Char.{code}
use Prim.Native.String.append
use mathlib.Core.List.{append-nil}
use Prim.Native.String.{◌++◌ as append_text}
use ledger_system.Prelude.{
  ℕ, zero, suc, ◌/◌, ◌%◌, ◌<◌, String, ◌≡◌, refl, ap, ◌∙◌, Bool, true, ◌&&◌, some, List, [], ◌∷◌,
  ◌++◌, arith, ◌==◌, nat_eq, string_eq, ==_true, ok, All,
}
use ledger_system.Prelude.Texts.{
  codes, is_digit, digit, code-digit, is_digit-digit, print, print_from, read, read_from,
  print-Prints, Prints,
}
use ledger_system.Domain.Money.{
  Money, is_rest, before_point, after_point, pad_start, from_decimal, to_string, IsMoney,
}

codes-append : (s t : String) → codes (append_text s t) ≡ codes s ++ codes t
codes-append String.[] t = ap codes (append.nil t)
codes-append (String.◌∷◌ c s) t =
    ap codes (append.cons c s t) ∙ ap (λ (l : List ℕ). code c ∷ l) (codes-append s t)

-- The two digits of the cents, each written out.
abbrev two_digits : ℕ → String
two_digits n = String.◌∷◌ (digit (n / 10)) (String.◌∷◌ (digit (n % 10)) "")

cents_agree : ℕ → Bool
cents_agree zero = true
cents_agree (suc n) = pad_start n == two_digits n && cents_agree n

cents_agree_below : (n k : ℕ) → cents_agree n ≡ true → k < n → (pad_start k == two_digits k) ≡ true
unfolding cents_agree
cents_agree_below zero k h lt = absurd (omega arith)
cents_agree_below (suc n) k h lt = ground (arith, cents_agree_below n k)

cents_table : cents_agree 100 ≡ true
unfolding cents_agree print print_from
cents_table = refl

pad_start-eq : (n : ℕ) → n < 100 → pad_start n ≡ two_digits n
pad_start-eq n h = ==_true (pad_start n) (two_digits n) (cents_agree_below 100 n cents_table h)

module _ (a b : ℕ) (da : is_digit a ≡ true) (db : is_digit b ≡ true) where
  is_rest_digits :
      (rest : List ℕ)
      → All (λ c. is_digit c ≡ true) rest
      → is_rest (rest ++ b'.' ∷ a ∷ b ∷ []) ≡ true
  is_rest_digits [] h = ground arith
  is_rest_digits (c ∷ rest) h = ground (arith, is_rest_digits rest h.1)

  before_point_digits :
      (rest : List ℕ)
      → All (λ c. is_digit c ≡ true) rest
      → before_point (rest ++ b'.' ∷ a ∷ b ∷ []) ≡ rest
  before_point_digits [] h = refl
  before_point_digits (c ∷ rest) h = ground (arith, before_point_digits rest h.1)

  after_point_digits :
      (rest : List ℕ)
      → All (λ c. is_digit c ≡ true) rest
      → after_point (rest ++ b'.' ∷ a ∷ b ∷ []) ≡ some (a ∷ b ∷ [])
  after_point_digits [] h = ground arith
  after_point_digits (c ∷ rest) h = ground (arith, after_point_digits rest h.1)

-- What `toString` prints: the digits of the whole part, a point, and two digits of cents.
to_string-codes :
    (m : Money) (p : Prints (m.units / 100) (print (m.units / 100)) "")
    → codes (to_string m)
      ≡ p.first
        ∷ (p.rest
            ++ b'.' ∷ code (digit (m.units % 100 / 10)) ∷ code (digit (m.units % 100 % 10)) ∷ [])
unfolding to_string
to_string-codes m p =
    codes-append (print (m.units / 100)) (append_text "." (pad_start (m.units % 100)))
    ∙ ap (λ (l : List ℕ). l ++ codes (append_text "." (pad_start (m.units % 100)))) whole
    ∙ ap (λ (l : List ℕ). (p.first ∷ p.rest) ++ l)
        (codes-append "." (pad_start (m.units % 100))
          ∙ ap (λ (s : String). b'.' ∷ codes s) (pad_start-eq (m.units % 100) (omega arith)))
  where
    whole : codes (print (m.units / 100)) ≡ p.first ∷ p.rest
    whole = p.split ∙ ap (λ (l : List ℕ). p.first ∷ l) (append-nil p.rest)

-- Two digits of cents read back as the cents.
read-two_digits : (n : ℕ) → n < 100 → read (code (digit (n / 10)) ∷ code (digit (n % 10)) ∷ []) ≡ n
unfolding read read_from
read-two_digits n h =
    ground (arith, code-digit (n / 10) (omega arith), code-digit (n % 10) (omega arith))

-- Reading the text that `toString` prints of an amount, in its own currency, gives the amount back.
pub from_decimal-to_string : (m : Money) → IsMoney m → from_decimal (to_string m) m.currency ≡ ok m
unfolding from_decimal
from_decimal-to_string m valid =
    let p = print-Prints (m.units / 100) in
    let cents = m.units % 100 in
    let a = code (digit (cents / 10)) in
    let b = code (digit (cents % 10)) in
    let da : is_digit a ≡ true = is_digit-digit (cents / 10) (omega arith) in
    let db : is_digit b ≡ true = is_digit-digit (cents % 10) (omega arith) in
    let dp : is_digit p.first ≡ true = p.first_digit in
    let whole : read (p.first ∷ p.rest) ≡ m.units / 100 = p.value in
    let part : read (a ∷ b ∷ []) ≡ cents = read-two_digits cents (omega arith) in
    rw (to_string-codes m p) (
      ground (
        arith,
        dp,
        valid,
        whole,
        part,
        is_rest_digits a b da db p.rest p.rest_digits,
        before_point_digits a b da db p.rest p.rest_digits,
        after_point_digits a b da db p.rest p.rest_digits,
      ))
