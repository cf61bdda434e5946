-- ===== src/Prelude/Texts.antt =====
-- Texts as the code points that a regular expression or a number parser walks, and numbers in
-- decimal, as `BigInt.prototype.toString` prints them and `BigInt(text)` reads them.
use Prim.Native.Nat.{ℕ, zero, suc, ◌+◌, ◌-◌, ◌*◌, ◌/◌, ◌%◌, ◌<◌}
use Prim.Native.Char.{Char, code}
use Prim.Native.String.{String}
use mathlib.Core.Path.{◌≡◌, refl, sym, ap, ◌∙◌}
use mathlib.Core.Logic.{inl, inr}
use mathlib.Core.Bool.{Bool, true, ◌&&◌}
use mathlib.Core.List.{List, [], ◌∷◌, ◌++◌, append_assoc}
use native.Mathlib.Omega.{arith}
use ledger_system.Prelude.Tests.{ltb, leb, Bool-cases, if◌then◌else◌}
use ledger_system.Prelude.Lists.{All}

abbrev pub codes : String → List ℕ
codes String.[] = []
codes (String.◌∷◌ c s) = code c ∷ codes s

-- `[0-9]`
abbrev pub is_digit : ℕ → Bool
is_digit c = leb b'0' c && leb c b'9'

-- The digits of a number below ten.
abbrev pub digit : ℕ → Char
digit zero = "0"
digit (suc zero) = "1"
digit (suc (suc zero)) = "2"
digit (suc (suc (suc zero))) = "3"
digit (suc (suc (suc (suc zero)))) = "4"
digit (suc (suc (suc (suc (suc zero))))) = "5"
digit (suc (suc (suc (suc (suc (suc zero)))))) = "6"
digit (suc (suc (suc (suc (suc (suc (suc zero))))))) = "7"
digit (suc (suc (suc (suc (suc (suc (suc (suc zero)))))))) = "8"
digit (suc (suc (suc (suc (suc (suc (suc (suc (suc n))))))))) = "9"

-- The digits of `n` before the text `out`; one unit of fuel for each digit.
unfoldable pub print_from : ℕ → ℕ → String → String
print_from zero n out = out
print_from (suc fuel) n out =
    let shown = String.◌∷◌ (digit (n % 10)) out in
    let rest = print_from fuel (n / 10) shown in if ltb n 10 then shown else rest

-- `n.toString()`; a number has at most `n + 1` digits.
unfoldable pub print : ℕ → String
unfolding print_from
print n = print_from (n + 1) n ""

-- The value of a run of digits behind the value `acc`.
unfoldable pub read_from : ℕ → List ℕ → ℕ
read_from acc [] = acc
read_from acc (c ∷ cs) = read_from (acc * 10 + (c - b'0')) cs

-- `BigInt(text)` of a run of digits; the empty text reads as 0.
unfoldable pub read : List ℕ → ℕ
unfolding read_from
read = read_from 0

pub code-digit : (n : ℕ) → n < 10 → code (digit n) ≡ b'0' + n
code-digit zero h = refl
code-digit (suc zero) h = refl
code-digit (suc (suc zero)) h = refl
code-digit (suc (suc (suc zero))) h = refl
code-digit (suc (suc (suc (suc zero)))) h = refl
code-digit (suc (suc (suc (suc (suc zero))))) h = refl
code-digit (suc (suc (suc (suc (suc (suc zero)))))) h = refl
code-digit (suc (suc (suc (suc (suc (suc (suc zero))))))) h = refl
code-digit (suc (suc (suc (suc (suc (suc (suc (suc zero)))))))) h = refl
code-digit (suc (suc (suc (suc (suc (suc (suc (suc (suc zero))))))))) h = refl
code-digit (suc (suc (suc (suc (suc (suc (suc (suc (suc (suc n)))))))))) h = absurd (omega arith)

pub is_digit-digit : (n : ℕ) → n < 10 → is_digit (code (digit n)) ≡ true
is_digit-digit n h = ground (arith, code-digit n h)

-- What `print_from` puts before `out`: at least one digit, all of them digits, of value `n`.
pub record Prints (n : ℕ) (s out : String) : Type 0 where
  pub first : ℕ
  pub rest : List ℕ
  pub split : codes s ≡ first ∷ (rest ++ codes out)
  pub first_digit : is_digit first ≡ true
  pub rest_digits : All (λ c. is_digit c ≡ true) rest
  pub value : read (first ∷ rest) ≡ n

read_from-append :
    (acc : ℕ) (cs : List ℕ) (c : ℕ)
    → read_from acc (cs ++ c ∷ []) ≡ read_from acc cs * 10 + (c - b'0')
unfolding read_from
read_from-append acc [] c = refl
read_from-append acc (b ∷ cs) c = read_from-append (acc * 10 + (b - b'0')) cs c

All-append_one : (P : ℕ → Type 0) (cs : List ℕ) (c : ℕ) → All P cs → P c → All P (cs ++ c ∷ [])
All-append_one P [] c h p = (p, tt)
All-append_one P (b ∷ cs) c h p = (h.0, All-append_one P cs c h.1 p)

-- One more digit behind a printed number.
Prints-step :
    (n : ℕ) (s out : String) → Prints (n / 10) s (String.◌∷◌ (digit (n % 10)) out) → Prints n s out
unfolding read
Prints-step n s out p =
    let c = code (digit (n % 10)) in
    let is_c : c ≡ b'0' + n % 10 = code-digit (n % 10) (omega arith) in
    let whole : read_from 0 (p.first ∷ (p.rest ++ c ∷ []))
        ≡ read_from 0 (p.first ∷ p.rest) * 10 + (c - b'0') =
      read_from-append 0 (p.first ∷ p.rest) c in
    let earlier : read_from 0 (p.first ∷ p.rest) ≡ n / 10 = p.value in
    record {
      first = p.first;
      rest = p.rest ++ c ∷ [];
      split = p.split ∙ ap (λ l. p.first ∷ l) (sym (append_assoc p.rest (c ∷ []) (codes out)));
      first_digit = p.first_digit;
      rest_digits =
          All-append_one (λ d. is_digit d ≡ true) p.rest c p.rest_digits
            (is_digit-digit (n % 10) (omega arith));
      value = whole ∙ omega arith;
    }

print_from-Prints : (fuel n : ℕ) (out : String) → n < fuel → Prints n (print_from fuel n out) out
unfolding print_from read read_from
print_from-Prints zero n out h = absurd (omega arith)
print_from-Prints (suc fuel) n out h = elim (Bool-cases (ltb n 10)) [
  | inl small ↦ rw small (record {
    first = code (digit (n % 10));
    rest = [];
    split = refl;
    first_digit = is_digit-digit (n % 10) (omega arith);
    rest_digits = tt;
    value = ground (arith, code-digit (n % 10) (omega arith));
  })
  | inr large ↦ rw large (
      Prints-step n _ out
        (print_from-Prints fuel (n / 10) (String.◌∷◌ (digit (n % 10)) out) (ground arith)))
]

-- `n.toString()` is a run of digits that reads back as `n`.
pub print-Prints : (n : ℕ) → Prints n (print n) ""
unfolding print
print-Prints n = print_from-Prints (n + 1) n "" (omega arith)
