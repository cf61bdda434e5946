-- ===== src/Prelude/Strings/Blank.antt =====
-- Texts that `trim` leaves empty.
use Prim.Native.Char.{Char, code}
use Prim.Native.String.{String}
use Prim.Native.String.append
use mathlib.Core.Path.{◌≡◌, refl, ap, ◌∙◌}
use mathlib.Core.Logic.{inl, inr}
use mathlib.Core.Bool.{Bool, true, false, ◌&&◌}
use native.Mathlib.Omega.{arith}
use ledger_system.Prelude.Tests.{◌==◌, string_eq, Bool-cases, ==_false, if◌then◌else◌}
use ledger_system.Prelude.Strings.{◌<>◌, is_space, trim_start, trim_end, trim, is_blank}

-- Whether a text has only spaces.
all_space : String → Bool
all_space String.[] = true
all_space (String.◌∷◌ c s) = is_space (code c) && all_space s

nonempty : (c : Char) (s : String) → (String.◌∷◌ c s == "") ≡ false
nonempty c s = ==_false (String.◌∷◌ c s) "" (λ e. cc e)

trim_end-all_space : (s : String) → (trim_end s == "") ≡ all_space s
unfolding trim_end all_space
trim_end-all_space String.[] = refl
trim_end-all_space (String.◌∷◌ c s) = elim (Bool-cases (trim_end s == "" && is_space (code c))) [
  | inl gone ↦ rw (gone) (ground (arith, gone, trim_end-all_space s))
  | inr left ↦ rw (left) (ground (arith, left, trim_end-all_space s, nonempty c (trim_end s)))
]

-- The choice of `trim_start`, for any outcome of the test.
all_space-if :
    (b : Bool) (rest whole : String) (is_rest : Bool)
    → all_space rest ≡ is_rest
    → all_space whole ≡ (b && is_rest)
    → all_space (if b then rest else whole) ≡ (b && is_rest)
all_space-if true rest whole r h k = h
all_space-if false rest whole r h k = k

trim_start-all_space : (s : String) → all_space (trim_start s) ≡ all_space s
unfolding trim_start all_space
trim_start-all_space String.[] = refl
trim_start-all_space (String.◌∷◌ c s) =
    all_space-if (is_space (code c)) (trim_start s) (String.◌∷◌ c s) (all_space s)
      (trim_start-all_space s) refl

all_space-append : (s t : String) → all_space (s <> t) ≡ (all_space s && all_space t)
unfolding all_space
all_space-append String.[] t = ap all_space (append.nil t)
all_space-append (String.◌∷◌ c s) t =
    ap all_space (append.cons c s t) ∙ ground (arith, all_space-append s t)

is_blank-all_space : (s : String) → is_blank s ≡ all_space s
unfolding is_blank trim
is_blank-all_space s = trim_end-all_space (trim_start s) ∙ trim_start-all_space s

-- A text that begins with one that is not blank is not blank.
pub is_blank-append : (s t : String) → is_blank s ≡ false → is_blank (s <> t) ≡ false
is_blank-append s t h =
    ground (arith, is_blank-all_space s, is_blank-all_space (s <> t), all_space-append s t)

-- A text that `trim` does not leave empty.
pub record IsVisible (s : String) : Type 0 where
  pub visible : is_blank s ≡ false

pub append-IsVisible : (s t : String) → is_blank s ≡ false → IsVisible (s <> t)
append-IsVisible s t h = record { visible = is_blank-append s t h }
