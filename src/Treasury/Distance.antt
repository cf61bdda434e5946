-- ===== src/Treasury/Distance.antt =====
-- The distance of two names (treasury/src/core/domain/services/PartyNormalization.ts). A text is the
-- list of its code units, which `a[i]` and `length` speak of.
pub mod Edits
pub mod Table
use ledger_system.Prelude.{
  ℕ, zero, suc, ◌+◌, Bool, true, false, ◌&&◌, Option, some, List, [], ◌∷◌, ◌==◌, nat_eq, leb,
  length, get_elem?, if◌then◌else◌,
}

abbrev pub Units : Type 0
Units = List ℕ

-- `a === b`
abbrev pub same_units : Units → Units → Bool
same_units [] [] = true
same_units (x ∷ xs) (y ∷ ys) = x == y && same_units xs ys
same_units _ _ = false

-- `Math.min` of two numbers.
abbrev pub smaller : ℕ → ℕ → ℕ
smaller m n = if leb m n then m else n

abbrev pub cost : ℕ → ℕ → ℕ
cost x y = if x == y then 0 else 1

-- `Math.min(current[j - 1] + 1, previous[j] + 1, previous[j - 1] + cost)`
abbrev pub cell : ℕ → ℕ → ℕ → ℕ → ℕ → ℕ
cell left above corner x y = smaller (left + 1) (smaller (above + 1) (corner + cost x y))

-- The inner loop: the cells behind `left`, from the rest of the previous row and of `b`.
pub row_from : ℕ → ℕ → List ℕ → Units → List ℕ
row_from x left (corner ∷ above ∷ previous) (y ∷ ys) =
    cell left above corner x y ∷ row_from x (cell left above corner x y) (above ∷ previous) ys
row_from x left _ _ = []

-- The outer loop, from the row `previous` on; `i` is the number of the row.
pub rows_from : ℕ → List ℕ → Units → Units → List ℕ
rows_from i previous [] b = previous
rows_from i previous (x ∷ xs) b = rows_from (i + 1) (i ∷ row_from x i previous b) xs b

-- `Array.from({ length: b.length + 1 }, (_, i) => i)`, from `i` on.
pub counted : ℕ → Units → List ℕ
counted i [] = i ∷ []
counted i (y ∷ ys) = i ∷ counted (i + 1) ys

-- `editDistance`; `none` is a cell outside of the row.
unfoldable pub edit_distance : Units → Units → Option ℕ
unfolding rows_from counted
edit_distance a b =
    if same_units a b
    then some 0
    else if length a == 0
    then some (length b)
    else if length b == 0
    then some (length a)
    else get_elem? (rows_from 1 (counted 0 b) a b) (length b)
