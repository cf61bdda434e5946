-- ===== src/Treasury/Distance/Table.antt =====
-- The rows of `editDistance` (treasury/src/core/domain/services/PartyNormalization.ts).
use ledger_system.Prelude.{
  ℕ, suc, ◌+◌, ◌≤◌, true, false, some, List, [], ◌∷◌, ◌++◌, nat_eq, ◌≡◌, refl, sym, ap, subst, ◌∙◌,
  arith, length, get_elem?, inl, inr, Bool-cases, ==_true,
}
use ledger_system.Treasury.Distance.{Units, same_units, row_from, rows_from, counted, edit_distance}
use ledger_system.Treasury.Distance.Edits.{
  Edits, done, keep, replace, remove, put, with_unit, distance, distance_nil, distance-Edits,
  distance_least,
}

-- A text, backwards before another.
back : Units → Units → Units
back [] acc = acc
back (x ∷ xs) acc = back xs (x ∷ acc)

recount : {a b : Units} {n m : ℕ} → n ≡ m → Edits a b n → Edits a b m
recount {a} {b} same e = subst (λ k. Edits a b k) same e

back-Edits :
    {a b c d : Units} {n m : ℕ} → Edits a b n → Edits c d m → Edits (back a c) (back b d) (n + m)
unfolding back
back-Edits {c} {d} {m} done f = recount (omega arith) f
back-Edits (keep x e) f = back-Edits e (keep x f)
back-Edits {m} (replace {n} x y e) f = recount (omega arith) (back-Edits e (replace x y f))
back-Edits {m} (remove {n} x e) f = recount (omega arith) (back-Edits e (remove x f))
back-Edits {m} (put {n} y e) f = recount (omega arith) (back-Edits e (put y f))

back-back : (a c z : Units) → back (back a c) z ≡ back c (a ++ z)
unfolding back
back-back [] c z = refl
back-back (x ∷ xs) c z = back-back xs (x ∷ c) z

append_nil : (a : Units) → a ++ [] ≡ a
append_nil [] = refl
append_nil (x ∷ xs) = ap (λ r. x ∷ r) (append_nil xs)

twice : (a : Units) → back (back a []) [] ≡ a
unfolding back
twice a = back-back a [] [] ∙ append_nil a

-- The row of a function on the prefixes of a text, each backwards.
row : (Units → ℕ) → Units → Units → List ℕ
row f acc [] = f acc ∷ []
row f acc (y ∷ ys) = f acc ∷ row f (y ∷ acc) ys

row_from-row :
    (x : ℕ) (ra acc ys : Units)
    → distance (x ∷ ra) acc ∷ row_from x (distance (x ∷ ra) acc) (row (distance ra) acc ys) ys
      ≡ row (distance (x ∷ ra)) acc ys
unfolding row_from row distance with_unit
row_from-row x ra acc [] = refl
row_from-row x ra acc (y ∷ []) = refl
row_from-row x ra acc (y ∷ z ∷ zs) =
    ap (λ r. distance (x ∷ ra) acc ∷ r) (row_from-row x ra (y ∷ acc) (z ∷ zs))

rows_from-row :
    (i : ℕ) (ra xs b : Units)
    → i ≡ length ra + 1
    → rows_from i (row (distance ra) [] b) xs b ≡ row (distance (back xs ra)) [] b
unfolding rows_from back
rows_from-row i ra [] b h = refl
rows_from-row i ra (x ∷ xs) b h =
    let first : i ≡ distance (x ∷ ra) [] = h ∙ sym (distance_nil (x ∷ ra) ∙ omega arith) in
    let next : i ∷ row_from x i (row (distance ra) [] b) b ≡ row (distance (x ∷ ra)) [] b =
      ap (λ k. k ∷ row_from x k (row (distance ra) [] b) b) first ∙ row_from-row x ra [] b in
    ap (λ r. rows_from (i + 1) r xs b) next ∙ rows_from-row (i + 1) (x ∷ ra) xs b (omega (arith, h))

counted-row : (acc b : Units) → counted (length acc) b ≡ row (distance []) acc b
unfolding counted row distance
counted-row acc [] = refl
counted-row acc (y ∷ ys) =
    ap (λ r. length acc ∷ r) (ap (λ k. counted k ys) (omega arith) ∙ counted-row (y ∷ acc) ys)

at_end :
    (f : Units → ℕ) (acc ys : Units) → get_elem? (row f acc ys) (length ys) ≡ some (f (back ys acc))
unfolding row back
at_end f acc [] = refl
at_end f acc (y ∷ ys) = at_end f (y ∷ acc) ys

-- The value that a distance must have: it is reached, and no edits are fewer.
abbrev pub IsLeast : Units → Units → ℕ → Type 0
IsLeast a b n = Edits a b n × ((m : ℕ) → Edits a b m → n ≤ m)

table_end :
    (a b : Units)
    → get_elem? (rows_from 1 (counted 0 b) a b) (length b) ≡ some (distance (back a []) (back b []))
table_end a b =
    ap (λ r. get_elem? (rows_from 1 r a b) (length b)) (counted-row [] b)
    ∙ ap (λ r. get_elem? r (length b)) (rows_from-row 1 [] a b refl)
    ∙ at_end (distance (back a [])) [] b

back-IsLeast : (a b : Units) → IsLeast a b (distance (back a []) (back b []))
back-IsLeast a b = (
  subst (λ x. Edits x b (distance (back a []) (back b []))) (twice a)
      (subst (λ y. Edits (back (back a []) []) y (distance (back a []) (back b []))) (twice b)
        (recount (omega arith) (back-Edits (distance-Edits (back a []) (back b [])) done))),
  λ m e. distance_least (recount (omega arith) (back-Edits e done)),
)

unchanged : (a : Units) → Edits a a 0
unchanged [] = done
unchanged (x ∷ xs) = keep x (unchanged xs)

same_units-eq : (a b : Units) → same_units a b ≡ true → a ≡ b
same_units-eq [] [] h = refl
same_units-eq [] (y ∷ ys) h = cc h
same_units-eq (x ∷ xs) [] h = cc h
same_units-eq (x ∷ xs) (y ∷ ys) h =
    cc (==_true x y (ground (arith, h)), same_units-eq xs ys (ground (arith, h)))

same-IsLeast : (a b : Units) → same_units a b ≡ true → IsLeast a b 0
same-IsLeast a b h =
    (subst (λ y. Edits a y 0) (same_units-eq a b h) (unchanged a), λ m e. omega arith)

nil-IsLeast : (b : Units) → IsLeast [] b (length b)
unfolding distance
nil-IsLeast b = (distance-Edits [] b, λ m e. distance_least e)

right_nil-IsLeast : (a : Units) → IsLeast a [] (length a)
right_nil-IsLeast a =
    subst (λ n. IsLeast a [] n) (distance_nil a) (distance-Edits a [], λ m e. distance_least e)

unequal :
    (a b : Units) → same_units a b ≡ false → (n : ℕ) × (edit_distance a b ≡ some n) × IsLeast a b n
unfolding edit_distance
unequal [] b differ = (length b, rw differ refl, nil-IsLeast b)
unequal (x ∷ xs) [] differ = (suc (length xs), ground (arith, differ), right_nil-IsLeast (x ∷ xs))
unequal (x ∷ xs) (y ∷ ys) differ = (
  distance (back (x ∷ xs) []) (back (y ∷ ys) []),
  ground (arith, differ, table_end (x ∷ xs) (y ∷ ys)),
  back-IsLeast (x ∷ xs) (y ∷ ys),
)

-- `editDistance` never reads outside of a row, and returns the least number of units to insert,
-- remove or replace that turns one text into the other.
pub edit_distance-IsLeast : (a b : Units) → (n : ℕ) × (edit_distance a b ≡ some n) × IsLeast a b n
unfolding edit_distance
edit_distance-IsLeast a b = elim (Bool-cases (same_units a b)) [
  | inl same ↦ (0, rw same refl, same-IsLeast a b same)
  | inr differ ↦ unequal a b differ
]
