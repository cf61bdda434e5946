-- ===== src/Treasury/Distance/Edits.antt =====
-- Edits of one text into another, and the least number of them
-- (treasury/src/core/domain/services/PartyNormalization.ts).
use ledger_system.Prelude.{
  ℕ, suc, ◌+◌, ◌≤◌, [], ◌∷◌, ◌==◌, nat_eq, ◌≡◌, refl, subst, arith, length, inl, inr, Bool-cases,
  ==_true, ==_refl, leb,
}
use ledger_system.Treasury.Distance.{Units, smaller, cost, cell}

-- `n` edits turn one text into the other.
pub data Edits : Units → Units → ℕ → Type 0 where
  done : Edits [] [] 0
  keep : {a b : Units} {n : ℕ} (x : ℕ) → Edits a b n → Edits (x ∷ a) (x ∷ b) n
  replace : {a b : Units} {n : ℕ} (x y : ℕ) → Edits a b n → Edits (x ∷ a) (y ∷ b) (suc n)
  remove : {a b : Units} {n : ℕ} (x : ℕ) → Edits a b n → Edits (x ∷ a) b (suc n)
  put : {a b : Units} {n : ℕ} (y : ℕ) → Edits a b n → Edits a (y ∷ b) (suc n)

-- The recursive definition: what the first unit `x` adds to the distances of the rest.
unfoldable pub with_unit : (Units → ℕ) → ℕ → Units → ℕ
with_unit rest x [] = rest [] + 1
with_unit rest x (y ∷ ys) = cell (with_unit rest x ys) (rest (y ∷ ys)) (rest ys) x y

unfoldable pub distance : Units → Units → ℕ
distance [] b = length b
distance (x ∷ xs) b = with_unit (distance xs) x b

pub distance_nil : (a : Units) → distance a [] ≡ length a
unfolding distance with_unit
distance_nil [] = refl
distance_nil (x ∷ xs) = ground (arith, distance_nil xs)

inserted : (b : Units) → Edits [] b (length b)
inserted [] = done
inserted (y ∷ ys) = put y (inserted ys)

matched : (x y : ℕ) {a b : Units} {n : ℕ} → Edits a b n → Edits (x ∷ a) (y ∷ b) (n + cost x y)
matched x y {a} {b} {n} e = elim (Bool-cases (x == y)) [
  | inl same ↦
      subst (λ z. Edits (x ∷ a) (z ∷ b) (n + cost x y)) (==_true x y same)
        (subst (λ k. Edits (x ∷ a) (x ∷ b) k) (ground (arith, same)) (keep x e))
  | inr other ↦ subst (λ k. Edits (x ∷ a) (y ∷ b) k) (ground (arith, other)) (replace x y e)
]

smaller-either : (P : ℕ → Type 0) (m n : ℕ) → P m → P n → P (smaller m n)
smaller-either P m n hm hn = elim (Bool-cases (leb m n)) [
  | inl less ↦ rw less hm
  | inr more ↦ rw more hn
]

one_more : {a b : Units} (n : ℕ) → Edits a b (suc n) → Edits a b (n + 1)
one_more {a} {b} n e = subst (λ k. Edits a b k) (omega arith) e

with_unit-Edits :
    (xs : Units) (rest : Units → ℕ) (x : ℕ)
    → ((b : Units) → Edits xs b (rest b))
    → (b : Units) → Edits (x ∷ xs) b (with_unit rest x b)
unfolding with_unit
with_unit-Edits xs rest x h [] = one_more (rest []) (remove x (h []))
with_unit-Edits xs rest x h (y ∷ ys) =
    smaller-either (Edits (x ∷ xs) (y ∷ ys)) _ _
      (one_more _ (put y (with_unit-Edits xs rest x h ys)))
      (smaller-either (Edits (x ∷ xs) (y ∷ ys)) _ _ (one_more _ (remove x (h (y ∷ ys))))
        (matched x y (h ys)))

-- The distance can be reached.
pub distance-Edits : (a b : Units) → Edits a b (distance a b)
unfolding distance
distance-Edits [] b = inserted b
distance-Edits (x ∷ xs) b = with_unit-Edits xs (distance xs) x (distance-Edits xs) b

smaller_below : (m n : ℕ) → (smaller m n ≤ m) × (smaller m n ≤ n)
smaller_below m n = (ground arith, ground arith)

distance_remove : (x : ℕ) (xs b : Units) → distance (x ∷ xs) b ≤ distance xs b + 1
unfolding distance with_unit
distance_remove x xs [] = omega arith
distance_remove x xs (y ∷ ys) = ground arith

distance_put : (y : ℕ) (a ys : Units) → distance a (y ∷ ys) ≤ distance a ys + 1
unfolding distance with_unit
distance_put y [] ys = omega arith
distance_put y (x ∷ xs) ys = ground arith

distance_both : (x y : ℕ) (xs ys : Units) → distance (x ∷ xs) (y ∷ ys) ≤ distance xs ys + cost x y
unfolding distance with_unit
distance_both x y xs ys = ground arith

distance_done : distance [] [] ≤ 0
unfolding distance
distance_done = omega arith

-- No edits are fewer.
pub distance_least : {a b : Units} {n : ℕ} → Edits a b n → distance a b ≤ n
distance_least done = distance_done
distance_least (keep {a} {b} {n} x e) =
    ground (arith, distance_least e, distance_both x x a b, ==_refl x)
distance_least (replace {a} {b} {n} x y e) = ground (arith, distance_least e, distance_both x y a b)
distance_least (remove {a} {b} {n} x e) = omega (arith, distance_least e, distance_remove x a b)
distance_least (put {a} {b} {n} y e) = omega (arith, distance_least e, distance_put y a b)
