-- ===== src/Prelude/Effects.antt =====
-- Errors as values: a computation that may `throw`, in `do` blocks, and loops whose body may throw.
use mathlib.Core.Path.{◌≡◌, refl}
use mathlib.Core.Bool.{Bool, true, false}
use mathlib.Core.List.{List, [], ◌∷◌}
use ledger_system.Prelude.Lists.{All}

pub data Result {ℓ} (E : Type 0) (A : Type ℓ) : Type ℓ where
  ok : A → Result E A
  err : E → Result E A

-- The next statement, with the value of the one before it.
infixl 5 ◌>>=◌
abbrev pub ◌>>=◌ {ℓ κ} :
    {E : Type 0} {A : Type ℓ} {B : Type κ} → Result E A → (A → Result E B) → Result E B
err e >>= next = err e
ok a >>= next = next a

-- The next statement, where the one before it only throws.
infixl 5 ◌>>◌
abbrev pub ◌>>◌ {κ} : {E : Type 0} {B : Type κ} → Result E (Unit {0}) → Result E B → Result E B
check >> next = check >>= λ _. next

abbrev pub throw_if : {E : Type 0} → Bool → E → Result E (Unit {0})
throw_if true e = err e
throw_if false e = ok tt

-- `for (const x of xs) body(x)`, where the body may throw.
unfoldable pub for_each : {E A : Type 0} → List A → (A → Result E (Unit {0})) → Result E (Unit {0})
for_each [] body = ok tt
for_each (x ∷ xs) body = let rest = for_each xs body in body x >>= λ _. rest

-- Whether a computation ended without an error.
abbrev pub IsOk {ℓ} : {E : Type 0} {A : Type ℓ} → Result E A → Type 0
IsOk (ok a) = Unit
IsOk (err e) = ⊥

-- A computation that returns ran its first part to the end.
pub >>=-eq-ok {ℓ κ} :
    {E : Type 0} {A : Type ℓ} {B : Type κ} (first : Result E A) (next : A → Result E B) {r : B}
    → first >>= next ≡ ok r
    → (x : A) × (first ≡ ok x) × (next x ≡ ok r)
>>=-eq-ok (err e) next returned = cc
>>=-eq-ok (ok x) next returned = (x, refl, returned)

pub >>-eq-ok {κ} :
    {E : Type 0} {B : Type κ} (m : Result E (Unit {0})) (k : Result E B) {b : B}
    → (m >> k) ≡ ok b
    → (m ≡ ok tt) × (k ≡ ok b)
>>-eq-ok (ok a) k h = (refl, h)
>>-eq-ok (err e) k h = cc

pub throw_if-eq-ok : {E : Type 0} (b : Bool) (e : E) → throw_if b e ≡ ok tt → b ≡ false
throw_if-eq-ok true e h = cc
throw_if-eq-ok false e h = refl

-- A loop ends without an error exactly when its body does for every element.
pub for_each-eq-ok :
    {E A : Type 0} (xs : List A) (body : A → Result E (Unit {0}))
    → for_each xs body ≡ ok tt
    → All (λ x. body x ≡ ok tt) xs
unfolding for_each
for_each-eq-ok [] body h = tt
for_each-eq-ok (x ∷ xs) body h =
    let (here, rest) = >>-eq-ok (body x) (for_each xs body) h in (here, for_each-eq-ok xs body rest)

pub for_each_ok :
    {E A : Type 0} (xs : List A) (body : A → Result E (Unit {0}))
    → All (λ x. body x ≡ ok tt) xs
    → for_each xs body ≡ ok tt
unfolding for_each
for_each_ok [] body h = refl
for_each_ok (x ∷ xs) body (here, rest) = rw here (for_each_ok xs body rest)

pub ok_injective {ℓ} :
    {E : Type 0} {A : Type ℓ} {a b : A} → ◌≡◌ {A = Result E A} (ok a) (ok b) → a ≡ b
ok_injective h = cc
