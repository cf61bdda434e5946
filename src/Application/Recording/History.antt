-- ===== src/Application/Recording/History.antt =====
-- How a book comes about: every event was accepted behind the ones before it
-- (ledger/src/core/application/use-cases/CreateLedgerEventUseCase.ts).
use ledger_system.Prelude.{
  String, ◌≡◌, ◌≢◌, refl, sym, ap, Bool, true, false, ◌||◌, List, [], ◌∷◌, ◌++◌, ◌==◌, string_eq,
  any, arith, Bool-cases, inl, inr,
}
use ledger_system.Domain.Entities.{LedgerEvent}
use ledger_system.Application.Retraction.Standing.{targets, has_retraction, RetractsOnce}
use ledger_system.Infra.Memory.{Book, exists_by_source_reference, get_last_event_hash}

-- Whether some event of the book has the identifier.
abbrev pub has_id : String → Book → Bool
has_id id book = any (λ e. e.id == id) book

-- What an event owes to the events before it: an identifier and a source reference of its own, the
-- link to the last hash, an amount, and, if it retracts, an event on record that nothing retracted.
pub record Follows (before : Book) (e : LedgerEvent) : Type 0 where
  pub fresh_id : has_id e.id before ≡ false
  pub fresh_reference : exists_by_source_reference e.source.reference before ≡ false
  pub linked : e.previous_hash ≡ get_last_event_hash before
  pub moves : e.amount.units ≢ 0
  pub on_record : (t : String) → targets e t ≡ true → has_id t before ≡ true
  pub first : (t : String) → targets e t ≡ true → has_retraction before t ≡ false

abbrev pub Continues : Book → Book → Type 0
Continues before [] = Unit
Continues before (e ∷ es) = Follows before e × Continues (before ++ e ∷ []) es

-- Every event follows the ones before it.
abbrev pub IsBook : Book → Type 0
IsBook book = Continues [] book

pub any-++ {ℓ} :
    {A : Type ℓ} (p : A → Bool) (xs ys : List A) → any p (xs ++ ys) ≡ (any p xs || any p ys)
any-++ p [] ys = refl
any-++ p (x ∷ xs) ys = ground (arith, any-++ p xs ys)

++_assoc_lem {ℓ} : {A : Type ℓ} (xs ys zs : List A) → (xs ++ ys) ++ zs ≡ xs ++ (ys ++ zs)
++_assoc_lem [] ys zs = refl
++_assoc_lem (x ∷ xs) ys zs = ap (λ r. x ∷ r) (++_assoc_lem xs ys zs)

++_nil {ℓ} : {A : Type ℓ} (xs : List A) → xs ++ [] ≡ xs
++_nil [] = refl
++_nil (x ∷ xs) = ap (λ r. x ∷ r) (++_nil xs)

Continues-snoc :
    (before book : Book) (e : LedgerEvent)
    → Continues before book
    → Follows (before ++ book) e
    → Continues before (book ++ e ∷ [])
Continues-snoc before [] e h f = (rw (sym (++_nil before)) f, tt)
Continues-snoc before (d ∷ book) e (here, rest) f =
    (here, Continues-snoc (before ++ d ∷ []) book e rest (rw (++_assoc_lem before (d ∷ []) book) f))

-- A book stays one when an event that follows it is appended.
pub IsBook-snoc :
    (book : Book) (e : LedgerEvent) → IsBook book → Follows book e → IsBook (book ++ e ∷ [])
IsBook-snoc book e h f = Continues-snoc [] book e h f

-- An event retracted before is not retracted again.
Continues-retracted :
    (before book : Book) (t : String)
    → Continues before book
    → has_retraction before t ≡ true
    → has_retraction book t ≡ false
Continues-retracted before [] t h r = refl
Continues-retracted before (e ∷ es) t (here, rest) r =
    let still : has_retraction (before ++ e ∷ []) t ≡ true =
      ground (arith, any-++ (λ d. targets d t) before (e ∷ []), r) in
    let later = Continues-retracted (before ++ e ∷ []) es t rest still in
    elim (Bool-cases (targets e t)) [
      | inl hit ↦ cc (here.first t hit, r)
      | inr miss ↦ ground (arith, miss, later)
    ]

Continues-RetractsOnce : (before book : Book) → Continues before book → RetractsOnce book
Continues-RetractsOnce before [] h = tt
Continues-RetractsOnce before (e ∷ es) (here, rest) = (
  λ t hit.
      Continues-retracted (before ++ e ∷ []) es t rest
        (ground (arith, any-++ (λ d. targets d t) before (e ∷ []), hit)),
  Continues-RetractsOnce (before ++ e ∷ []) es rest,
)

-- No event of a book is retracted twice.
pub IsBook-RetractsOnce : (book : Book) → IsBook book → RetractsOnce book
IsBook-RetractsOnce = Continues-RetractsOnce []

-- What a retraction of a book names is on record.
Continues-on_record :
    (before book : Book) (t : String)
    → Continues before book
    → has_retraction book t ≡ true
    → has_id t (before ++ book) ≡ true
Continues-on_record before [] t h r = cc r
Continues-on_record before (e ∷ es) t (here, rest) r = elim (Bool-cases (targets e t)) [
  | inl hit ↦ ground (arith, any-++ (λ d. d.id == t) before (e ∷ es), here.on_record t hit)
  | inr miss ↦
      rw (sym (++_assoc_lem before (e ∷ []) es))
        (Continues-on_record (before ++ e ∷ []) es t rest (ground (arith, miss, r)))
]

pub IsBook-on_record :
    (book : Book) (t : String) → IsBook book → has_retraction book t ≡ true → has_id t book ≡ true
IsBook-on_record = Continues-on_record []
