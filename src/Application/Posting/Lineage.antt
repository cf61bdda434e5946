-- ===== src/Application/Posting/Lineage.antt =====
-- What the posting job makes of a receipt of a commission
-- (ledger/src/core/application/services/ReceiptLineageResolver.ts, ledger/src/infra/jobs/StagingPostingJob.ts).
use ledger_system.Prelude.{
  String, true, false, Option, none, some, List, [], ◌∷◌, ◌==◌, string_eq, truthy, find, filter,
  Bool, any, ◌&&◌, ◌++◌, Option-cases, ◌≡◌, ◌⊎◌, inl, inr, refl, sym, ap, ◌∙◌, subst, ok, >>=-eq-ok,
  ok_injective, arith, Bool-cases, ==_true, some_injective,
}
use ledger_system.Domain.Enums.{EventType, event_type_eq, event_type_values, event_type_text}
use ledger_system.Domain.Entities.{LedgerEvent}
use ledger_system.Infra.Memory.{Book, find_by_object_id, names_object}
use ledger_system.Application.Recording.{CreateLedgerEventCommand}
use ledger_system.Application.Staging.{StagingRecord, StagingObject}
use ledger_system.Application.Staging.Command.{given, to_create_command, cast_part}
use ledger_system.Domain.Policy.{declares_unresolved_origin}
use ledger_system.Application.Staging.{validate}
use ledger_system.Application.Staging.Accepted.{Parts, validate-Parts, to_create_command-Parts}
use ledger_system.Application.Posting.{
  PostingJob, is_given, find_expected, resolve_receivable, resolve, mark_orphan_if_unlinked,
  receivable_id, is_receivable, related_for, linked, post_command,
}

-- An expected commission that is on the book and names the receivable, by its identifier.
abbrev pub IsOriginFor : Book → String → String → LedgerEvent → Type 0
IsOriginFor book receivable id e =
    (e.id ≡ id)
    × (e.event_type ≡ EventType.commission_expected)
    × (names_object receivable e ≡ true)
    × ((before : Book) × (after : Book) × (book ≡ before ++ e ∷ after))

-- No expected commission on the book names the receivable.
abbrev pub has_expected : String → Book → Bool
has_expected receivable book =
    any (λ d. names_object receivable d && d.event_type == EventType.commission_expected) book

found_expected :
    (receivable : String) (book : Book) {e : LedgerEvent}
    → find
        (λ d. d.event_type == EventType.commission_expected)
        (filter (names_object receivable) book)
      ≡ some e
    → IsOriginFor book receivable e.id e
found_expected receivable [] h = cc h
found_expected receivable (d ∷ ds) {e} h = elim (Bool-cases (names_object receivable d)) [
  | inl named ↦ elim (Bool-cases (d.event_type == EventType.commission_expected)) [
    | inl hit ↦
        let same : d ≡ e = some_injective (rw (named, hit) at h) in
        subst (λ x. IsOriginFor (d ∷ ds) receivable x.id x) same
          (refl, ==_true d.event_type EventType.commission_expected hit, named, ([], ds, refl))
    | inr miss ↦
        let (same, type, names, (before, after, shape)) =
          found_expected receivable ds (rw (named, miss) at h) in
        (same, type, names, (d ∷ before, after, ap (λ b. d ∷ b) shape))
  ]
  | inr other ↦
      let (same, type, names, (before, after, shape)) =
        found_expected receivable ds (rw other at h) in
      (same, type, names, (d ∷ before, after, ap (λ b. d ∷ b) shape))
]

none_expected :
    (receivable : String) (book : Book)
    → find
        (λ d. d.event_type == EventType.commission_expected)
        (filter (names_object receivable) book)
      ≡ none
    → has_expected receivable book ≡ false
none_expected receivable [] h = refl
none_expected receivable (d ∷ ds) h = elim (Bool-cases (names_object receivable d)) [
  | inl named ↦ elim (Bool-cases (d.event_type == EventType.commission_expected)) [
    | inl hit ↦ cc (rw (named, hit) at h)
    | inr miss ↦ ground (arith, miss, none_expected receivable ds (rw (named, miss) at h))
  ]
  | inr other ↦ ground (arith, other, none_expected receivable ds (rw other at h))
]

-- What the lookup for a receivable gives: the identifier of an expected commission on the book, or
-- nothing, and then the book has none.
abbrev Finds : Book → String → Option String → Type 0
Finds book receivable related =
    ((id : String) × (related ≡ some id) × ((e : LedgerEvent) × IsOriginFor book receivable id e))
    ⊎ ((related ≡ none) × (has_expected receivable book ≡ false))

find_expected-Finds :
    (receivable : String) (book : Book) → Finds book receivable (find_expected receivable book)
unfolding find_expected find_by_object_id
find_expected-Finds receivable book =
    elim (Option-cases (
      find (λ d. d.event_type == EventType.commission_expected)
        (filter (names_object receivable) book))) [
          | inl absent ↦ inr (rw absent refl, none_expected receivable book absent)
          | inr (e, found) ↦ inl (e.id, rw found refl, (e, found_expected receivable book found))
        ]

-- The receivable that a record names, and what the lookup gives for it.
abbrev FindsFor : Book → List StagingObject → Option String → Type 0
FindsFor book os related =
    (receivable : String) × (receivable_id (find is_receivable os) ≡ some receivable)
    × Finds book receivable related

by_receivable :
    (os : List StagingObject) (receivable : Option String) (book : Book) (related : Option String)
    → receivable_id (find is_receivable os) ≡ receivable
    → resolve_receivable receivable book ≡ ok related
    → FindsFor book os related
by_receivable os none book related names h = cc h
by_receivable os (some o) book related names h = elim (Bool-cases (o == "")) [
  | inl empty ↦ cc (rw empty at h)
  | inr full ↦
      (o, names, subst (Finds book o) (ok_injective (rw full at h)) (find_expected-Finds o book))
]

given_lem : {A : Type 0} (o : Option A) {a : A} → given o ≡ ok a → o ≡ some a
given_lem none h = cc h
given_lem (some b) h = ap (λ x. some x) (ok_injective h)

resolved :
    (r : StagingRecord) (book : Book) (related : Option String)
    → is_given r.event_type "commission_received" ≡ true
    → truthy r.related_event_id ≡ false
    → resolve r book ≡ ok related
    → (os : List StagingObject) × (r.objects ≡ some os) × FindsFor book os related
unfolding resolve
resolved r book related receipt absent h =
    let (os, there, h1) = >>=-eq-ok (given r.objects) _ (rw (resolve, receipt, absent) at h) in
    (os, given_lem r.objects there, by_receivable os _ book related refl h1)

is_given_lem : (o : Option String) (s : String) → is_given o s ≡ true → o ≡ some s
is_given_lem none s h = cc h
is_given_lem (some t) s h = ap (λ x. some x) (==_true t s h)

-- The type of the command of a receipt.
receipt_type :
    {book : List LedgerEvent} (r : StagingRecord) (x : Parts book r)
    → is_given r.event_type "commission_received" ≡ true
    → x.type ≡ EventType.commission_received
receipt_type r x receipt = sym (
    ok_injective (
      ap (λ v. cast_part event_type_values event_type_text v)
        (sym (is_given_lem r.event_type "commission_received" receipt))
      ∙ x.cast_type))

-- An unlinked receipt is marked.
orphan_declared :
    (c : CreateLedgerEventCommand)
    → c.event_type ≡ EventType.commission_received
    → declares_unresolved_origin (linked c none).reason ≡ true
unfolding mark_orphan_if_unlinked
orphan_declared c type = rw (mark_orphan_if_unlinked, type) refl

-- Linked to an expected commission on the book that names the receivable, or an orphan that says so,
-- where the book has no such commission.
abbrev pub IsLinked : Book → StagingRecord → CreateLedgerEventCommand → Type 0
IsLinked book r c =
    (os : List StagingObject) × (r.objects ≡ some os)
    × ((receivable : String) × (receivable_id (find is_receivable os) ≡ some receivable)
        × (((id : String) × (c.related_event_id ≡ some id)
              × ((e : LedgerEvent) × IsOriginFor book receivable id e))
            ⊎ ((c.related_event_id ≡ none)
                × (declares_unresolved_origin c.reason ≡ true)
                × (has_expected receivable book ≡ false))))

linked_or_declared :
    (r : StagingRecord) (made : CreateLedgerEventCommand) (book : Book) (related : Option String)
    → made.event_type ≡ EventType.commission_received
    → (os : List StagingObject) × (r.objects ≡ some os) × FindsFor book os related
    → IsLinked book r (linked made related)
linked_or_declared r made book related type (os, has, (receivable, names, inl origin)) =
    (os, has, (receivable, names, inl origin))
linked_or_declared r made book related type
      (os, has, (receivable, names, inr (unlinked, no_origin))) =
    (
      os,
      has,
      (
        receivable,
        names,
        inr (
          unlinked,
          subst (λ x. declares_unresolved_origin (linked made x).reason ≡ true) (sym unlinked)
              (orphan_declared made type),
          no_origin,
        ),
      ),
    )

-- A receipt of a commission without failures that names no related event leaves the job, where it
-- has a resolver, in one of two ways, which the receivable that it names decides: linked to an
-- expected commission that is on the book and names the receivable, or, where the book has no such
-- commission, without a link and with a reason that declares its origin unknown and asks for a
-- follow-up.
pub post_command_links :
    (job : PostingJob) (r : StagingRecord) (book : Book) (c : CreateLedgerEventCommand)
    → job.has_resolver ≡ true
    → is_given r.event_type "commission_received" ≡ true
    → truthy r.related_event_id ≡ false
    → validate job.known_systems book r ≡ []
    → post_command job r book ≡ ok c
    → IsLinked book r c
unfolding post_command
post_command_links job r book c resolver receipt absent fine h =
    let x = validate-Parts job.known_systems book r fine in
    let (made, cast, h1) = >>=-eq-ok (to_create_command job.new_date r) _ h in
    let (related, found, h2) = >>=-eq-ok (related_for job r made book) _ h1 in
    let type : made.event_type ≡ EventType.commission_received =
      ap (λ m. m.event_type) (ok_injective (sym cast ∙ to_create_command-Parts job.new_date r x))
      ∙ receipt_type r x receipt in
    subst (λ d. IsLinked book r d) (ok_injective h2)
      (linked_or_declared r made book related type
        (resolved r book related receipt absent (rw resolver at found)))
