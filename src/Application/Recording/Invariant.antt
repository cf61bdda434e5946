-- ===== src/Application/Recording/Invariant.antt =====
-- The invariant of the book under `execute`
-- (ledger/src/core/application/use-cases/CreateLedgerEventUseCase.ts).
use ledger_system.Prelude.{
  String, ◌≡◌, inl, inr, refl, sym, ap, ◌∙◌, Bool, true, false, ◌&&◌, if◌then◌else◌, is_some,
  Option, none, some, List, [], ◌∷◌, ◌==◌, string_eq, filter, find, any, truthy, Bool-cases, ok,
  >>-eq-ok, arith,
}
use text.Mathlib.TextEquality.{eq_iff}
use ledger_system.Domain.Entities.{LedgerEvent}
use ledger_system.Domain.Enums.{EventType, Relation, relation_eq}
use ledger_system.Application.Retraction.{carries_retraction}
use ledger_system.Application.Retraction.Standing.{targets, has_retraction, names}
use ledger_system.Infra.Memory.{Book, is_text, get_by_id, find_by_related_event_id}
use ledger_system.Application.Recording.{
  CreateLedgerEventCommand, Env, Ledger, find_origin, refuse_second, check_retraction_rules,
  check_origin, execute,
}
use ledger_system.Application.Recording.History.{has_id, Follows, IsBook, IsBook-snoc}
use ledger_system.Application.Recording.Prepared.{retracts}
use ledger_system.Application.Recording.Outcomes.{Recorded, execute-Recorded}

named_by :
    (o : Option String) (b : Bool) (t : String)
    → names (if truthy o && b then o else none) t ≡ true
    → (o ≡ some t) × (truthy o ≡ true) × (b ≡ true)
named_by none b t h = cc h
named_by (some u) b t h = elim (Bool-cases (u == "")) [
  | inl empty ↦ ground (arith, empty)
  | inr full ↦ (ap some (ground (arith, eq_iff t u)), ground arith, ground arith)
]

-- An event that retracts `t` names `t`, by a text that is not empty, and carries a retraction.
pub targets-related :
    (e : LedgerEvent) (t : String)
    → targets e t ≡ true
    → (e.related_event_id ≡ some t)
      × (truthy e.related_event_id ≡ true)
      × (carries_retraction e ≡ true)
targets-related e t h = named_by e.related_event_id (carries_retraction e) t h

is_some-find : (p : LedgerEvent → Bool) (book : Book) → is_some (find p book) ≡ any p book
is_some-find p [] = refl
is_some-find p (d ∷ book) = ground (arith, is_some-find p book)

find-has_id :
    (book : Book) (t : String) {e : LedgerEvent} → get_by_id t book ≡ some e → has_id t book ≡ true
unfolding get_by_id
find-has_id book t h = sym (is_some-find (λ d. d.id == t) book) ∙ ap is_some h

-- The origin of a named event is on record.
find_origin-on_record :
    (event_type : EventType) (t : String) (book : Book) {origin : Option LedgerEvent}
    → truthy (some t) ≡ true
    → find_origin event_type (some t) book ≡ ok origin
    → (d : LedgerEvent) × (origin ≡ some d) × (get_by_id t book ≡ some d)
unfolding find_origin
find_origin-on_record event_type t book given h = ground arith

empty_list : (t : String) (rs : List LedgerEvent) → refuse_second t rs ≡ ok tt → rs ≡ []
empty_list t [] h = refl
empty_list t (r ∷ rs) h = cc h

retracts_it :
    (o : Option String) (b : Bool) (t : String)
    → truthy (some t) ≡ true
    → names (if truthy o && b then o else none) t ≡ (is_text o t && b)
retracts_it none b t given = refl
retracts_it (some u) b t given = ground (arith, eq_iff t u, eq_iff u t)

no_retraction :
    (t : String) (book : Book)
    → truthy (some t) ≡ true
    → filter carries_retraction (filter (λ e. is_text e.related_event_id t) book) ≡ []
    → has_retraction book t ≡ false
no_retraction t [] given h = refl
no_retraction t (e ∷ book) given h = ground (
  arith,
  retracts_it e.related_event_id (carries_retraction e) t given,
  no_retraction t book given,
)

-- No retraction passes that names an event which has one.
check_retraction_rules-first :
    (t : String) (origin : LedgerEvent) (book : Book)
    → truthy (some t) ≡ true
    → check_retraction_rules t origin book ≡ ok tt
    → has_retraction book t ≡ false
unfolding check_retraction_rules find_by_related_event_id
check_retraction_rules-first t origin book given h =
    no_retraction t book given (empty_list t _ (>>-eq-ok (refuse_second t _) _ h).0)

-- What the guards of a run leave of an event that retracts `t`.
retraction_guarded :
    (c : CreateLedgerEventCommand) (book : Book) (t : String) (origin : Option LedgerEvent)
    → c.related_event_id ≡ some t
    → truthy (some t) ≡ true
    → retracts c ≡ true
    → find_origin c.event_type c.related_event_id book ≡ ok origin
    → check_origin (retracts c) c.related_event_id origin book ≡ ok tt
    → (has_id t book ≡ true) × (has_retraction book t ≡ false)
retraction_guarded c book t origin named given retracting found checked =
    let (d, is_d, at) = find_origin-on_record c.event_type t book given (rw named at found) in
    let checked_d = rw (is_d, named, retracting) at checked in
    (find-has_id book t at, check_retraction_rules-first t d book given checked_d)

pub Recorded-Follows :
    (env : Env) (c : CreateLedgerEventCommand) (l : Ledger) {e : LedgerEvent} {after : Ledger}
    → Recorded env c l e after
    → Follows l.book e
Recorded-Follows env c l {e} r =
    let p = r.prepared in
    let related : e.related_event_id ≡ c.related_event_id =
      ap (λ d. d.related_event_id) r.event ∙ p.related in
    let carried : carries_retraction e ≡ retracts c =
      ap (λ d. carries_retraction d) r.event
      ∙ ap (λ os. any (λ o. o.relation == Relation.retracts) os) p.objects in
    let reference : e.source.reference ≡ c.source_reference =
      ap (λ d. d.source.reference) r.event ∙ p.reference in
    let guarded : (t : String)
        → targets e t ≡ true
        → (has_id t l.book ≡ true) × (has_retraction l.book t ≡ false) =
      λ t hit.
        let (named, given, carries) = targets-related e t hit in
        retraction_guarded c l.book t p.origin (sym related ∙ named) (rw named at given)
          (sym carried ∙ carries) p.found p.origin_checked in
    record {
      fresh_id = r.fresh_id;
      fresh_reference = rw reference p.fresh_reference;
      linked = ap (λ d. d.previous_hash) r.event ∙ p.linked;
      moves = λ none_moved. r.sound.moves (sym (ap (λ d. d.amount.units) r.event) ∙ none_moved);
      on_record = λ t hit. (guarded t hit).0;
      first = λ t hit. (guarded t hit).1;
    }

-- A successful run keeps the book one: each event has an identifier and a source reference that no
-- earlier event has, carries the hash of the event before it as its previous hash, moves an
-- amount, and retracts only an earlier event that no other event retracts.
pub execute-IsBook :
    (env : Env) (c : CreateLedgerEventCommand) (l : Ledger) {e : LedgerEvent} {after : Ledger}
    → IsBook l.book
    → execute env c l ≡ ok (e, after)
    → IsBook after.book
execute-IsBook env c l {e} valid h = elim (execute-Recorded env c l h) [
  | inl (known, same) ↦ rw (ap (λ x. x.book) same) valid
  | inr (unknown, r) ↦ rw r.book (IsBook-snoc l.book e valid (Recorded-Follows env c l r))
]
