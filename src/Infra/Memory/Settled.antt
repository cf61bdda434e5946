-- ===== src/Infra/Memory/Settled.antt =====
-- `findSettledObjectIds` against a description
-- (ledger/src/infra/persistence/memory/InMemoryLedgerEventRepository.ts).
use text.Mathlib.TextEquality.{eq_iff}
use ledger_system.Prelude.{
  String, ◌≡◌, refl, sym, ap, fun_ext, ◌∙◌, inl, inr, Bool, true, false, not, ◌&&◌, ◌||◌, List, [],
  ◌∷◌, ◌++◌, ◌==◌, string_eq, if◌then◌else◌, any, includes, Bool-cases, arith,
}
use ledger_system.Domain.Enums.{Relation, relation_eq}
use ledger_system.Domain.Entities.{LedgerEventObject}
use ledger_system.Application.Retraction.{retracted_event_ids}
use ledger_system.Application.Retraction.Standing.{
  RetractsOnce, is_retracted, retracted_event_ids_iff,
}
use ledger_system.Infra.Memory.{Book, add_text, add_settled, settled_from, find_settled_object_ids}

-- Whether an event settles `t`.
abbrev pub settles_object : String → List LedgerEventObject → Bool
settles_object t os = any (λ o. o.relation == Relation.settles && o.object_id == t) os

-- Whether an event that `gone` does not remove settles `t`.
abbrev pub settled_by : (String → Bool) → String → Book → Bool
settled_by gone t book = any (λ e. not (gone e.id) && settles_object t e.objects) book

includes-snoc :
    (xs : List String) (u t : String) → includes (xs ++ u ∷ []) t ≡ (includes xs t || u == t)
includes-snoc [] u t = ground arith
includes-snoc (x ∷ xs) u t = ground (arith, includes-snoc xs u t)

includes-add_text :
    (u t : String) (ts : List String) → includes (add_text u ts) t ≡ (includes ts t || u == t)
includes-add_text u t ts = elim (Bool-cases (includes ts u)) [
  | inr new ↦ rw new (includes-snoc ts u t)
  | inl old ↦ elim (Bool-cases (u == t)) [
    | inl same ↦
        let hit : includes ts t ≡ true =
          ap (λ s. includes ts s) (sym ((eq_iff u t).0 same)) ∙ old in
        rw (old, hit) refl
    | inr other ↦ rw (old, other) (ground arith)
  ]
]

-- One object of the inner loop.
settle_one :
    (s : Bool) (wanted ids : List String) (u t : String)
    → includes (if s && includes wanted u then add_text u ids else ids) t
      ≡ (includes ids t || (includes wanted t && (s && u == t)))
settle_one false wanted ids u t = ground arith
settle_one true wanted ids u t = elim (Bool-cases (u == t)) [
  | inl same ↦
      let asked : includes wanted u ≡ includes wanted t =
        ap (λ x. includes wanted x) ((eq_iff u t).0 same) in
      elim (Bool-cases (includes wanted t)) [
        | inl yes_asked ↦ rw (asked, yes_asked, includes-add_text u t ids, same) refl
        | inr not_asked ↦ rw (asked, not_asked) (ground arith)
      ]
  | inr other ↦ elim (Bool-cases (includes wanted u)) [
    | inl a ↦ rw (a, includes-add_text u t ids, other) (ground arith)
    | inr a ↦ rw (a, other) (ground arith)
  ]
]

regroup : (a w x y : Bool) → ((a || (w && x)) || (w && y)) ≡ (a || (w && (x || y)))
regroup a w x y = ground arith

add_settled-includes :
    (wanted : List String) (os : List LedgerEventObject) (ids : List String) (t : String)
    → includes (add_settled wanted os ids) t
      ≡ (includes ids t || (includes wanted t && settles_object t os))
unfolding add_settled
add_settled-includes wanted [] ids t = ground arith
add_settled-includes wanted (o ∷ os) ids t =
    add_settled-includes wanted os _ t
    ∙ ap (λ b. b || (includes wanted t && settles_object t os))
        (settle_one (o.relation == Relation.settles) wanted ids o.object_id t)
    ∙ regroup (includes ids t) (includes wanted t)
        (o.relation == Relation.settles && o.object_id == t) (settles_object t os)

settled_from-includes :
    (retracted wanted : List String) (book : Book) (ids : List String) (t : String)
    → includes (settled_from retracted wanted book ids) t
      ≡ (includes ids t || (includes wanted t && settled_by (includes retracted) t book))
unfolding settled_from
settled_from-includes retracted wanted [] ids t = ground arith
settled_from-includes retracted wanted (e ∷ book) ids t =
    elim (Bool-cases (includes retracted e.id)) [
      | inl gone ↦ rw gone (settled_from-includes retracted wanted book ids t)
      | inr here ↦ rw here (
          settled_from-includes retracted wanted book _ t
          ∙ ap (λ b. b || (includes wanted t && settled_by (includes retracted) t book))
              (add_settled-includes wanted e.objects ids t)
          ∙ regroup (includes ids t) (includes wanted t) (settles_object t e.objects)
              (settled_by (includes retracted) t book))
    ]

-- Where no event of the book is retracted twice, an object is found settled exactly when it is
-- among those asked for and some event that no standing retraction names settles it.
pub find_settled_object_ids_iff :
    (asked : List String) (book : Book) (t : String)
    → RetractsOnce book
    → includes (find_settled_object_ids asked book) t
      ≡ (includes asked t && settled_by (is_retracted book) t book)
unfolding find_settled_object_ids
find_settled_object_ids_iff [] book t h = refl
find_settled_object_ids_iff (id ∷ ids) book t h =
    settled_from-includes (retracted_event_ids book) (id ∷ ids) book [] t
    ∙ ap (λ (gone : String → Bool). includes (id ∷ ids) t && settled_by gone t book)
        (fun_ext (λ u. retracted_event_ids_iff book u h))
