-- ===== src/Application/Retraction/Standing.antt =====
-- `retractedEventIds` against a description of what stands
-- (ledger/src/core/application/dtos/retractionUtils.ts).
use Prim.Native.String.{String}
use text.Mathlib.TextEquality.{eq_iff}
use ledger_system.Prelude.{
  ◌≡◌, refl, ap, ◌∙◌, inl, inr, Bool, true, false, not, ◌&&◌, Option, none, some, List, [], ◌∷◌,
  ◌++◌, ◌==◌, string_eq, ==_true, Bool-cases, if◌then◌else◌, any, includes, is_some, arith,
}
use ledger_system.Prelude.Dict.{Dict, lookup, contains, insert, lookup-insert}
use ledger_system.Domain.Entities.{LedgerEvent}
use ledger_system.Application.Retraction.{
  retraction_target, set_target, retraction_by_target, standing_retractions, retracted_event_ids,
}

abbrev pub names : Option String → String → Bool
names none t = false
names (some u) t = t == u

-- Whether an event retracts the event `t`.
abbrev pub targets : LedgerEvent → String → Bool
targets e t = names (retraction_target e) t

-- Whether some event retracts `t`.
abbrev pub has_retraction : List LedgerEvent → String → Bool
has_retraction es t = any (λ e. targets e t) es

-- The description: some event retracts `t`, and nothing retracts that event.
abbrev pub is_retracted_in : (all_events es : List LedgerEvent) → String → Bool
is_retracted_in all_events es t = any (λ e. targets e t && not (has_retraction all_events e.id)) es

pub is_retracted : List LedgerEvent → String → Bool
is_retracted es = is_retracted_in es es

-- No event is retracted twice.
abbrev pub RetractsOnce : List LedgerEvent → Type 0
RetractsOnce [] = Unit
RetractsOnce (e ∷ es) =
    ((t : String) → targets e t ≡ true → has_retraction es t ≡ false) × RetractsOnce es

-- The last event that retracts `t`.
last_retraction : List LedgerEvent → String → Option String
last_retraction [] t = none
last_retraction (e ∷ es) t = elim (last_retraction es t) [
  | some r ↦ some r
  | none ↦ if targets e t then some e.id else none
]

or_else : Option String → Option String → Option String
or_else (some r) o = some r
or_else none o = o

lookup-set_target :
    (o : Option String) (r t : String) (map : Dict String)
    → lookup t (set_target o r map) ≡ (if names o t then some r else lookup t map)
lookup-set_target none r t map = refl
lookup-set_target (some u) r t map = lookup-insert t u r map

lookup-retraction_by_target :
    (es : List LedgerEvent) (map : Dict String) (t : String)
    → lookup t (retraction_by_target es map) ≡ or_else (last_retraction es t) (lookup t map)
unfolding retraction_by_target last_retraction or_else
lookup-retraction_by_target [] map t = refl
lookup-retraction_by_target (e ∷ es) map t =
    lookup-retraction_by_target es (set_target (retraction_target e) e.id map) t
    ∙ rw (lookup-set_target (retraction_target e) e.id t map) (ground arith)

-- Each key once.
DistinctKeys : Dict String → Type 0
DistinctKeys [] = Unit
DistinctKeys ((k, v) ∷ d) = (lookup k d ≡ none) × DistinctKeys d

insert-DistinctKeys :
    (k v : String) (d : Dict String) → DistinctKeys d → DistinctKeys (insert k v d)
unfolding DistinctKeys
insert-DistinctKeys k v [] h = (refl, tt)
insert-DistinctKeys k v ((j, w) ∷ d) h = elim (Bool-cases (k == j)) [
  | inl e ↦ rw e h
  | inr n ↦ rw n (
    rw (lookup-insert j k v d) (ground (arith, eq_iff k j, eq_iff j k)),
    insert-DistinctKeys k v d h.1,
  )
]

retraction_by_target-DistinctKeys :
    (es : List LedgerEvent) (map : Dict String)
    → DistinctKeys map
    → DistinctKeys (retraction_by_target es map)
unfolding retraction_by_target
retraction_by_target-DistinctKeys [] map h = h
retraction_by_target-DistinctKeys (e ∷ es) map h =
    retraction_by_target-DistinctKeys es (set_target (retraction_target e) e.id map)
      (one (retraction_target e))
  where
    one : (o : Option String) → DistinctKeys (set_target o e.id map)
    one none = h
    one (some u) = insert-DistinctKeys u e.id map h

-- A retraction on record counts unless it is retracted itself.
abbrev counts : Option String → (String → Bool) → Bool
counts none p = false
counts (some r) p = not (p r)

includes-standing_retractions :
    (map d : Dict String) (t : String)
    → DistinctKeys d
    → includes (standing_retractions map d) t ≡ counts (lookup t d) (λ r. contains r map)
unfolding standing_retractions DistinctKeys
includes-standing_retractions map [] t h = refl
includes-standing_retractions map ((k, v) ∷ d) t h = elim (Bool-cases (t == k)) [
  | inl e ↦
      let same : t ≡ k = ==_true t k e in
      let gone : lookup t d ≡ none = ap (λ s. lookup s d) same ∙ h.0 in
      ground (arith, e, gone, eq_iff k t, includes-standing_retractions map d t h.1)
  | inr n ↦ ground (arith, n, eq_iff k t, eq_iff t k, includes-standing_retractions map d t h.1)
]

is_some-last_retraction :
    (es : List LedgerEvent) (t : String) → is_some (last_retraction es t) ≡ has_retraction es t
unfolding last_retraction
is_some-last_retraction [] t = refl
is_some-last_retraction (e ∷ es) t = ground (arith, is_some-last_retraction es t)

contains-retraction_by_target :
    (es : List LedgerEvent) (r : String)
    → contains r (retraction_by_target es []) ≡ has_retraction es r
unfolding or_else
contains-retraction_by_target es r =
    ground (arith, lookup-retraction_by_target es [] r, is_some-last_retraction es r)

-- The set that the source builds, by the last retraction of each event.
includes-retracted_event_ids :
    (es : List LedgerEvent) (t : String)
    → includes (retracted_event_ids es) t ≡ counts (last_retraction es t) (λ r. has_retraction es r)
unfolding retracted_event_ids or_else DistinctKeys
includes-retracted_event_ids es t =
    includes-standing_retractions map map t (retraction_by_target-DistinctKeys es [] tt)
    ∙ rw (lookup-retraction_by_target es [] t) (step (last_retraction es t))
  where
    map : Dict String
    map = retraction_by_target es []

    step :
        (o : Option String)
        → counts (or_else o none) (λ r. contains r map) ≡ counts o (λ r. has_retraction es r)
    step none = refl
    step (some r) = ap not (contains-retraction_by_target es r)

counts-last_retraction :
    (es : List LedgerEvent) (t : String) (p : String → Bool)
    → RetractsOnce es
    → counts (last_retraction es t) p ≡ any (λ e. targets e t && not (p e.id)) es
unfolding last_retraction
counts-last_retraction [] t p h = refl
counts-last_retraction (e ∷ es) t p h =
    ground (arith, h.0 t, is_some-last_retraction es t, counts-last_retraction es t p h.1)

-- Where no event is retracted twice, the set holds exactly the events that some retraction names
-- and that no retraction of this retraction gives back.
pub retracted_event_ids_iff :
    (es : List LedgerEvent) (t : String)
    → RetractsOnce es
    → includes (retracted_event_ids es) t ≡ is_retracted es t
unfolding is_retracted
retracted_event_ids_iff es t h =
    includes-retracted_event_ids es t ∙ counts-last_retraction es t (has_retraction es) h

is_retracted-false :
    (all_events es : List LedgerEvent) (t : String)
    → has_retraction es t ≡ false
    → is_retracted_in all_events es t ≡ false
is_retracted-false all_events [] t h = refl
is_retracted-false all_events (e ∷ es) t h = ground (arith, is_retracted-false all_events es t)

pub never_retracted :
    (es : List LedgerEvent) (t : String)
    → RetractsOnce es
    → has_retraction es t ≡ false
    → includes (retracted_event_ids es) t ≡ false
unfolding is_retracted
never_retracted es t once h = retracted_event_ids_iff es t once ∙ is_retracted-false es es t h

any-snoc :
    (p : LedgerEvent → Bool) (es : List LedgerEvent) (e : LedgerEvent)
    → p e ≡ true
    → any p (es ++ e ∷ []) ≡ true
any-snoc p [] e h = ground (arith, h)
any-snoc p (d ∷ es) e h = ground (arith, any-snoc p es e h)

-- The last event retracts `t`, and nothing retracts it.
pub standing_retraction :
    (es : List LedgerEvent) (e : LedgerEvent) (t : String)
    → targets e t ≡ true
    → has_retraction (es ++ e ∷ []) e.id ≡ false
    → is_retracted (es ++ e ∷ []) t ≡ true
unfolding is_retracted
standing_retraction es e t hit stands =
    any-snoc (λ d. targets d t && not (has_retraction (es ++ e ∷ []) d.id)) es e
      (rw (hit, stands) refl)
