-- ===== src/Treasury/Mapper/Admitted.antt =====
-- The tuples of the treasury under the policy of the ledger
-- (treasury/src/core/application/services/CandidateMapper.ts,
-- ledger/src/core/domain/policies/InvariantPolicy.ts).
use ledger_system.Prelude.{
  String, Bool, true, false, not, ◌&&◌, ◌||◌, Option, none, some, List, [], ◌∷◌, ◌==◌, string_eq,
  map, any, all, is_some, if◌then◌else◌, ◌≡◌, inl, inr, refl, sym, ap, ◌∙◌, subst, ok, >>=-eq-ok,
  ok_injective, some_injective, Bool-cases, Option-cases, arith,
}
use ledger_system.Prelude.Strings.{◌<>◌}
use ledger_system.Prelude.Dict.{Dict, lookup}
use ledger_system.Treasury.Mapper.{
  ScenarioMapping, Variants, TupleOverride, ObjectTemplate, ReasonSwap, Candidate, PartyTemplate,
  Intent, or_else, chosen, override_of, object_templates, reason_of, orphan_of, answered_slot,
  objects_of, built_reason, build, build_from, to_instant_iso, built_object, built_party,
  is_unidentified, due_at_of,
}
use ledger_system.Treasury.Mapper.Payments.{no_override}
use ledger_system.Treasury.Mapper.Table.{mappings}
use ledger_system.Treasury.Mapper.Gate.{
  template_of, terms_of, terms_of_template, tuple_of, is_admitted, overrides, overrides_from,
  base_reason, swap_type, tuple_with, ways, orphan_ways, admitted_by, all_admitted, table_admitted,
}

-- A table of which every entry passes a test.
all-lookup :
    {V : Type 0} (p : V → Bool) (d : Dict V) (k : String) {v : V}
    → all (λ e. p e.1) d ≡ true
    → lookup k d ≡ some v
    → p v ≡ true
all-lookup p [] k h found = cc found
all-lookup p ((j, w) ∷ d) k {v} h found = elim (Bool-cases (k == j)) [
  | inl hit ↦ subst (λ x. p x ≡ true) (some_injective (rw hit at found)) (ground (arith, h))
  | inr miss ↦ all-lookup p d k (ground (arith, h)) (rw miss at found)
]

all-overrides_from :
    (q : TupleOverride → Bool) (d : Dict TupleOverride)
    → all q (overrides_from d) ≡ true
    → all (λ e. q e.1) d ≡ true
unfolding overrides_from
all-overrides_from q [] h = refl
all-overrides_from q ((c, o) ∷ d) h = ground (arith, h, all-overrides_from q d (ground (arith, h)))

chosen_in :
    (q : TupleOverride → Bool) (by_choice : Dict TupleOverride) (choice : Option String)
    → q no_override ≡ true
    → all (λ e. q e.1) by_choice ≡ true
    → q (chosen by_choice choice) ≡ true
chosen_in q by_choice none none_ok h = none_ok
chosen_in q by_choice (some c) none_ok h = elim (Option-cases (lookup c by_choice)) [
  | inl absent ↦ rw absent none_ok
  | inr (o, found) ↦ rw found (all-lookup q by_choice c h found)
]

pub override_in :
    (q : TupleOverride → Bool) (v : Option Variants) (a : Dict String)
    → all q (overrides v) ≡ true
    → q (override_of v a) ≡ true
unfolding override_of overrides
override_in q none a h = ground (arith, h)
override_in q (some v) a h =
    chosen_in q v.by_choice (lookup v.selector_slot a) (ground (arith, h))
      (all-overrides_from q v.by_choice (ground (arith, h)))

-- Whether the origin that the scenario asks for is answered, or may be left open.
unfoldable pub has_lineage : ScenarioMapping → Dict String → Bool
has_lineage m a =
    not (is_some m.related_event_slot)
    || is_some m.orphan
    || is_some (answered_slot a m.related_event_slot)

late : Bool → Option ReasonSwap → String → String
late asserted retroactive t = if asserted then swap_type retroactive t else t

ways_pass :
    (m : ScenarioMapping) (o : TupleOverride) (reason : String) (linked asserted followup : Bool)
    → ways m o reason linked ≡ true
    → is_admitted (tuple_with m o (late asserted m.retroactive reason) followup linked) ≡ true
unfolding ways late
ways_pass m o reason linked true true h = ground (arith, h)
ways_pass m o reason linked true false h = ground (arith, h)
ways_pass m o reason linked false true h = ground (arith, h)
ways_pass m o reason linked false false h = ground (arith, h)

orphan_pass :
    (m : ScenarioMapping) (o : TupleOverride) (s : ReasonSwap) (asserted : Bool)
    → orphan_ways m o (some s) ≡ true
    → is_admitted (tuple_with m o (late asserted m.retroactive s.reason_type) true false) ≡ true
unfolding orphan_ways late
orphan_pass m o s true h = ground (arith, h)
orphan_pass m o s false h = ground (arith, h)

-- The orphan reason for an origin slot, its answer and the reason of the mapping.
abbrev orphan_for : Option String → Option String → Option ReasonSwap → Option ReasonSwap
orphan_for slot related orphan = if is_some slot && not (is_some related) then orphan else none

core :
    (m : ScenarioMapping) (o : TupleOverride) (slot related : Option String)
    (orphan : Option ReasonSwap) (asserted followup : Bool)
    → admitted_by m o slot orphan ≡ true
    → (not (is_some slot) || is_some orphan || is_some related) ≡ true
    → (is_some slot ≡ false → is_some related ≡ false)
    → (is_some (orphan_for slot related orphan) ≡ true → followup ≡ true)
    → is_admitted (
        tuple_with m o
          (late asserted m.retroactive
            (swap_type (orphan_for slot related orphan) (base_reason m o)))
          followup
          (is_some related))
      ≡ true
unfolding admitted_by
core m o none none orphan asserted followup h lineage unlinked marked =
    ways_pass m o (base_reason m o) false asserted followup h
core m o none (some r) orphan asserted followup h lineage unlinked marked = cc (unlinked refl)
core m o (some slot) (some r) orphan asserted followup h lineage unlinked marked =
    ways_pass m o (base_reason m o) true asserted followup (ground (arith, h))
core m o (some slot) none none asserted followup h lineage unlinked marked = cc lineage
core m o (some slot) none (some s) asserted followup h lineage unlinked marked =
    rw (marked refl) (orphan_pass m o s asserted (ground (arith, h)))

swapped-late :
    (asserted : Bool) (retroactive : Option ReasonSwap) (r : ReasonSwap)
    → (or_else (if asserted then retroactive else none) r).reason_type
      ≡ late asserted retroactive r.reason_type
unfolding late
swapped-late true none r = refl
swapped-late true (some s) r = refl
swapped-late false retroactive r = refl

swapped_type :
    (swap : Option ReasonSwap) (r : ReasonSwap)
    → (or_else swap r).reason_type ≡ swap_type swap r.reason_type
swapped_type none r = refl
swapped_type (some s) r = refl

unlinked_slot :
    (a : Dict String) (slot : Option String)
    → is_some slot ≡ false
    → is_some (answered_slot a slot) ≡ false
unlinked_slot a none h = refl
unlinked_slot a (some slot) h = cc h

reason_type_of :
    (m : ScenarioMapping) (o : TupleOverride) (a : Dict String)
    → (reason_of m o a).reason_type
      ≡ late
          (is_some (answered_slot a m.object_id_slot))
          m.retroactive
          (swap_type (orphan_of m a) (base_reason m o))
unfolding reason_of
reason_type_of m o a =
    let asserted = is_some (answered_slot a m.object_id_slot) in
    let base : ReasonSwap = record {
      reason_type = base_reason m o;
      reason_text = or_else o.reason_text m.reason_text;
    } in
    swapped-late asserted m.retroactive (or_else (orphan_of m a) base)
    ∙ ap (λ r. late asserted m.retroactive r) (swapped_type (orphan_of m a) base)

templates_kept :
    (reference : String) (asserted : Option String) (single : Bool) (ts : List ObjectTemplate)
    → map template_of (map (built_object reference asserted single) ts) ≡ ts
templates_kept reference asserted single [] = refl
templates_kept reference asserted single (o ∷ os) =
    ap (λ r. o ∷ r) (templates_kept reference asserted single os)

parties_kept :
    (usina_party_id : String) (slot : Option String) (a : Dict String) (ps : List PartyTemplate)
    → map terms_of (map (built_party usina_party_id slot a) ps) ≡ map terms_of_template ps
parties_kept usina_party_id slot a [] = refl
parties_kept usina_party_id slot a (p ∷ ps) =
    ap (λ r. terms_of_template p ∷ r) (parties_kept usina_party_id slot a ps)

pub built_tuple :
    (to_iso : String → Option String) (usina_party_id : String) (intent : Intent)
    (unidentified : List String) (m : ScenarioMapping) {c : Candidate}
    → build_from to_iso usina_party_id intent unidentified m ≡ ok c
    → (unknown : Bool) × (tuple_of c
        ≡ tuple_with m
            (override_of m.variants intent.answers)
            (reason_of m (override_of m.variants intent.answers) intent.answers).reason_type
            (built_reason m intent.answers unknown).requires_followup
            (is_some (answered_slot intent.answers m.related_event_slot)))
unfolding build_from objects_of built_reason
built_tuple to_iso usina_party_id intent unidentified m {c} h =
    let (occurred_at, read, h1) =
      >>=-eq-ok (to_instant_iso to_iso (lookup "occurredAt" intent.answers)) _ h in
    let (due_at, due, h2) = >>=-eq-ok (due_at_of to_iso intent.answers) _ h1 in
    let a = intent.answers in
    let o = override_of m.variants a in
    let unknown : Bool =
      any (is_unidentified unidentified)
        (map (built_party usina_party_id m.counterparty_slot a) m.parties) in
    let shape =
      tuple_with m o (reason_of m o a).reason_type (built_reason m a unknown).requires_followup
        (is_some (answered_slot a m.related_event_slot)) in
    (
      unknown,
      ap tuple_of (sym (ok_injective h2))
          ∙ ap
              (λ ts. record shape {
                objects = ts;
                parties =
                    map terms_of (map (built_party usina_party_id m.counterparty_slot a) m.parties);
              })
              (templates_kept ("intent:" <> intent.id) (answered_slot a m.object_id_slot) _
                (object_templates m.objects o))
          ∙ ap (λ ps. record shape { parties = ps })
              (parties_kept usina_party_id m.counterparty_slot a m.parties),
    )

-- Every candidate that the treasury builds, of whatever scenario, answers and choice, for parties
-- identified or not, and where the origin that its scenario asks for is answered or may be left open:
-- the texts of its event type, effect, objects, reason, confidence, of the roles and directions of
-- its parties and of the type of its reporter are values of the enums of the ledger, and the policy
-- of the ledger accepts an event of them behind another event and without a due date.
pub build_admitted :
    (to_iso : String → Option String) (usina_party_id : String) (intent : Intent)
    (unidentified : List String) (m : ScenarioMapping) {c : Candidate}
    → lookup intent.scenario_id mappings ≡ some m
    → has_lineage m intent.answers ≡ true
    → build to_iso usina_party_id intent unidentified ≡ ok c
    → is_admitted (tuple_of c) ≡ true
unfolding build all_admitted has_lineage built_reason
build_admitted to_iso usina_party_id intent unidentified m {c} found lineage h =
    let a = intent.answers in
    let o = override_of m.variants a in
    let (unknown, shape) =
      built_tuple to_iso usina_party_id intent unidentified m (rw (build, found) at h) in
    let fits : all_admitted m o ≡ true = override_in (all_admitted m) m.variants a (
      all-lookup (λ n. all (all_admitted n) (overrides n.variants)) mappings intent.scenario_id
        table_admitted found) in
    let followup = (built_reason m a unknown).requires_followup in
    let linked = is_some (answered_slot a m.related_event_slot) in
    subst (λ t. is_admitted t ≡ true)
      (sym (shape ∙ ap (λ r. tuple_with m o r followup linked) (reason_type_of m o a)))
      (core m o m.related_event_slot (answered_slot a m.related_event_slot) m.orphan
        (is_some (answered_slot a m.object_id_slot)) followup fits lineage
        (unlinked_slot a m.related_event_slot) (λ h. ground (arith, h)))
