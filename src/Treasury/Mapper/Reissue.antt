-- ===== src/Treasury/Mapper/Reissue.antt =====
-- `planReissue` against `build` (treasury/src/core/application/services/CandidateMapper.ts).
use ledger_system.Prelude.{
  String, Bool, ◌&&◌, true, ◌==◌, string_eq, Option, some, not, arith, List, any, map, find, ◌≡◌,
  refl, sym, subst, ok, inl, inr, Bool-cases, Option-cases, ◌∙◌,
}
use ledger_system.Prelude.Dict.{Dict, lookup}
use ledger_system.Treasury.Mapper.{ScenarioMapping, Candidate, Intent, to_instant_iso, build}
use ledger_system.Treasury.Mapper.Table.{mappings}
use ledger_system.Treasury.Mapper.Slots.{
  ReissueEvent, ReissuePlan, plan_reissue, plan_for, plan_with, plan_entry, object_id_of,
  moved_object,
}
use ledger_system.Treasury.Mapper.Gate.{template_of}
use ledger_system.Treasury.Mapper.Announced.{all-entry}
use ledger_system.Treasury.Mapper.Replay.{Answered, kept, Apart, plan-Answered}
use ledger_system.Treasury.Mapper.Branches.{
  selector_of, are_apart, table_apart, can_tell, by_event_type, Alone, retracting, table-Alone,
  All-entry, built_facts, recorded_template,
}
use ledger_system.Treasury.Mapper.Selections.{Selects, gives-eq, can_tell-Selects}
use ledger_system.Treasury.Mapper.Rebuilt.{SameMovement, Rebuild, rebuild, rebuilt}

-- The answers of a plan name, where the scenario asks for them, the party of the event that is not the
-- usina, the position that it moves, and its origin.
abbrev pub NamesParts :
    ScenarioMapping → ReissueEvent → (usina_party_id : String) → Dict String → Type 0
NamesParts m event usina_party_id answers =
    Answered m.counterparty_slot answers (find (λ p. not (p == usina_party_id)) event.party_ids)
    × Answered m.object_id_slot answers (object_id_of (moved_object event))
    × Answered m.related_event_slot answers (kept event.related_event_id)

-- What a plan must be for a candidate and an event of it: a refusal where the candidate retracts, or
-- answers for the scenario, from which `build` makes the same movement.
pub data Replays (b : Rebuild) (id : String) (c : Candidate) (event : ReissueEvent)
    (occurred : String) : ReissuePlan → Type 0 where
  correction :
      any (λ o. o.relation == "retracts") (map template_of c.objects) ≡ true
      → Replays b id c event occurred ReissuePlan.is_a_correction
  again :
      (m : ScenarioMapping) (answers : List (String × String)) (made : Candidate)
      → lookup id mappings ≡ some m
      → rebuild b id answers ≡ ok made
      → SameMovement m c event occurred answers made
      → NamesParts m event b.usina_party_id answers
      → Replays b id c event occurred (ReissuePlan.reissuable id answers)

-- The plan of a scenario that does not retract.
plan_for-Replays :
    (b : Rebuild) (id : String) (m : ScenarioMapping) (event : ReissueEvent) (occurred : String)
    {c : Candidate}
    → lookup id mappings ≡ some m
    → to_instant_iso b.to_iso (some event.occurred_at) ≡ ok occurred
    → m.event_type ≡ c.event_type
    → event.economic_effect ≡ c.economic_effect
    → map recorded_template event.objects ≡ map template_of c.objects
    → Apart (selector_of m.variants) m.counterparty_slot m.object_id_slot m.related_event_slot
    → Selects m m.variants event
    → Replays b id c event occurred (plan_for id m event b.usina_party_id)
plan_for-Replays b id m event occurred {c} found reads types effects objects apart
      (selection, chosen_so, given, passed) =
    let (effect, templates) = gives-eq m _ _ _ (given _) in
    let (party, position, origin, no_due) =
      plan-Answered event (selector_of m.variants) m.counterparty_slot m.object_id_slot
        m.related_event_slot selection (find (λ p. not (p == b.usina_party_id)) event.party_ids)
        (object_id_of (moved_object event)) event.related_event_id passed apart in
    let (made, ran, same) =
      rebuilt b id m c event occurred _ found reads refl refl refl no_due types (effect ∙ effects)
        (templates ∙ objects) in
    subst (λ s. Replays b id c event occurred (plan_with id m event b.usina_party_id s))
      (sym chosen_so) (again m _ made found ran same (party, position, origin))

all_four :
    (a b c d : Bool) → (a && b && c && d) ≡ true → (a ≡ true) × (b ≡ true) × (c ≡ true) × (d ≡ true)
all_four a b c d h = (ground (arith, h), ground (arith, h), ground (arith, h), ground (arith, h))

are_apart-Apart :
    (m : ScenarioMapping)
    → are_apart m ≡ true
    → Apart (selector_of m.variants) m.counterparty_slot m.object_id_slot m.related_event_slot
are_apart-Apart m h = all_four _ _ _ _ h

-- What `planReissue` plans, `build` makes: for an event that is recorded with the type, the effect and
-- the objects of a candidate that `build` made, and whose date reads as an instant, the plan refuses
-- only a candidate that retracts, as a correction; otherwise it names the scenario that made the
-- candidate, and answers from which `build` returns a candidate of the same event type, economic
-- effect, and types and relations of the objects, with the amount and the currency of the event, at
-- the instant of its date and without a due date. Where the scenario has slots for them, the answers
-- are the party of the event that is not the usina, the object that it moves, and its origin. The
-- reason is not part of it.
pub plan_reissue-build :
    (to_iso : String → Option String) (usina_party_id : String) (intent next : Intent)
    (unidentified : List String) (event : ReissueEvent) (occurred : String) {c : Candidate}
    → build to_iso usina_party_id intent unidentified ≡ ok c
    → event.event_type ≡ c.event_type
    → event.economic_effect ≡ c.economic_effect
    → map recorded_template event.objects ≡ map template_of c.objects
    → to_instant_iso to_iso (some event.occurred_at) ≡ ok occurred
    → Replays
        (record {
          to_iso = to_iso;
          usina_party_id = usina_party_id;
          unidentified = unidentified;
          intent = next;
        })
        intent.scenario_id
        c
        event
        occurred
        (plan_reissue event usina_party_id)
unfolding build plan_reissue Alone by_event_type
plan_reissue-build to_iso usina_party_id intent next unidentified event occurred {c} h types effects
      objects reads =
    elim (Option-cases (lookup intent.scenario_id mappings)) [
      | inl absent ↦ cc (rw (build, absent) at h)
      | inr (m, found) ↦
          let id = intent.scenario_id in
          let b : Rebuild = record {
            to_iso = to_iso;
            usina_party_id = usina_party_id;
            unidentified = unidentified;
            intent = next;
          } in
          let (type, told, withdraws) =
            built_facts to_iso usina_party_id intent unidentified m found h in
          let alone : find (λ e. e.1.event_type == event.event_type) mappings ≡ some (id, m) =
            subst (λ t. find (λ e. e.1.event_type == t) mappings ≡ some (id, m)) (type ∙ sym types)
              (All-entry Alone mappings id table-Alone found) in
          let told_of_event : can_tell m m.variants event.economic_effect
                (map recorded_template event.objects)
              ≡ true =
            rw (effects, objects) told in
          let apart : are_apart m ≡ true =
            all-entry (λ k n. are_apart n) mappings id table_apart found in
          subst (λ s. Replays b id c event occurred (plan_entry event usina_party_id s)) (sym alone)
            (elim (Bool-cases (retracting m.objects)) [
              | inl retracts ↦ rw retracts (correction (withdraws retracts))
              | inr stands ↦ rw stands (
                  plan_for-Replays b id m event occurred found reads type effects objects
                    (are_apart-Apart m apart) (can_tell-Selects m m.variants event told_of_event))
            ])
    ]
