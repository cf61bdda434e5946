-- ===== src/Treasury/Mapper/Rebuilt.antt =====
-- What `build` makes of the answers of a plan
-- (treasury/src/core/application/services/CandidateMapper.ts).
use ledger_system.Prelude.{
  String, string_eq, Option, some, none, ap, err, Result, >>=-eq-ok, ok_injective, List, map, ◌≡◌,
  refl, sym, ok, ◌∙◌,
}
use ledger_system.Prelude.Dict.{Dict, lookup}
use ledger_system.Treasury.Mapper.{
  ScenarioMapping, Candidate, Intent, MapperError, build_from, to_instant_iso, due_at_of, answered,
  answered_slot, override_of, object_templates, build, or_else,
}
use ledger_system.Treasury.Mapper.Table.{mappings}
use ledger_system.Treasury.Mapper.Slots.{ReissueEvent}
use ledger_system.Treasury.Mapper.Gate.{template_of}
use ledger_system.Treasury.Mapper.Admitted.{built_tuple}

-- What `build` makes of the answers of a plan, beside what it made first: the same movement, with the
-- figures of the event, dated as its date reads, without a due date, and linked to the origin that
-- is answered.
pub record SameMovement (m : ScenarioMapping) (c : Candidate) (event : ReissueEvent)
    (occurred : String) (answers : Dict String) (made : Candidate) : Type 0 where
  pub event_type : made.event_type ≡ c.event_type
  pub economic_effect : made.economic_effect ≡ c.economic_effect
  pub objects : map template_of made.objects ≡ map template_of c.objects
  pub amount : made.amount ≡ some event.amount
  pub currency : made.currency ≡ some event.currency
  pub occurred_at : made.occurred_at ≡ occurred
  pub due_at : made.due_at ≡ none
  pub related_event_id : made.related_event_id ≡ answered_slot answers m.related_event_slot

-- What `build` takes from outside, with an intent that a plan goes into.
pub record Rebuild : Type 0 where
  pub to_iso : String → Option String
  pub usina_party_id : String
  pub unidentified : List String
  pub intent : Intent

abbrev pub with_answers : Intent → String → Dict String → Intent
with_answers intent id answers = record intent { scenario_id = id; answers = answers }

abbrev pub rebuild : Rebuild → String → Dict String → Result MapperError Candidate
rebuild b id answers =
    build b.to_iso b.usina_party_id (with_answers b.intent id answers) b.unidentified

no_due_date :
    (to_iso : String → Option String) (answers : Dict String)
    → lookup "dueAt" answers ≡ none
    → due_at_of to_iso answers ≡ ok none
unfolding answered
no_due_date to_iso answers h = rw (due_at_of, answered, h) refl

built_parts :
    (to_iso : String → Option String) (usina_party_id : String) (intent : Intent)
    (unidentified : List String) (m : ScenarioMapping) (occurred : String) {c : Candidate}
    → to_instant_iso to_iso (lookup "occurredAt" intent.answers) ≡ ok occurred
    → lookup "dueAt" intent.answers ≡ none
    → build_from to_iso usina_party_id intent unidentified m ≡ ok c
    → (c.amount ≡ lookup "amount" intent.answers)
      × (c.currency ≡ lookup "currency" intent.answers)
      × (c.occurred_at ≡ occurred)
      × (c.due_at ≡ none)
      × (c.related_event_id ≡ answered_slot intent.answers m.related_event_slot)
unfolding build_from
built_parts to_iso usina_party_id intent unidentified m occurred {c} reads no_due h =
    let (at, read, h1) =
      >>=-eq-ok (to_instant_iso to_iso (lookup "occurredAt" intent.answers)) _ h in
    let (due, due_read, h2) = >>=-eq-ok (due_at_of to_iso intent.answers) _ h1 in
    let made = sym (ok_injective h2) in
    let none_due : none ≡ due =
      ok_injective (sym (no_due_date to_iso intent.answers no_due) ∙ due_read) in
    (
      ap (λ d. d.amount) made,
      ap (λ d. d.currency) made,
      ap (λ d. d.occurred_at) made ∙ ok_injective (sym read ∙ reads),
      ap (λ d. d.due_at) made ∙ sym none_due,
      ap (λ d. d.related_event_id) made,
    )

build_from_made :
    (to_iso : String → Option String) (usina_party_id : String) (intent : Intent)
    (unidentified : List String) (m : ScenarioMapping) (occurred : String)
    (result : Result MapperError Candidate)
    → to_instant_iso to_iso (lookup "occurredAt" intent.answers) ≡ ok occurred
    → lookup "dueAt" intent.answers ≡ none
    → build_from to_iso usina_party_id intent unidentified m ≡ result
    → (c : Candidate) × (result ≡ ok c)
unfolding build_from
build_from_made to_iso usina_party_id intent unidentified m occurred (ok c) reads no_due h =
    (c, refl)
build_from_made to_iso usina_party_id intent unidentified m occurred (err e) reads no_due h =
    cc (rw (build_from, reads, no_due_date to_iso intent.answers no_due) at h)

-- The movement that `build` makes of the answers of a plan.
pub rebuilt :
    (b : Rebuild) (id : String) (m : ScenarioMapping) (c : Candidate) (event : ReissueEvent)
    (occurred : String) (answers : Dict String)
    → lookup id mappings ≡ some m
    → to_instant_iso b.to_iso (some event.occurred_at) ≡ ok occurred
    → lookup "amount" answers ≡ some event.amount
    → lookup "currency" answers ≡ some event.currency
    → lookup "occurredAt" answers ≡ some event.occurred_at
    → lookup "dueAt" answers ≡ none
    → m.event_type ≡ c.event_type
    → or_else (override_of m.variants answers).economic_effect m.economic_effect ≡ c.economic_effect
    → object_templates m.objects (override_of m.variants answers) ≡ map template_of c.objects
    → (made : Candidate) × (rebuild b id answers ≡ ok made)
      × SameMovement m c event occurred answers made
unfolding build
rebuilt b id m c event occurred answers found reads amount currency at no_due type effect
      templates =
    let intent = with_answers b.intent id answers in
    let here : to_instant_iso b.to_iso (lookup "occurredAt" answers) ≡ ok occurred =
      ap (λ d. to_instant_iso b.to_iso d) at ∙ reads in
    let (made, built) =
      build_from_made b.to_iso b.usina_party_id intent b.unidentified m occurred _ here no_due
        refl in
    let (unknown, shape) = built_tuple b.to_iso b.usina_party_id intent b.unidentified m built in
    let (is_amount, is_currency, is_at, is_due, is_related) =
      built_parts b.to_iso b.usina_party_id intent b.unidentified m occurred here no_due built in
    (
      made,
      rw (build, found) built,
      record {
        event_type = ap (λ t. t.event_type) shape ∙ type;
        economic_effect = ap (λ t. t.economic_effect) shape ∙ effect;
        objects = ap (λ t. t.objects) shape ∙ templates;
        amount = is_amount ∙ amount;
        currency = is_currency ∙ currency;
        occurred_at = is_at;
        due_at = is_due;
        related_event_id = is_related;
      },
    )
