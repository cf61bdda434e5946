-- ===== src/Treasury/Mapper.antt =====
-- Candidates: `CandidateMapper` (treasury/src/core/application/services/CandidateMapper.ts). The
-- conversion of a date to the text of an instant depends on the time zone of the process and is an
-- argument, which gives nothing for a text that is no date. Keys that every object inherits, such as
-- `constructor`, are not modelled.
mod Shape
pub mod Payments
pub mod Table
pub mod Slots
pub mod Tuples
pub mod Gate
pub mod Admitted
pub mod Announced
pub mod Branches
pub mod Selections
pub mod Replay
pub mod Rebuilt
pub mod Reissue
pub use Shape.*
use ledger_system.Prelude.{
  ℕ, String, Bool, true, false, not, ◌&&◌, ◌||◌, Option, none, some, List, [], ◌∷◌, ◌==◌, string_eq,
  map, any, includes, is_some, length, if◌then◌else◌, nat_eq, Result, ok, err, ◌>>=◌,
}
use ledger_system.Prelude.Dict.{Dict, lookup}
use ledger_system.Prelude.Texts.{codes}
use ledger_system.Prelude.Strings.{◌<>◌, trim}
use ledger_system.Application.Staging.Instants.{date_only}
use ledger_system.Treasury.Mapper.Payments.{no_override}
use ledger_system.Treasury.Mapper.Table.{mappings}

-- `x ?? y`
abbrev pub or_else {ℓ} : {A : Type ℓ} → Option A → A → A
or_else none y = y
or_else (some x) y = x

-- `a[slot]?.trim() || undefined`
unfoldable pub answered : Dict String → String → Option String
answered a slot = elim (lookup slot a) [
  | none ↦ none
  | some v ↦ if trim v == "" then none else some (trim v)
]

-- `slot ? a[slot]?.trim() || undefined : undefined`
abbrev pub answered_slot : Dict String → Option String → Option String
answered_slot a none = none
answered_slot a (some slot) = answered a slot

-- The override that the answer to the selector picks.
abbrev pub chosen : Dict TupleOverride → Option String → TupleOverride
chosen by_choice none = no_override
chosen by_choice (some choice) = or_else (lookup choice by_choice) no_override

unfoldable pub override_of : Option Variants → Dict String → TupleOverride
override_of none a = no_override
override_of (some v) a = chosen v.by_choice (lookup v.selector_slot a)

-- The orphan reason, where the origin slot is there and left empty.
abbrev pub orphan_of : ScenarioMapping → Dict String → Option ReasonSwap
orphan_of m a =
    if is_some m.related_event_slot && not (is_some (answered_slot a m.related_event_slot))
    then m.orphan
    else none

-- The retroactive reason, where a position is asserted.
abbrev pub retroactive_of : ScenarioMapping → Dict String → Option ReasonSwap
retroactive_of m a = if is_some (answered_slot a m.object_id_slot) then m.retroactive else none

-- One swap of the reason behind the other.
abbrev pub swapped : Option ReasonSwap → ReasonSwap → ReasonSwap
swapped swap reason = or_else swap reason

-- `reasonType` and `reasonText`, before the note on the counterparty.
unfoldable pub reason_of : ScenarioMapping → TupleOverride → Dict String → ReasonSwap
reason_of m override a = swapped (retroactive_of m a) (
    swapped (orphan_of m a) (record {
      reason_type = or_else override.reason_type m.reason_type;
      reason_text = or_else override.reason_text m.reason_text;
    }))

-- `objectTemplates`: the override goes to the first object.
unfoldable pub object_templates : List ObjectTemplate → TupleOverride → List ObjectTemplate
object_templates [] override = []
object_templates (o ∷ os) override =
    record {
      object_type = or_else override.object_type o.object_type;
      relation = or_else override.relation o.relation;
    }
    ∷ os

abbrev minted_id : String → Bool → ObjectTemplate → String
minted_id reference single o = if single then reference else reference <> ":" <> o.object_type

abbrev built_object : String → Option String → Bool → ObjectTemplate → CandidateObject
built_object reference asserted single o = record {
  object_id = or_else asserted (minted_id reference single o);
  object_type = o.object_type;
  relation = o.relation;
}

unfoldable pub objects_of : String → Option String → List ObjectTemplate → List CandidateObject
objects_of reference asserted templates =
    map (built_object reference asserted (length templates == 1)) templates

abbrev party_id_of : String → Option String → Dict String → Who → Option String
party_id_of usina_party_id slot a Who.usina = some usina_party_id
party_id_of usina_party_id none a Who.counterparty = none
party_id_of usina_party_id (some slot) a Who.counterparty = lookup slot a

abbrev built_party : String → Option String → Dict String → PartyTemplate → CandidateParty
built_party usina_party_id slot a pt = record {
  party_id = party_id_of usina_party_id slot a pt.who;
  role = pt.role;
  direction = pt.direction;
  amount = if pt.carries_amount then lookup "amount" a else none;
}

abbrev is_unidentified : List String → CandidateParty → Bool
is_unidentified unidentified p = elim (p.party_id) [
  | none ↦ false
  | some id ↦ includes unidentified id
]

abbrev pub unidentified_counterparty : String
unidentified_counterparty = "counterparty not identified"

-- `toInstantISO` (treasury/src/core/application/utils/instant.ts).
unfoldable pub to_instant_iso :
    (to_iso : String → Option String) → Option String → Result MapperError String
to_instant_iso to_iso none = err type_error
to_instant_iso to_iso (some value) =
    elim (to_iso
      (if date_only (codes (trim value)) then trim value <> "T00:00:00" else trim value)) [
        | none ↦ err invalid_date
        | some iso ↦ ok iso
      ]

abbrev due_at_of :
    (to_iso : String → Option String) → Dict String → Result MapperError (Option String)
due_at_of to_iso a = elim (answered a "dueAt") [
  | none ↦ ok none
  | some v ↦ do iso ← to_instant_iso to_iso (lookup "dueAt" a); ok (some iso)
]

-- `a.description || undefined`
abbrev description_of : Option String → Option String
description_of none = none
description_of (some d) = if d == "" then none else some d

-- The reason of the candidate, for a counterparty that is or is not identified.
unfoldable pub built_reason : ScenarioMapping → Dict String → Bool → CandidateReason
built_reason m a unknown =
    let reason = reason_of m (override_of m.variants a) a in
    record {
      type = reason.reason_type;
      description =
          if unknown
          then reason.reason_text <> " · " <> unidentified_counterparty
          else reason.reason_text;
      confidence = "high";
      requires_followup =
          is_some (orphan_of m a) || unknown || is_some (answered_slot a m.followup_slot);
    }

-- `build`, from the mapping on.
unfoldable pub build_from :
    (to_iso : String → Option String)
    → (usina_party_id : String) → Intent
    → List String
    → ScenarioMapping
    → Result MapperError Candidate
build_from to_iso usina_party_id intent unidentified m = do
  let a = intent.answers
  let override = override_of m.variants a
  let source_reference = "intent:" <> intent.id
  let parties = map (built_party usina_party_id m.counterparty_slot a) m.parties
  occurred_at ← to_instant_iso to_iso (lookup "occurredAt" a)
  due_at ← due_at_of to_iso a
  ok (record {
    source_reference = source_reference;
    event_type = m.event_type;
    economic_effect = or_else override.economic_effect m.economic_effect;
    occurred_at = occurred_at;
    due_at = due_at;
    amount = lookup "amount" a;
    currency = lookup "currency" a;
    description = description_of (lookup "description" a);
    related_event_id = answered_slot a m.related_event_slot;
    parties = parties;
    objects =
        objects_of source_reference (answered_slot a m.object_id_slot)
          (object_templates m.objects override);
    reason = built_reason m a (any (is_unidentified unidentified) parties);
    reporter = record { reporter_type = "user"; reporter_id = intent.user_id; channel = "web" };
  })

-- `CandidateMapper.build`
unfoldable pub build :
    (to_iso : String → Option String)
    → (usina_party_id : String) → Intent
    → List String
    → Result MapperError Candidate
build to_iso usina_party_id intent unidentified = elim (lookup intent.scenario_id mappings) [
  | none ↦ err (no_mapping intent.scenario_id)
  | some m ↦ build_from to_iso usina_party_id intent unidentified m
]
