-- ===== src/Tests/Treasury.antt =====
-- Candidates and names of the treasury at concrete answers.
use ledger_system.Prelude.{
  Bool, All, if◌then◌else◌, ◌==◌, string_eq, false, ℕ, true, some, none, [], ◌∷◌, ◌≡◌, refl, Option,
  String, ok,
}
use ledger_system.Prelude.Dict.{lookup}
use ledger_system.Prelude.Strings.{is_blank, trim, trim_start, trim_end, ◌<>◌}
use ledger_system.Treasury.Mapper.{
  Intent, Candidate, build, build_from, to_instant_iso, built_reason, reason_of, override_of,
  object_templates, objects_of, answered,
}
use ledger_system.Treasury.Mapper.Table.{mappings, register_commission_received, register_waiver}
use ledger_system.Treasury.Mapper.Gate.{is_admitted, tuple_of}
use ledger_system.Treasury.Mapper.Admitted.{build_admitted, has_lineage}
use ledger_system.Treasury.Mapper.Announced.{are_announced, build_announced}
use ledger_system.Treasury.Mapper.Slots.{ReissueEvent, plan_reissue}
use ledger_system.Treasury.Mapper.Reissue.{Replays, plan_reissue-build}
use ledger_system.Treasury.Dialog.{
  SlotDefinition, SlotType, Scenario, next_state, start, validate_answer, IntentProps,
}
use ledger_system.Treasury.Dialog.Progress.{
  IsReady, IsAnswered, is_complete, converse, converse-IsReady,
}
use ledger_system.Treasury.Dialog.Advance.{Resolution, accepted_value}
use ledger_system.Treasury.Distance.{edit_distance}
use ledger_system.Treasury.Distance.Table.{IsLeast, edit_distance-IsLeast}

-- A receipt of which nobody knows the origin, from a payer who is not identified.
abbrev received : Intent
received = record {
  id = "i1";
  scenario_id = "register_commission_received";
  user_id = "u1";
  answers =
      ("payer", "p1")
      ∷ ("amount", "120.00")
      ∷ ("currency", "BRL")
      ∷ ("occurredAt", "2025-03-01")
      ∷ ("origin", "  ")
      ∷ [];
}

-- The instant of a text, at Greenwich.
abbrev at_greenwich : String → Option String
at_greenwich text = some (text <> ".000Z")

abbrev orphan : Candidate
orphan = record {
  source_reference = "intent:i1";
  event_type = "commission_received";
  economic_effect = "cash_in";
  occurred_at = "2025-03-01T00:00:00.000Z";
  due_at = none;
  amount = some "120.00";
  currency = some "BRL";
  description = none;
  related_event_id = none;
  parties =
      record { party_id = some "usina"; role = "payee"; direction = "in"; amount = some "120.00" }
      ∷ record {
        party_id = some "p1";
        role = "payer";
        direction = "neutral";
        amount = some "120.00";
      }
      ∷ [];
  objects =
      record {
        object_id = "intent:i1";
        object_type = "commission_receivable";
        relation = "settles";
      }
      ∷ [];
  reason = record {
    type = "unknown_origin";
    description = "Commission received; originating expected unknown · counterparty not identified";
    confidence = "high";
    requires_followup = true;
  };
  reporter = record { reporter_type = "user"; reporter_id = "u1"; channel = "web" };
}

received_mapping : lookup received.scenario_id mappings ≡ some register_commission_received
unfolding mappings register_commission_received
received_mapping = refl

received_lineage : has_lineage register_commission_received received.answers ≡ true
unfolding has_lineage register_commission_received
received_lineage = refl

built_orphan : build at_greenwich "usina" received ("p1" ∷ []) ≡ ok orphan
unfolding build build_from to_instant_iso built_reason reason_of override_of object_templates
    objects_of answered mappings register_commission_received trim trim_start trim_end
built_orphan = refl

build_admitted_example : is_admitted (tuple_of orphan) ≡ true
build_admitted_example =
    build_admitted at_greenwich "usina" received ("p1" ∷ []) register_commission_received
      received_mapping received_lineage built_orphan

build_announced_example :
    are_announced received.scenario_id orphan.event_type (tuple_of orphan).objects ≡ true
build_announced_example = build_announced at_greenwich "usina" received ("p1" ∷ []) built_orphan

-- A waiver that takes an entitlement back.
abbrev taken_back : Intent
taken_back = record {
  id = "i2";
  scenario_id = "register_waiver";
  user_id = "u1";
  answers =
      ("payee", "p1")
      ∷ ("amount", "5.00")
      ∷ ("currency", "BRL")
      ∷ ("occurredAt", "2025-03-01")
      ∷ ("basis", "reversal")
      ∷ [];
}

abbrev reversal : Candidate
reversal = record {
  source_reference = "intent:i2";
  event_type = "commission_waiver";
  economic_effect = "non_cash";
  occurred_at = "2025-03-01T00:00:00.000Z";
  due_at = none;
  amount = some "5.00";
  currency = some "BRL";
  description = none;
  related_event_id = none;
  parties =
      record { party_id = some "p1"; role = "beneficiary"; direction = "neutral"; amount = none }
      ∷ [];
  objects =
      record {
        object_id = "intent:i2";
        object_type = "commission_entitlement";
        relation = "reverses";
      }
      ∷ [];
  reason = record {
    type = "commission_waiver";
    description = "Commission waiver";
    confidence = "high";
    requires_followup = false;
  };
  reporter = record { reporter_type = "user"; reporter_id = "u1"; channel = "web" };
}

built_reversal : build at_greenwich "usina" taken_back [] ≡ ok reversal
unfolding build build_from to_instant_iso built_reason reason_of override_of object_templates
    objects_of answered mappings register_waiver trim trim_start trim_end
built_reversal = refl

-- The event that the ledger holds of it.
abbrev recorded : ReissueEvent
recorded = record {
  event_type = "commission_waiver";
  economic_effect = "non_cash";
  amount = "5.00";
  currency = "BRL";
  occurred_at = "2025-03-01T00:00:00.000Z";
  description = some "agreed by telephone";
  related_event_id = none;
  objects =
      record {
        object_id = "intent:i2";
        object_type = "commission_entitlement";
        relation = "reverses";
      }
      ∷ [];
  party_ids = "p1" ∷ [];
}

date_reads :
    to_instant_iso at_greenwich (some recorded.occurred_at) ≡ ok "2025-03-01T00:00:00.000Z.000Z"
unfolding to_instant_iso trim trim_start trim_end
date_reads = refl

plan_reissue-build_example :
    Replays
      (record {
        to_iso = at_greenwich;
        usina_party_id = "usina";
        unidentified = [];
        intent = received;
      })
      "register_waiver"
      reversal
      recorded
      "2025-03-01T00:00:00.000Z.000Z"
      (plan_reissue recorded "usina")
plan_reissue-build_example =
    plan_reissue-build at_greenwich "usina" taken_back received [] recorded
      "2025-03-01T00:00:00.000Z.000Z" built_reversal refl refl refl date_reads

-- The names `alfa` and `falta`, by their letters.
edit_distance-IsLeast_example :
    (n : ℕ) × (edit_distance (1 ∷ 2 ∷ 3 ∷ 1 ∷ []) (3 ∷ 1 ∷ 2 ∷ 4 ∷ 1 ∷ []) ≡ some n)
    × IsLeast (1 ∷ 2 ∷ 3 ∷ 1 ∷ []) (3 ∷ 1 ∷ 2 ∷ 4 ∷ 1 ∷ []) n
edit_distance-IsLeast_example = edit_distance-IsLeast (1 ∷ 2 ∷ 3 ∷ 1 ∷ []) (3 ∷ 1 ∷ 2 ∷ 4 ∷ 1 ∷ [])

abbrev slot_of : String → SlotType → SlotDefinition
slot_of key type = record {
  key = key;
  type = type;
  prompt = key;
  required = true;
  help = none;
  choices = none;
  suggestion_source = none;
  allow_unidentifiable = none;
}

-- A scenario of two questions.
abbrev payment : Scenario
payment = record {
  id = "register_payment";
  title = "Payment";
  description = "A payment";
  slots = slot_of "payee" SlotType.party ∷ slot_of "amount" SlotType.money ∷ [];
}

-- The payee is known to the directory, the amount is 10.
abbrev answers_of : String → String
answers_of key = if key == "payee" then "Alfa" else "10"

abbrev known_party : String → Resolution
known_party mention = Resolution.resolved "p1" false

abbrev no_date : String → Bool
no_date text = false

all-IsAnswered : All (IsAnswered no_date known_party payment answers_of "t") payment.slots
unfolding accepted_value validate_answer is_blank trim trim_start trim_end
all-IsAnswered = (("p1", refl, refl), (("10", refl, refl), tt))

abbrev asked : IntentProps
asked = converse no_date known_party payment answers_of "t" 2 (start "i3" "p" "u1" "t")

converse-IsReady_example :
    IsReady (next_state payment asked.answers) × (is_complete asked.answers payment.slots ≡ true)
converse-IsReady_example =
    converse-IsReady no_date known_party payment answers_of "t" (start "i3" "p" "u1" "t")
      all-IsAnswered
