-- ===== src/Application/Staging.antt =====
-- `StagingRecordValidator` (ledger/src/core/application/services/StagingRecordValidator.ts). Each
-- method pushes its failures onto one array, so that it is a list here and `validate` appends.
mod Shape
pub mod Instants
pub mod Catalog
pub mod Command
pub mod Parts
pub mod Fields
pub mod Accepted
pub mod Visible
pub use Shape.*
use ledger_system.Prelude.{
  ℕ, ◌+◌, String, Bool, true, false, not, ◌&&◌, ◌||◌, Option, none, some, List, [], ◌∷◌, ◌++◌, ◌==◌,
  string_eq, truthy, any, includes, map, if◌then◌else◌,
}
use ledger_system.Prelude.Texts.{codes, print}
use ledger_system.Prelude.Strings.{◌<>◌, join, is_blank}
use ledger_system.Domain.Enums.{
  event_type_values, event_type_text, economic_effect_values, economic_effect_text,
  reporter_type_values, reporter_type_text, party_role_values, party_role_text, direction_values,
  direction_text, object_type_values, object_type_text, relation_values, relation_text,
  reason_type_values, reason_type_text, confidence_level_values, confidence_level_text,
}
use ledger_system.Domain.Money.{is_decimal}
use ledger_system.Domain.Entities.{LedgerEvent}
use ledger_system.Infra.Memory.{exists_by_source_reference}

abbrev Failures : Type 0
Failures = List ValidationFailure

-- The failures that one statement after the other pushes.
abbrev pub in_turn : List Failures → Failures
in_turn [] = []
in_turn (now ∷ later) = now ++ in_turn later

-- `failures.push({ type, description })` under a condition.
abbrev fail_if : Bool → RejectionType → String → Failures
fail_if true type description = record { type = type; description = description } ∷ []
fail_if false type description = []

abbrev pub or_empty : Option String → String
or_empty none = ""
or_empty (some s) = s

-- `VALID_….has(text)`, where the set holds the values of an enum.
abbrev pub is_value : {A : Type 0} → List A → (A → String) → String → Bool
is_value values text s = any (λ v. text v == s) values

-- `Invalid x: "…". Valid values: …`, for a text that is given and is not a value of the enum.
abbrev fail_unless_value : {A : Type 0} → List A → (A → String) → String → Option String → Failures
fail_unless_value values text what none = []
fail_unless_value values text what (some s) =
    fail_if (truthy (some s) && not (is_value values text s)) RejectionType.invalid_schema
      (what <> ": \"" <> s <> "\". Valid values: " <> join ", " (map text values))

abbrev pub required_fields : StagingRecord → List (String × Option String)
required_fields r =
    ("eventType", r.event_type)
    ∷ ("economicEffect", r.economic_effect)
    ∷ ("occurredAt", r.occurred_at)
    ∷ ("amount", r.amount)
    ∷ ("currency", r.currency)
    ∷ ("sourceReference", r.source_reference)
    ∷ ("normalizationVersion", r.normalization_version)
    ∷ ("normalizationWorkerId", r.normalization_worker_id)
    ∷ []

-- The loop over `REQUIRED_FIELDS`.
pub missing_fields : List (String × Option String) → Failures
missing_fields [] = []
missing_fields ((name, value) ∷ fields) =
    fail_if (not (truthy value)) RejectionType.invalid_schema ("Missing required field: " <> name)
    ++ missing_fields fields

abbrev pub default_source_systems : List String
default_source_systems = "normalizer" ∷ "manual-import" ∷ "integration" ∷ []

pub source_system_failures : List String → Option String → Failures
source_system_failures known none =
    fail_if true RejectionType.invalid_schema "Missing required field: sourceSystem"
source_system_failures known (some s) =
    if s == ""
    then fail_if true RejectionType.invalid_schema "Missing required field: sourceSystem"
    else fail_if (not (includes known s)) RejectionType.invalid_schema
        ("Unknown source system: \"" <> s <> "\"")

pub has_reporter : Option StagingReporter → Bool
has_reporter none = false
has_reporter (some r) = truthy r.reporter_type && truthy r.reporter_id && truthy r.channel

unfoldable pub validate_required_fields : List String → StagingRecord → Failures
unfolding missing_fields source_system_failures has_reporter
validate_required_fields known r = in_turn (
    (missing_fields (required_fields r))
    ∷ (source_system_failures known r.source_system)
    ∷ (fail_if (not (has_reporter r.reporter)) RejectionType.invalid_schema
        "Missing required reporter fields (reporterType, reporterId, channel)")
    ∷ [])

abbrev pub type_of_reporter : Option StagingReporter → Option String
type_of_reporter none = none
type_of_reporter (some r) = r.reporter_type

unfoldable pub validate_enum_fields : StagingRecord → Failures
validate_enum_fields r = in_turn (
    (fail_unless_value event_type_values event_type_text "Invalid eventType" r.event_type)
    ∷ (fail_unless_value economic_effect_values economic_effect_text "Invalid economicEffect"
        r.economic_effect)
    ∷ (fail_unless_value reporter_type_values reporter_type_text "Invalid reporterType"
        (type_of_reporter r.reporter))
    ∷ [])

unfoldable pub validate_amount : Option String → Failures
validate_amount none = []
validate_amount (some s) =
    fail_if (truthy (some s) && not (is_decimal (codes s))) RejectionType.invalid_amount
      ("Invalid amount format: \"" <> s <> "\" — must be a positive decimal with up to 2 places")

-- A part that is missing, or that is not a value of its enum.
abbrev part_failures :
    {A : Type 0}
    → List A
    → (A → String)
    → RejectionType
    → String
    → String
    → Option String
    → Failures
part_failures values text absent at what value = in_turn (
    (fail_if (not (truthy value)) absent (at <> " is missing " <> what))
    ∷ (fail_unless_value values text (at <> " has invalid " <> what) value)
    ∷ [])

abbrev pub party_at : ℕ → String
party_at i = "Party at index " <> print i

abbrev pub role_failures : ℕ → StagingParty → Failures
role_failures i p =
    part_failures party_role_values party_role_text RejectionType.missing_party (party_at i) "role"
      p.role

abbrev pub direction_failures : ℕ → StagingParty → Failures
direction_failures i p =
    part_failures direction_values direction_text RejectionType.missing_party (party_at i)
      "direction" p.direction

abbrev pub party_failures : ℕ → StagingParty → Failures
party_failures i p = in_turn (
    (fail_if (not (truthy p.party_id)) RejectionType.missing_party
      (party_at i <> " is missing partyId"))
    ∷ (role_failures i p)
    ∷ (direction_failures i p)
    ∷ [])

pub each_party : ℕ → List StagingParty → Failures
each_party i [] = []
each_party i (p ∷ ps) = party_failures i p ++ each_party (i + 1) ps

unfoldable pub validate_parties : Option (List StagingParty) → Failures
unfolding each_party
validate_parties (some (p ∷ ps)) = each_party 0 (p ∷ ps)
validate_parties _ = fail_if true RejectionType.missing_party "At least one party is required"

abbrev pub object_at : ℕ → String
object_at i = "Object at index " <> print i

abbrev pub object_type_failures : ℕ → StagingObject → Failures
object_type_failures i o =
    part_failures object_type_values object_type_text RejectionType.invalid_schema (object_at i)
      "objectType" o.object_type

abbrev pub relation_failures : ℕ → StagingObject → Failures
relation_failures i o =
    part_failures relation_values relation_text RejectionType.invalid_schema (object_at i)
      "relation" o.relation

abbrev pub object_failures : ℕ → StagingObject → Failures
object_failures i o = in_turn (
    (fail_if (not (truthy o.object_id)) RejectionType.invalid_schema
      (object_at i <> " is missing objectId"))
    ∷ (object_type_failures i o)
    ∷ (relation_failures i o)
    ∷ [])

pub each_object : ℕ → List StagingObject → Failures
each_object i [] = []
each_object i (o ∷ os) = object_failures i o ++ each_object (i + 1) os

unfoldable pub validate_objects : Option (List StagingObject) → Failures
unfolding each_object
validate_objects (some (o ∷ os)) = each_object 0 (o ∷ os)
validate_objects _ =
    fail_if true RejectionType.invalid_schema "At least one economic object is required"

abbrev pub reason_type_failures : StagingReason → Failures
reason_type_failures r = in_turn (
    (fail_if (not (truthy r.type)) RejectionType.invalid_schema "Reason is missing type")
    ∷ (fail_unless_value reason_type_values reason_type_text "Invalid reason type" r.type)
    ∷ [])

pub reason_description_failures : StagingReason → Failures
unfolding is_blank
reason_description_failures r =
    fail_if (is_blank (or_empty r.description)) RejectionType.invalid_schema
      "Reason is missing description"

abbrev pub confidence_failures : StagingReason → Failures
confidence_failures r = in_turn (
    (fail_if (not (truthy r.confidence)) RejectionType.invalid_schema
      "Reason is missing confidence level")
    ∷ (fail_unless_value confidence_level_values confidence_level_text "Invalid confidence level"
        r.confidence)
    ∷ [])

unfoldable pub validate_reason : Option StagingReason → Failures
unfolding reason_description_failures
validate_reason none = []
validate_reason (some r) =
    in_turn (reason_type_failures r ∷ reason_description_failures r ∷ confidence_failures r ∷ [])

unfoldable pub check_duplicate : Option String → List LedgerEvent → Failures
check_duplicate reference book =
    fail_if (truthy reference && exists_by_source_reference (or_empty reference) book)
      RejectionType.duplicate_event ("Duplicate source reference: \"" <> or_empty reference <> "\"")

-- `StagingRecordValidator.validate`
unfoldable pub validate : List String → List LedgerEvent → StagingRecord → Failures
validate known book r = in_turn (
    (validate_required_fields known r)
    ∷ (validate_enum_fields r)
    ∷ (validate_amount r.amount)
    ∷ (validate_parties r.parties)
    ∷ (validate_objects r.objects)
    ∷ (validate_reason r.reason)
    ∷ (check_duplicate r.source_reference book)
    ∷ [])
