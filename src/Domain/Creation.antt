-- ===== src/Domain/Creation.antt =====
-- `LedgerEvent.create` (ledger/src/core/domain/entities/LedgerEvent.ts): the checks, the canonical
-- form that is hashed, and the event. The digest and the clock are parameters.
pub mod Guarantees
use ledger_system.Prelude.{String, Bool, Option, none, some, List, [], ◌∷◌, ok, ◌>>=◌, ◌>>◌}
use ledger_system.Domain.Errors.{Throws}
use ledger_system.Domain.Enums.{
  event_type_text, economic_effect_text, relation_text, object_type_text, reason_type_text,
  confidence_level_text, direction_text, party_role_text, reporter_type_text,
}
use ledger_system.Domain.Money.{Money, to_string}
use ledger_system.Domain.Hash.{Json, Items, Fields, nil, cons, end, field, generate_canonical}
use ledger_system.Domain.Hash.Instants.{to_iso_string}
use ledger_system.Domain.Entities.{
  Instant, LedgerEventParty, LedgerEventObject, EventReason, CreateLedgerEventProps, LedgerEvent,
}
use ledger_system.Domain.Event.{validate_basic, validate_flow, validate_reason_rules}
use ledger_system.Domain.Policy.{validate_semantic}

-- `value ?? null` of a text, an instant and an amount.
abbrev text_or_null : Option String → Json
text_or_null none = Json.null
text_or_null (some s) = Json.text s

abbrev instant_or_null : Option Instant → Json
instant_or_null none = Json.null
instant_or_null (some t) = Json.text (to_iso_string t)

abbrev amount_or_null : Option Money → Json
amount_or_null none = Json.null
amount_or_null (some m) = Json.text (to_string m)

abbrev party_forms : List LedgerEventParty → Items
party_forms [] = nil
party_forms (p ∷ ps) =
    cons
      (Json.object (
        field "partyId" (Json.text p.party_id) (
          field "role" (Json.text (party_role_text p.role)) (
            field "direction" (Json.text (direction_text p.direction))
              (field "amount" (amount_or_null p.amount) end)))))
      (party_forms ps)

abbrev object_forms : List LedgerEventObject → Items
object_forms [] = nil
object_forms (o ∷ os) =
    cons
      (Json.object (
        field "objectId" (Json.text o.object_id) (
          field "objectType" (Json.text (object_type_text o.object_type))
            (field "relation" (Json.text (relation_text o.relation)) end))))
      (object_forms os)

abbrev reason_form : Option EventReason → Json
reason_form none = Json.null
reason_form (some r) = Json.object (
    field "type" (Json.text (reason_type_text r.type)) (
      field "description" (Json.text r.description) (
        field "confidence" (Json.text (confidence_level_text r.confidence))
          (field "requiresFollowup" (Json.bool r.requires_followup) end))))

-- The argument of `EventHash.generateCanonical`.
unfoldable pub canonical_form : CreateLedgerEventProps → Instant → Json
canonical_form props recorded_at = Json.object (
    field "id" (Json.text props.id) (
      field "eventType" (Json.text (event_type_text props.event_type)) (
        field "economicEffect" (Json.text (economic_effect_text props.economic_effect)) (
          field "occurredAt" (Json.text (to_iso_string props.occurred_at)) (
            field "recordedAt" (Json.text (to_iso_string recorded_at)) (
              field "sourceAt" (instant_or_null props.source_at) (
                field "dueAt" (instant_or_null props.due_at) (
                  field "amount" (Json.text (to_string props.amount)) (
                    field "description" (text_or_null props.description) (
                      field "source" source (
                        field "normalization" normalization (
                          field "previousHash" (text_or_null props.previous_hash) (
                            field "relatedEventId" (text_or_null props.related_event_id) (
                              field "parties" (Json.array (party_forms props.parties)) (
                                field "objects" (Json.array (object_forms props.objects)) (
                                  field "reason" (reason_form props.reason)
                                    (field "reporter" reporter end)))))))))))))))))
  where
    source : Json
    source = Json.object (
        field "system" (Json.text props.source.system)
          (field "reference" (Json.text props.source.reference) end))

    normalization : Json
    normalization = Json.object (
        field "version" (Json.text props.normalization.version)
          (field "workerId" (Json.text props.normalization.worker_id) end))

    reporter : Json
    reporter = Json.object (
        field "type" (Json.text (reporter_type_text props.reporter.reporter_type)) (
          field "id" (Json.text props.reporter.reporter_id)
            (field "channel" (Json.text props.reporter.channel) end)))

-- The private constructor, as `create` calls it.
abbrev pub event_of : CreateLedgerEventProps → Instant → String → LedgerEvent
event_of props recorded_at hash = record {
  id = props.id;
  event_type = props.event_type;
  economic_effect = props.economic_effect;
  occurred_at = props.occurred_at;
  recorded_at = recorded_at;
  source_at = props.source_at;
  due_at = props.due_at;
  amount = props.amount;
  description = props.description;
  source = props.source;
  normalization = props.normalization;
  hash = hash;
  previous_hash = props.previous_hash;
  command_id = props.command_id;
  related_event_id = props.related_event_id;
  parties = props.parties;
  objects = props.objects;
  reason = props.reason;
  reporter = props.reporter;
}

-- `LedgerEvent.validate`
unfoldable pub validate : CreateLedgerEventProps → Throws (Unit {0})
validate props = do
  validate_basic props
  validate_flow props
  validate_reason_rules props
  validate_semantic props

-- `LedgerEvent.create`
unfoldable pub create : (String → String) → Instant → CreateLedgerEventProps → Throws LedgerEvent
create sha256 now props = do
  validate props
  ok (event_of props now (generate_canonical sha256 (canonical_form props now)))
