-- ===== src/Application/Staging/Visible.antt =====
-- The descriptions of failures as `RejectionReason` takes them
-- (ledger/src/core/application/services/StagingRecordValidator.ts).
use ledger_system.Prelude.{
  String, ◌≡◌, refl, Bool, true, false, List, [], ◌∷◌, All, All-++, Option, none, some, ℕ, ◌+◌,
  ◌==◌, string_eq, Bool-cases, inl, inr, not, includes, truthy,
}
use ledger_system.Prelude.Texts.{print}
use ledger_system.Prelude.Strings.{◌<>◌, is_blank, trim, trim_start, trim_end}
use ledger_system.Prelude.Strings.Blank.{IsVisible, append-IsVisible, is_blank-append}
use ledger_system.Domain.Entities.{LedgerEvent}
use ledger_system.Domain.Enums.{
  event_type_values, event_type_text, economic_effect_values, economic_effect_text,
  reporter_type_values, reporter_type_text, party_role_values, party_role_text, direction_values,
  direction_text, object_type_values, object_type_text, relation_values, relation_text,
  reason_type_values, reason_type_text, confidence_level_values, confidence_level_text,
}
use ledger_system.Application.Staging.{
  StagingRecord, StagingParty, StagingObject, StagingReason, RejectionType, ValidationFailure,
  fail_if, in_turn, fail_unless_value, missing_fields, required_fields, source_system_failures,
  has_reporter, party_at, object_at, role_failures, direction_failures, object_type_failures,
  relation_failures, reason_type_failures, confidence_failures, type_of_reporter, part_failures,
  party_failures, each_party, object_failures, each_object, reason_description_failures,
  validate_required_fields, validate_enum_fields, validate_amount, validate_parties,
  validate_objects, validate_reason, check_duplicate, validate,
}

-- The failures of a list, all with a description.
abbrev pub AllVisible : List ValidationFailure → Type 0
AllVisible = All (λ f. IsVisible f.description)

in_turn-AllVisible :
    (parts : List (List ValidationFailure)) → All AllVisible parts → AllVisible (in_turn parts)
in_turn-AllVisible [] h = tt
in_turn-AllVisible (p ∷ ps) (here, rest) =
    All-++ (λ f. IsVisible f.description) p (in_turn ps) here (in_turn-AllVisible ps rest)

fail_if-AllVisible :
    (b : Bool) (t : RejectionType) (d : String) → IsVisible d → AllVisible (fail_if b t d)
fail_if-AllVisible true t d h = (h, tt)
fail_if-AllVisible false t d h = tt

value-AllVisible :
    {A : Type 0} (values : List A) (text : A → String) (what : String) (value : Option String)
    → is_blank what ≡ false
    → AllVisible (fail_unless_value values text what value)
value-AllVisible values text what none h = tt
value-AllVisible values text what (some s) h = fail_if-AllVisible _ _ _ (append-IsVisible what _ h)

part-AllVisible :
    {A : Type 0} (values : List A) (text : A → String) (absent : RejectionType) (at what : String)
    (value : Option String)
    → is_blank at ≡ false
    → AllVisible (part_failures values text absent at what value)
part-AllVisible values text absent at what value h =
    in_turn-AllVisible
      (fail_if (not (truthy value)) absent (at <> " is missing " <> what)
        ∷ fail_unless_value values text (at <> " has invalid " <> what) value
        ∷ [])
      (
        fail_if-AllVisible _ _ _ (append-IsVisible at _ h),
        (value-AllVisible values text _ value (is_blank-append at _ h), tt),
      )

party_at-visible : (i : ℕ) → is_blank (party_at i) ≡ false
unfolding is_blank trim trim_start trim_end
party_at-visible i = is_blank-append "Party at index " (print i) refl

object_at-visible : (i : ℕ) → is_blank (object_at i) ≡ false
unfolding is_blank trim trim_start trim_end
object_at-visible i = is_blank-append "Object at index " (print i) refl

missing_fields-AllVisible :
    (fields : List (String × Option String)) → AllVisible (missing_fields fields)
unfolding missing_fields is_blank trim trim_start trim_end
missing_fields-AllVisible [] = tt
missing_fields-AllVisible ((name, value) ∷ fields) =
    All-++ _ (fail_if _ _ _) (missing_fields fields)
      (fail_if-AllVisible (not (truthy value)) RejectionType.invalid_schema
        ("Missing required field: " <> name)
        (append-IsVisible "Missing required field: " name refl))
      (missing_fields-AllVisible fields)

source_system-AllVisible :
    (known : List String) (value : Option String) → AllVisible (source_system_failures known value)
unfolding source_system_failures is_blank trim trim_start trim_end
source_system-AllVisible known none = (record { visible = refl }, tt)
source_system-AllVisible known (some s) = elim (Bool-cases (s == "")) [
  | inl empty ↦ rw empty (record { visible = refl }, tt)
  | inr full ↦ rw full (
      fail_if-AllVisible (not (includes known s)) RejectionType.invalid_schema _
        (append-IsVisible "Unknown source system: \"" (s <> "\"") refl))
]

each_party-AllVisible : (i : ℕ) (ps : List StagingParty) → AllVisible (each_party i ps)
unfolding each_party
each_party-AllVisible i [] = tt
each_party-AllVisible i (p ∷ ps) =
    let at = party_at-visible i in
    All-++ _ (party_failures i p) (each_party (i + 1) ps)
      (in_turn-AllVisible
        (fail_if (not (truthy p.party_id)) RejectionType.missing_party
            (party_at i <> " is missing partyId")
          ∷ role_failures i p
          ∷ direction_failures i p
          ∷ [])
        (
          fail_if-AllVisible _ _ _ (append-IsVisible (party_at i) " is missing partyId" at),
          (
            part-AllVisible party_role_values party_role_text _ (party_at i) "role" p.role at,
            (
              part-AllVisible direction_values direction_text _ (party_at i) "direction" p.direction
                  at,
              tt,
            ),
          ),
        ))
      (each_party-AllVisible (i + 1) ps)

each_object-AllVisible : (i : ℕ) (os : List StagingObject) → AllVisible (each_object i os)
unfolding each_object
each_object-AllVisible i [] = tt
each_object-AllVisible i (o ∷ os) =
    let at = object_at-visible i in
    All-++ _ (object_failures i o) (each_object (i + 1) os)
      (in_turn-AllVisible
        (fail_if (not (truthy o.object_id)) RejectionType.invalid_schema
            (object_at i <> " is missing objectId")
          ∷ object_type_failures i o
          ∷ relation_failures i o
          ∷ [])
        (
          fail_if-AllVisible _ _ _ (append-IsVisible (object_at i) " is missing objectId" at),
          (
            part-AllVisible object_type_values object_type_text _ (object_at i) "objectType"
                o.object_type at,
            (
              part-AllVisible relation_values relation_text _ (object_at i) "relation" o.relation
                  at,
              tt,
            ),
          ),
        ))
      (each_object-AllVisible (i + 1) os)

reason-AllVisible : (reason : Option StagingReason) → AllVisible (validate_reason reason)
unfolding validate_reason reason_description_failures is_blank trim trim_start trim_end
reason-AllVisible none = tt
reason-AllVisible (some r) =
    in_turn-AllVisible
      (reason_type_failures r ∷ reason_description_failures r ∷ confidence_failures r ∷ [])
      (
        in_turn-AllVisible
            (fail_if (not (truthy r.type)) RejectionType.invalid_schema "Reason is missing type"
              ∷ fail_unless_value reason_type_values reason_type_text "Invalid reason type" r.type
              ∷ [])
            (
              fail_if-AllVisible _ _ _ (record { visible = refl }),
              (
                value-AllVisible reason_type_values reason_type_text "Invalid reason type" r.type
                    refl,
                tt,
              ),
            ),
        (
          fail_if-AllVisible _ _ _ (record { visible = refl }),
          (
            in_turn-AllVisible
                (fail_if (not (truthy r.confidence)) RejectionType.invalid_schema
                    "Reason is missing confidence level"
                  ∷ fail_unless_value confidence_level_values confidence_level_text
                      "Invalid confidence level" r.confidence
                  ∷ [])
                (
                  fail_if-AllVisible _ _ _ (record { visible = refl }),
                  (
                    value-AllVisible confidence_level_values confidence_level_text
                        "Invalid confidence level" r.confidence refl,
                    tt,
                  ),
                ),
            tt,
          ),
        ),
      )

required-AllVisible :
    (known : List String) (r : StagingRecord) → AllVisible (validate_required_fields known r)
unfolding validate_required_fields is_blank trim trim_start trim_end
required-AllVisible known r =
    in_turn-AllVisible
      (missing_fields (required_fields r)
        ∷ source_system_failures known r.source_system
        ∷ fail_if (not (has_reporter r.reporter)) RejectionType.invalid_schema
            "Missing required reporter fields (reporterType, reporterId, channel)"
        ∷ [])
      (
        missing_fields-AllVisible (required_fields r),
        (
          source_system-AllVisible known r.source_system,
          (fail_if-AllVisible _ _ _ (record { visible = refl }), tt),
        ),
      )

enums-AllVisible : (r : StagingRecord) → AllVisible (validate_enum_fields r)
unfolding validate_enum_fields is_blank trim trim_start trim_end
enums-AllVisible r =
    in_turn-AllVisible
      (fail_unless_value event_type_values event_type_text "Invalid eventType" r.event_type
        ∷ fail_unless_value economic_effect_values economic_effect_text "Invalid economicEffect"
            r.economic_effect
        ∷ fail_unless_value reporter_type_values reporter_type_text "Invalid reporterType"
            (type_of_reporter r.reporter)
        ∷ [])
      (
        value-AllVisible event_type_values event_type_text "Invalid eventType" r.event_type refl,
        (
          value-AllVisible economic_effect_values economic_effect_text "Invalid economicEffect"
              r.economic_effect refl,
          (
            value-AllVisible reporter_type_values reporter_type_text "Invalid reporterType"
                (type_of_reporter r.reporter) refl,
            tt,
          ),
        ),
      )

amount-AllVisible : (value : Option String) → AllVisible (validate_amount value)
unfolding validate_amount is_blank trim trim_start trim_end
amount-AllVisible none = tt
amount-AllVisible (some s) =
    fail_if-AllVisible _ _ _ (append-IsVisible "Invalid amount format: \"" _ refl)

parties-AllVisible : (parties : Option (List StagingParty)) → AllVisible (validate_parties parties)
unfolding validate_parties is_blank trim trim_start trim_end
parties-AllVisible none = (record { visible = refl }, tt)
parties-AllVisible (some []) = (record { visible = refl }, tt)
parties-AllVisible (some (p ∷ ps)) = each_party-AllVisible 0 (p ∷ ps)

objects-AllVisible : (objects : Option (List StagingObject)) → AllVisible (validate_objects objects)
unfolding validate_objects is_blank trim trim_start trim_end
objects-AllVisible none = (record { visible = refl }, tt)
objects-AllVisible (some []) = (record { visible = refl }, tt)
objects-AllVisible (some (o ∷ os)) = each_object-AllVisible 0 (o ∷ os)

duplicate-AllVisible :
    (reference : Option String) (book : List LedgerEvent)
    → AllVisible (check_duplicate reference book)
unfolding check_duplicate is_blank trim trim_start trim_end
duplicate-AllVisible reference book =
    fail_if-AllVisible _ _ _ (append-IsVisible "Duplicate source reference: \"" _ refl)

-- Every failure of the validator has a description that a rejection accepts.
pub validate-AllVisible :
    (known : List String) (book : List LedgerEvent) (r : StagingRecord)
    → AllVisible (validate known book r)
unfolding validate
validate-AllVisible known book r =
    in_turn-AllVisible
      (validate_required_fields known r
        ∷ validate_enum_fields r
        ∷ validate_amount r.amount
        ∷ validate_parties r.parties
        ∷ validate_objects r.objects
        ∷ validate_reason r.reason
        ∷ check_duplicate r.source_reference book
        ∷ [])
      (
        required-AllVisible known r,
        (
          enums-AllVisible r,
          (
            amount-AllVisible r.amount,
            (
              parties-AllVisible r.parties,
              (
                objects-AllVisible r.objects,
                (reason-AllVisible r.reason, (duplicate-AllVisible r.source_reference book, tt)),
              ),
            ),
          ),
        ),
      )
