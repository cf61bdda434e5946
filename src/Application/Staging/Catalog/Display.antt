-- ===== src/Application/Staging/Catalog/Display.antt =====
-- What the contract of rejections shows (ledger/src/core/application/services/RejectionCatalog.ts).
use ledger_system.Prelude.{
  String, ◌≡◌, inl, inr, refl, true, false, Option, none, some, List, [], ◌∷◌, string_eq, includes,
  Bool-cases, arith, Bool, if◌then◌else◌,
}
use ledger_system.Prelude.Strings.{mentions}
use ledger_system.Application.Staging.Shape.{RejectionType, ValidationFailure}
use ledger_system.Application.Staging.Catalog.{
  RejectionCategory, RejectionCode, RejectionDetail, user_fields, classify_staging_failure,
  missing_field, classify_error, limit_of, schema_detail, internal_detail, amount_detail,
  duplicate_detail, tell,
}

-- The texts that a client may see.
abbrev shown_texts : List String
shown_texts =
    "The amount is invalid." ∷ "This entry was already recorded." ∷ "A required party is missing."
    ∷ "A required field is missing." ∷ "The referenced originating entry could not be found."
    ∷ "The referenced originating entry is not the expected kind."
    ∷ "This operation must reference an originating entry."
    ∷ "The amount exceeds the outstanding balance."
    ∷ "This operation could not be recorded automatically and was routed for review." ∷ []

-- The fields that a rejection of an input may name.
abbrev input_fields : List String
input_fields = "parties" ∷ user_fields

-- What belongs to each category.
pub IsDisplaySafe : RejectionDetail → Type 0
IsDisplaySafe d = (includes shown_texts d.detail ≡ true) × (elim d.category [
  | RejectionCategory.input ↦ (f : String) × (d.field ≡ some f) × (includes input_fields f ≡ true)
  | RejectionCategory.lineage ↦ (d.field ≡ some "relatedEventId") × (d.hint ≡ none)
  | RejectionCategory.duplicate ↦ (d.field ≡ none) × (d.hint ≡ none)
  | RejectionCategory.internal ↦ d ≡ internal_detail
])

if-IsDisplaySafe :
    (b : Bool) (d e : RejectionDetail)
    → IsDisplaySafe d
    → IsDisplaySafe e
    → IsDisplaySafe (if b then d else e)
if-IsDisplaySafe true d e h k = h
if-IsDisplaySafe false d e h k = k

amount-IsDisplaySafe : IsDisplaySafe amount_detail
unfolding IsDisplaySafe
amount-IsDisplaySafe = (refl, ("amount", refl, refl))

duplicate-IsDisplaySafe : IsDisplaySafe duplicate_detail
unfolding IsDisplaySafe
duplicate-IsDisplaySafe = (refl, (refl, refl))

internal-IsDisplaySafe : IsDisplaySafe internal_detail
unfolding IsDisplaySafe
internal-IsDisplaySafe = (refl, refl)

lineage-IsDisplaySafe :
    (code : RejectionCode) (text : String)
    → includes shown_texts text ≡ true
    → IsDisplaySafe (tell code RejectionCategory.lineage (some "relatedEventId") text)
unfolding IsDisplaySafe
lineage-IsDisplaySafe code text shown = (shown, (refl, refl))

input-IsDisplaySafe :
    (code : RejectionCode) (field text : String) (hint : Option String)
    → includes input_fields field ≡ true
    → includes shown_texts text ≡ true
    → IsDisplaySafe (record (tell code RejectionCategory.input (some field) text) { hint = hint })
unfolding IsDisplaySafe
input-IsDisplaySafe code field text hint known shown = (shown, (field, refl, known))

schema-IsDisplaySafe : (field : Option String) → IsDisplaySafe (schema_detail field)
schema-IsDisplaySafe none = internal-IsDisplaySafe
schema-IsDisplaySafe (some field) = elim (Bool-cases (includes user_fields field)) [
  | inl known ↦ rw known (
      input-IsDisplaySafe RejectionCode.field_missing field "A required field is missing." none
        (ground (arith, known)) refl)
  | inr unknown ↦ rw unknown internal-IsDisplaySafe
]

classify_staging_failure-IsDisplaySafe :
    (type : RejectionType) (description : String)
    → IsDisplaySafe (classify_staging_failure (record { type = type; description = description }))
unfolding classify_staging_failure
classify_staging_failure-IsDisplaySafe RejectionType.invalid_amount d = amount-IsDisplaySafe
classify_staging_failure-IsDisplaySafe RejectionType.missing_party d =
    if-IsDisplaySafe (mentions "partyId" d) _ _
      (input-IsDisplaySafe RejectionCode.party_missing "parties" "A required party is missing." none
        refl refl)
      internal-IsDisplaySafe
classify_staging_failure-IsDisplaySafe RejectionType.duplicate_event d = duplicate-IsDisplaySafe
classify_staging_failure-IsDisplaySafe RejectionType.invalid_schema d =
    schema-IsDisplaySafe (missing_field d)
classify_staging_failure-IsDisplaySafe RejectionType.policy_violation d = internal-IsDisplaySafe

classify_error-IsDisplaySafe : (m : String) → IsDisplaySafe (classify_error m)
unfolding classify_error
classify_error-IsDisplaySafe m =
    if-IsDisplaySafe (mentions "Duplicate source reference" m) _ _ duplicate-IsDisplaySafe (
      if-IsDisplaySafe (mentions "Origin event not found" m) _ _
        (lineage-IsDisplaySafe RejectionCode.origin_not_found
          "The referenced originating entry could not be found." refl)
        (if-IsDisplaySafe (mentions "must point to a" m) _ _
          (lineage-IsDisplaySafe RejectionCode.origin_wrong_type
            "The referenced originating entry is not the expected kind." refl)
          (if-IsDisplaySafe (mentions "requires relatedEventId" m) _ _
            (lineage-IsDisplaySafe RejectionCode.lineage_required
              "This operation must reference an originating entry." refl)
            (if-IsDisplaySafe (mentions "already been retracted" m) _ _ duplicate-IsDisplaySafe (
              if-IsDisplaySafe (mentions "Over-settlement" m) _ _
                (input-IsDisplaySafe RejectionCode.over_settlement "amount"
                  "The amount exceeds the outstanding balance." (limit_of m) refl refl)
                (if-IsDisplaySafe (mentions "amount cannot be zero" m) _ _ amount-IsDisplaySafe
                  internal-IsDisplaySafe))))))

-- Whatever a failure of the validator or the message of an error says: the client gets one of
-- nine fixed texts, a rejection of an input names the parties or a field that the user answers, one of the
-- lineage names the related event, a duplicate names no field, and an internal rejection is always
-- the same and shows nothing of what went wrong.
pub classification-IsDisplaySafe :
    (f : ValidationFailure) (m : String)
    → IsDisplaySafe (classify_staging_failure f) × IsDisplaySafe (classify_error m)
classification-IsDisplaySafe f m =
    (classify_staging_failure-IsDisplaySafe f.type f.description, classify_error-IsDisplaySafe m)
