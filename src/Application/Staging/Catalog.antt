-- ===== src/Application/Staging/Catalog.antt =====
-- The contract of rejections (ledger/src/core/application/services/RejectionCatalog.ts): what a
-- client is told of a failure of the validator and of an error of the ledger.
pub mod Display
use ledger_system.Prelude.{
  String, Bool, true, false, not, ◌&&◌, Option, none, some, List, [], ◌∷◌, ◌==◌, string_eq,
  if◌then◌else◌, includes, is_some,
}
use ledger_system.Prelude.Texts.{codes}
use ledger_system.Prelude.Strings.{
  trim_start, trim_end, mentions, search_for, behind, after_prefix, word, behind_run, one_line,
  is_space, is_found,
}
use ledger_system.Application.Staging.Shape.{RejectionType, ValidationFailure}

pub data RejectionCategory : Type 0 where
  input lineage duplicate internal : RejectionCategory

pub data RejectionCode : Type 0 where
  amount_invalid party_missing field_missing duplicate_entry origin_not_found origin_wrong_type
        lineage_required over_settlement tuple_invalid :
      RejectionCode

-- `hint` is the limit, the one hint that is ever given.
pub record RejectionDetail : Type 0 where
  pub code : RejectionCode
  pub category : RejectionCategory
  pub field : Option String
  pub detail : String
  pub hint : Option String

abbrev pub user_fields : List String
user_fields = "amount" ∷ "currency" ∷ "occurredAt" ∷ []

-- `detail(code, category, field, text)`
abbrev pub tell : RejectionCode → RejectionCategory → Option String → String → RejectionDetail
tell code category field text = record {
  code = code;
  category = category;
  field = field;
  detail = text;
  hint = none;
}

abbrev pub internal_detail : RejectionDetail
internal_detail =
    tell RejectionCode.tuple_invalid RejectionCategory.internal none
      "This operation could not be recorded automatically and was routed for review."

abbrev pub amount_detail : RejectionDetail
amount_detail =
    tell RejectionCode.amount_invalid RejectionCategory.input (some "amount")
      "The amount is invalid."

abbrev pub duplicate_detail : RejectionDetail
duplicate_detail =
    tell RejectionCode.duplicate_entry RejectionCategory.duplicate none
      "This entry was already recorded."

-- `/^Missing required field:\s*(\w+)/`
unfoldable pub missing_field : String → Option String
unfolding after_prefix trim_start word
missing_field description = elim (after_prefix (codes "Missing required field:") description) [
  | none ↦ none
  | some rest ↦ if word (trim_start rest) == "" then none else some (word (trim_start rest))
]

abbrev pub schema_detail : Option String → RejectionDetail
schema_detail none = internal_detail
schema_detail (some field) =
    if includes user_fields field
    then tell RejectionCode.field_missing RejectionCategory.input (some field)
        "A required field is missing."
    else internal_detail

-- `classifyStagingFailure`
unfoldable pub classify_staging_failure : ValidationFailure → RejectionDetail
unfolding missing_field mentions
classify_staging_failure f = elim (f.type) [
  | RejectionType.invalid_amount ↦ amount_detail
  | RejectionType.duplicate_event ↦ duplicate_detail
  | RejectionType.missing_party ↦
      if mentions "partyId" f.description
      then tell RejectionCode.party_missing RejectionCategory.input (some "parties")
          "A required party is missing."
      else internal_detail
  | RejectionType.invalid_schema ↦ schema_detail (missing_field f.description)
  | RejectionType.policy_violation ↦ internal_detail
]

-- What `(.+?)` captures of a text of spaces alone: the last one that ends no line.
last_space : String → Option String
last_space String.[] = none
last_space (String.◌∷◌ c s) = elim (last_space s) [
  | some later ↦ some later
  | none ↦ if one_line (String.◌∷◌ c String.[]) then some (String.◌∷◌ c String.[]) else none
]

-- `\s*(.+?)\s*$`
unfoldable pub capture_line : String → Option String
unfolding last_space one_line
capture_line s =
    if trim_start s == ""
    then last_space s
    else if one_line (trim_end (trim_start s))
    then some (trim_end (trim_start s))
    else none

-- `\S+ is` and the capture behind it.
capture_limit : String → Option String
capture_limit s = elim (behind_run s == s) [
  | true ↦ none
  | false ↦ elim (behind (codes " is") (behind_run s)) [
    | none ↦ none
    | some rest ↦ capture_line rest
  ]
]

-- `message.match(/outstanding balance of \S+ is\s*(.+?)\s*$/i)?.[1]`, at the first place that matches.
unfoldable pub limit_of : String → Option String
unfolding capture_limit capture_line behind behind_run trim_start trim_end
limit_of String.[] = none
limit_of (String.◌∷◌ c s) =
    let later = limit_of s in
    elim (behind (codes "outstanding balance of ") (String.◌∷◌ c s)) [
      | none ↦ later
      | some rest ↦ elim (capture_limit rest) [ none ↦ later | some limit ↦ some limit ]
    ]

-- `classifyError`
unfoldable pub classify_error : String → RejectionDetail
unfolding mentions limit_of
classify_error message =
    if mentions "Duplicate source reference" message
    then duplicate_detail
    else if mentions "Origin event not found" message
    then tell RejectionCode.origin_not_found RejectionCategory.lineage (some "relatedEventId")
        "The referenced originating entry could not be found."
    else if mentions "must point to a" message
    then tell RejectionCode.origin_wrong_type RejectionCategory.lineage (some "relatedEventId")
        "The referenced originating entry is not the expected kind."
    else if mentions "requires relatedEventId" message
    then tell RejectionCode.lineage_required RejectionCategory.lineage (some "relatedEventId")
        "This operation must reference an originating entry."
    else if mentions "already been retracted" message
    then duplicate_detail
    else if mentions "Over-settlement" message
    then record (tell RejectionCode.over_settlement RejectionCategory.input (some "amount")
        "The amount exceeds the outstanding balance.") { hint = limit_of message }
    else if mentions "amount cannot be zero" message
    then amount_detail
    else internal_detail
