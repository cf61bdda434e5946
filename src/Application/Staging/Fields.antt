-- ===== src/Application/Staging/Fields.antt =====
-- The fields of a record without failures, one after the other
-- (ledger/src/core/application/services/StagingRecordValidator.ts).
use ledger_system.Prelude.{
  String, true, false, not, Option, none, some, List, [], ◌∷◌, ◌++◌, ◌==◌, string_eq, truthy,
  includes, ◌≡◌, ◌≢◌, refl, ok, arith, Bool-cases, inl, inr, All, All2,
}
use ledger_system.Prelude.Texts.{codes}
use ledger_system.Prelude.Strings.{◌<>◌, is_blank}
use ledger_system.Domain.Money.{is_decimal}
use ledger_system.Domain.Enums.{
  reporter_type_values, reporter_type_text, reason_type_values, reason_type_text,
  confidence_level_values, confidence_level_text,
}
use ledger_system.Domain.Entities.{LedgerEvent, LedgerEventObject, EventReason}
use ledger_system.Infra.Memory.{exists_by_source_reference}
use ledger_system.Application.Recording.{CommandParty, CommandReporter}
use ledger_system.Application.Staging.{
  StagingParty, StagingObject, StagingReason, StagingReporter, RejectionType, fail_if,
  fail_unless_value, missing_fields, source_system_failures, has_reporter, reason_type_failures,
  reason_description_failures, confidence_failures, validate_amount, validate_parties,
  validate_objects, validate_reason, check_duplicate, type_of_reporter, or_empty,
}
use ledger_system.Application.Staging.Command.{
  cast_part, to_party, to_object, map_all, to_reason, to_reporter, or_false,
}
use ledger_system.Application.Staging.Parts.{
  ++-eq-[], in_turn-eq-[], fail_if-eq-[], present, cast_part-value, SameParty, SameObject,
  each_party-All2, each_object-All2,
}

pub missing_fields-All :
    (fields : List (String × Option String))
    → missing_fields fields ≡ []
    → All (λ f. truthy f.1 ≡ true) fields
unfolding missing_fields
missing_fields-All [] h = tt
missing_fields-All ((name, value) ∷ fields) h =
    let (here, later) =
      ++-eq-[]
        (fail_if (not (truthy value)) RejectionType.invalid_schema
          ("Missing required field: " <> name))
        (missing_fields fields) h in
    let known = fail_if-eq-[] _ _ _ here in (ground (arith, known), missing_fields-All fields later)

pub source_system-known :
    (known : List String) (value : Option String)
    → source_system_failures known value ≡ []
    → (s : String) × (value ≡ some s) × (includes known s ≡ true)
unfolding source_system_failures
source_system-known known none h = cc h
source_system-known known (some s) h = elim (Bool-cases (s == "")) [
  | inl empty ↦ cc (rw empty at h)
  | inr full ↦ let fine = fail_if-eq-[] _ _ _ (rw full at h) in (s, refl, ground (arith, fine))
]

-- The reason of a command says what the staged one says; without a word on a follow-up it asks for
-- none.
abbrev pub SameReason : Option StagingReason → Option EventReason → Type 0
SameReason none none = Unit
SameReason (some r) (some c) =
    (r.type ≡ some (reason_type_text c.type))
    × (r.description ≡ some c.description)
    × (r.confidence ≡ some (confidence_level_text c.confidence))
    × (c.requires_followup ≡ or_false r.requires_followup)
SameReason _ _ = ⊥

given_value :
    {A : Type 0} (values : List A) (text : A → String) (what absent : String)
    (value : Option String)
    → fail_if (not (truthy value)) RejectionType.invalid_schema absent
        ++ (fail_unless_value values text what value ++ [])
      ≡ []
    → (v : A) × (cast_part values text value ≡ ok v) × (value ≡ some (text v))
given_value values text what absent value h =
    let (here, (fine, _)) =
      in_turn-eq-[]
        (fail_if (not (truthy value)) RejectionType.invalid_schema absent
          ∷ fail_unless_value values text what value
          ∷ [])
        h in
    let known : not (truthy value) ≡ false =
      fail_if-eq-[] (not (truthy value)) RejectionType.invalid_schema absent here in
    cast_part-value values text what value (ground (arith, known)) fine

description_given :
    (d : Option String) → is_blank (or_empty d) ≡ false → (s : String) × (d ≡ some s)
unfolding is_blank
description_given none h = cc h
description_given (some s) h = (s, refl)

pub reason_fits :
    (r : Option StagingReason)
    → validate_reason r ≡ []
    → (c : Option EventReason) × (to_reason r ≡ ok c) × SameReason r c
unfolding validate_reason reason_description_failures is_blank
reason_fits none h = (none, refl, tt)
reason_fits (some r) h =
    let (no_type, (no_description, (no_confidence, _))) =
      in_turn-eq-[]
        (reason_type_failures r ∷ reason_description_failures r ∷ confidence_failures r ∷ []) h in
    let (type, cast_type, is_type) =
      given_value reason_type_values reason_type_text "Invalid reason type" "Reason is missing type"
        r.type no_type in
    let (description, is_description) =
      description_given r.description (fail_if-eq-[] _ _ _ no_description) in
    let (confidence, cast_confidence, is_confidence) =
      given_value confidence_level_values confidence_level_text "Invalid confidence level"
        "Reason is missing confidence level" r.confidence no_confidence in
    (
      some (record {
        type = type;
        description = description;
        confidence = confidence;
        requires_followup = or_false r.requires_followup;
      }),
      rw (cast_type, is_description, cast_confidence) refl,
      (is_type, is_description, is_confidence, refl),
    )

-- The reporter of a command is the staged one.
abbrev pub SameReporter : StagingReporter → CommandReporter → Type 0
SameReporter r c =
    (r.reporter_type ≡ some (reporter_type_text c.reporter_type))
    × (r.reporter_id ≡ some c.reporter_id)
    × (r.reporter_name ≡ c.reporter_name)
    × (r.channel ≡ some c.channel)

pub reporter_fits :
    (r : Option StagingReporter)
    → has_reporter r ≡ true
    → fail_unless_value reporter_type_values reporter_type_text "Invalid reporterType"
        (type_of_reporter r)
      ≡ []
    → (s : StagingReporter) × (c : CommandReporter) × (r ≡ some s)
      × (to_reporter s ≡ ok c)
      × SameReporter s c
unfolding has_reporter
reporter_fits none h fine = cc h
reporter_fits (some r) h fine =
    let (id, is_id) = present r.reporter_id (ground (arith, h)) in
    let (channel, is_channel) = present r.channel (ground (arith, h)) in
    let (type, cast_type, is_type) =
      cast_part-value reporter_type_values reporter_type_text "Invalid reporterType" r.reporter_type
        (ground (arith, h)) fine in
    (
      r,
      record {
        reporter_type = type;
        reporter_id = id;
        reporter_name = r.reporter_name;
        channel = channel;
      },
      refl,
      rw (cast_type, is_id, is_channel) refl,
      (is_type, is_id, refl, is_channel),
    )

All2-cons :
    {A B : Type 0} (R : A → B → Type 0) (x : A) (xs : List A) (ys : List B)
    → All2 R (x ∷ xs) ys
    → ys ≢ []
All2-cons R x xs [] h = absurd h
All2-cons R x xs (y ∷ ys) h = λ e. cc e

pub amount_fits :
    (value : Option String)
    → truthy value ≡ true
    → validate_amount value ≡ []
    → (s : String) × (value ≡ some s) × (is_decimal (codes s) ≡ true)
unfolding validate_amount
amount_fits none given_it h = cc given_it
amount_fits (some s) given_it h =
    let checked = fail_if-eq-[] _ _ _ h in (s, refl, ground (arith, rw given_it at checked))

pub reference_fits :
    (value : Option String) (book : List LedgerEvent)
    → truthy value ≡ true
    → check_duplicate value book ≡ []
    → (s : String) × (value ≡ some s) × (exists_by_source_reference s book ≡ false)
unfolding check_duplicate
reference_fits none book given_it h = cc given_it
reference_fits (some s) book given_it h =
    let checked = fail_if-eq-[] _ _ _ h in (s, refl, ground (arith, rw given_it at checked))

pub parties_fit :
    (parties : Option (List StagingParty))
    → validate_parties parties ≡ []
    → (ps : List StagingParty) × (cs : List CommandParty) × (parties ≡ some ps)
      × (map_all to_party ps ≡ ok cs)
      × All2 SameParty ps cs
      × (cs ≢ [])
unfolding validate_parties
parties_fit none h = cc h
parties_fit (some []) h = cc h
parties_fit (some (p ∷ ps)) h =
    let (cs, made, same) = each_party-All2 0 (p ∷ ps) h in
    (p ∷ ps, cs, refl, made, same, All2-cons SameParty p ps cs same)

pub objects_fit :
    (objects : Option (List StagingObject))
    → validate_objects objects ≡ []
    → (os : List StagingObject) × (cs : List LedgerEventObject) × (objects ≡ some os)
      × (map_all to_object os ≡ ok cs)
      × All2 SameObject os cs
      × (cs ≢ [])
unfolding validate_objects
objects_fit none h = cc h
objects_fit (some []) h = cc h
objects_fit (some (o ∷ os)) h =
    let (cs, made, same) = each_object-All2 0 (o ∷ os) h in
    (o ∷ os, cs, refl, made, same, All2-cons SameObject o os cs same)
