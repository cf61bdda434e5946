-- ===== src/Application/Staging/Parts.antt =====
-- The casts behind the validator
-- (ledger/src/core/application/services/StagingRecordValidator.ts, ledger/src/infra/jobs/StagingPostingJob.ts):
-- a part of a record without failures fits its type.
use ledger_system.Prelude.{
  ℕ, ◌+◌, String, Bool, true, false, not, Option, none, some, List, [], ◌∷◌, ◌++◌, ◌==◌, string_eq,
  truthy, any, find, ◌≡◌, refl, sym, ap, ok, arith, Bool-cases, All2, inl, inr, All, ==_true,
}
use ledger_system.Prelude.Strings.{◌<>◌}
use ledger_system.Domain.Enums.{
  party_role_values, party_role_text, direction_values, direction_text, object_type_values,
  object_type_text, relation_values, relation_text,
}
use ledger_system.Domain.Entities.{LedgerEventObject}
use ledger_system.Application.Recording.{CommandParty}
use ledger_system.Application.Staging.{
  StagingParty, StagingObject, RejectionType, ValidationFailure, fail_if, in_turn,
  fail_unless_value, party_at, object_at, role_failures, direction_failures, object_type_failures,
  relation_failures, part_failures, party_failures, each_party, object_failures, each_object,
}
use ledger_system.Application.Staging.Command.{given, cast_part, to_party, to_object, map_all}

pub ++-eq-[] {ℓ} : {A : Type ℓ} (xs ys : List A) → xs ++ ys ≡ [] → (xs ≡ []) × (ys ≡ [])
++-eq-[] [] ys h = (refl, h)
++-eq-[] (x ∷ xs) ys h = cc h

pub fail_if-eq-[] : (b : Bool) (t : RejectionType) (d : String) → fail_if b t d ≡ [] → b ≡ false
fail_if-eq-[] true t d h = cc h
fail_if-eq-[] false t d h = refl

pub present : (value : Option String) → truthy value ≡ true → (s : String) × (value ≡ some s)
present none h = cc h
present (some s) h = (s, refl)

pub in_turn-eq-[] :
    (parts : List (List ValidationFailure)) → in_turn parts ≡ [] → All (λ p. p ≡ []) parts
in_turn-eq-[] [] h = tt
in_turn-eq-[] (p ∷ ps) h =
    let (here, later) = ++-eq-[] p (in_turn ps) h in (here, in_turn-eq-[] ps later)

pub given_lem :
    (value : Option String) (t : RejectionType) (d : String)
    → fail_if (not (truthy value)) t d ≡ []
    → (s : String) × (value ≡ some s)
given_lem value t d h =
    let known : not (truthy value) ≡ false = fail_if-eq-[] (not (truthy value)) t d h in
    present value (ground (arith, known))

-- A search for a value of an enum.
find-any :
    {A : Type 0} (values : List A) (text : A → String) (s : String)
    → any (λ v. text v == s) values ≡ true
    → (v : A) × (find (λ v. text v == s) values ≡ some v) × (text v ≡ s)
find-any [] text s h = cc h
find-any (v ∷ vs) text s h = elim (Bool-cases (text v == s)) [
  | inl hit ↦ (v, rw hit refl, ==_true (text v) s hit)
  | inr miss ↦ let (w, found, same) = find-any vs text s (rw miss at h) in (w, rw miss found, same)
]

-- A text without failures is a value of the enum.
pub cast_part-value :
    {A : Type 0} (values : List A) (text : A → String) (what : String) (value : Option String)
    → truthy value ≡ true
    → fail_unless_value values text what value ≡ []
    → (v : A) × (cast_part values text value ≡ ok v) × (value ≡ some (text v))
cast_part-value values text what none h fine = cc h
cast_part-value values text what (some s) h fine =
    let checked = fail_if-eq-[] _ _ _ fine in
    let known : any (λ v. text v == s) values ≡ true = ground (arith, rw h at checked) in
    let (v, found, same) = find-any values text s known in
    (v, ap given found, ap (λ t. some t) (sym same))

part_failures-value :
    {A : Type 0} (values : List A) (text : A → String) (absent : RejectionType) (at what : String)
    (value : Option String)
    → part_failures values text absent at what value ≡ []
    → (v : A) × (cast_part values text value ≡ ok v) × (value ≡ some (text v))
part_failures-value values text absent at what value h =
    let (here, (fine, _)) =
      in_turn-eq-[]
        (fail_if (not (truthy value)) absent (at <> " is missing " <> what)
          ∷ fail_unless_value values text (at <> " has invalid " <> what) value
          ∷ [])
        h in
    let missing = fail_if-eq-[] (not (truthy value)) absent (at <> " is missing " <> what) here in
    cast_part-value values text (at <> " has invalid " <> what) value (ground (arith, missing)) fine

-- The party of a command says what the staged one says.
abbrev pub SameParty : StagingParty → CommandParty → Type 0
SameParty p c =
    (p.party_id ≡ some c.party_id)
    × (p.role ≡ some (party_role_text c.role))
    × (p.direction ≡ some (direction_text c.direction))
    × (p.amount ≡ c.amount)

abbrev pub SameObject : StagingObject → LedgerEventObject → Type 0
SameObject o c =
    (o.object_id ≡ some c.object_id)
    × (o.object_type ≡ some (object_type_text c.object_type))
    × (o.relation ≡ some (relation_text c.relation))

to_party-SameParty :
    (i : ℕ) (p : StagingParty)
    → party_failures i p ≡ []
    → (c : CommandParty) × (to_party p ≡ ok c) × SameParty p c
to_party-SameParty i p h =
    let (no_id, (no_role, (no_direction, _))) =
      in_turn-eq-[]
        (fail_if (not (truthy p.party_id)) RejectionType.missing_party
            (party_at i <> " is missing partyId")
          ∷ role_failures i p
          ∷ direction_failures i p
          ∷ [])
        h in
    let (id, is_id) =
      given_lem p.party_id RejectionType.missing_party (party_at i <> " is missing partyId")
        no_id in
    let (role, cast_role, is_role) =
      part_failures-value party_role_values party_role_text RejectionType.missing_party (party_at i)
        "role" p.role no_role in
    let (direction, cast_direction, is_direction) =
      part_failures-value direction_values direction_text RejectionType.missing_party (party_at i)
        "direction" p.direction no_direction in
    (
      record { party_id = id; role = role; direction = direction; amount = p.amount },
      rw (is_id, cast_role, cast_direction) refl,
      (is_id, is_role, is_direction, refl),
    )

to_object-SameObject :
    (i : ℕ) (o : StagingObject)
    → object_failures i o ≡ []
    → (c : LedgerEventObject) × (to_object o ≡ ok c) × SameObject o c
to_object-SameObject i o h =
    let (no_id, (no_type, (no_relation, _))) =
      in_turn-eq-[]
        (fail_if (not (truthy o.object_id)) RejectionType.invalid_schema
            (object_at i <> " is missing objectId")
          ∷ object_type_failures i o
          ∷ relation_failures i o
          ∷ [])
        h in
    let (id, is_id) =
      given_lem o.object_id RejectionType.invalid_schema (object_at i <> " is missing objectId")
        no_id in
    let (type, cast_type, is_type) =
      part_failures-value object_type_values object_type_text RejectionType.invalid_schema
        (object_at i) "objectType" o.object_type no_type in
    let (relation, cast_relation, is_relation) =
      part_failures-value relation_values relation_text RejectionType.invalid_schema (object_at i)
        "relation" o.relation no_relation in
    (
      record { object_id = id; object_type = type; relation = relation },
      rw (is_id, cast_type, cast_relation) refl,
      (is_id, is_type, is_relation),
    )

pub each_party-All2 :
    (i : ℕ) (ps : List StagingParty)
    → each_party i ps ≡ []
    → (cs : List CommandParty) × (map_all to_party ps ≡ ok cs) × All2 SameParty ps cs
unfolding each_party map_all
each_party-All2 i [] h = ([], refl, tt)
each_party-All2 i (p ∷ ps) h =
    let (here, later) = ++-eq-[] (party_failures i p) (each_party (i + 1) ps) h in
    let (c, made, same) = to_party-SameParty i p here in
    let (cs, rest, all_same) = each_party-All2 (i + 1) ps later in
    (c ∷ cs, rw (made, rest) refl, (same, all_same))

pub each_object-All2 :
    (i : ℕ) (os : List StagingObject)
    → each_object i os ≡ []
    → (cs : List LedgerEventObject) × (map_all to_object os ≡ ok cs) × All2 SameObject os cs
unfolding each_object map_all
each_object-All2 i [] h = ([], refl, tt)
each_object-All2 i (o ∷ os) h =
    let (here, later) = ++-eq-[] (object_failures i o) (each_object (i + 1) os) h in
    let (c, made, same) = to_object-SameObject i o here in
    let (cs, rest, all_same) = each_object-All2 (i + 1) os later in
    (c ∷ cs, rw (made, rest) refl, (same, all_same))
