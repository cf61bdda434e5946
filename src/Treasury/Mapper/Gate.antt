-- ===== src/Treasury/Mapper/Gate.antt =====
-- The table of the treasury before the policy of the ledger
-- (treasury/src/core/application/services/CandidateMapper.ts,
-- ledger/src/core/domain/policies/InvariantPolicy.ts).
use ledger_system.Prelude.{
  String, Bool, true, false, ◌&&◌, Option, none, some, List, [], ◌∷◌, string_eq, map, all, is_some,
  if◌then◌else◌, ◌≡◌, refl, ok, err, ◌>>=◌, for_each,
}
use ledger_system.Prelude.Dict.{Dict}
use ledger_system.Domain.Errors.{Throws}
use ledger_system.Domain.Enums.{
  event_type_values, event_type_text, economic_effect_values, economic_effect_text,
  object_type_values, object_type_text, relation_values, relation_text, reason_type_values,
  reason_type_text, confidence_level_values, confidence_level_text, party_role_values,
  party_role_text, direction_values, direction_text, reporter_type_values, reporter_type_text,
}
use ledger_system.Domain.Entities.{CreateLedgerEventProps, LedgerEventObject, LedgerEventParty}
use ledger_system.Domain.Policy.{positional_objects, contextual_objects, validate_semantic}
use ledger_system.Domain.Contracts.{event_contracts}
use ledger_system.Domain.Matrices.{
  economic_effect_relation_matrix, object_nature_matrix, object_relation_matrix,
  reason_effect_matrix, reason_relation_matrix,
}
use ledger_system.Application.Staging.Command.{cast, map_all}
use ledger_system.Treasury.Mapper.{
  ScenarioMapping, Variants, TupleOverride, ObjectTemplate, ReasonSwap, Candidate, CandidateObject,
  CandidateParty, PartyTemplate, or_else, object_templates,
}
use ledger_system.Treasury.Mapper.Payments.{
  no_override, register_payment, register_payroll, register_infrastructure, register_service_fee,
  register_tax, register_penalty, register_incentive, register_advance, register_loan,
}
use ledger_system.Treasury.Mapper.Table.{
  mappings, register_waiver, register_commission_accrual, register_direct_payment,
  register_commission_received, register_advance_settlement, register_rectification,
  register_loan_repayment, register_obligation_recognition,
}

-- The role and the direction of a party.
pub record PartyTerms : Type 0 where
  pub role : String
  pub direction : String

-- What the ledger reads of a candidate as values of its enums, and what its policy reads beside, of a
-- candidate without a due date.
pub record Tuple : Type 0 where
  pub event_type : String
  pub economic_effect : String
  pub objects : List ObjectTemplate
  pub reason_type : String
  pub confidence : String
  pub followup : Bool
  pub linked : Bool
  pub parties : List PartyTerms
  pub reporter_type : String

abbrev pub template_of : CandidateObject → ObjectTemplate
template_of o = record { object_type = o.object_type; relation = o.relation }

abbrev pub terms_of : CandidateParty → PartyTerms
terms_of p = record { role = p.role; direction = p.direction }

abbrev pub terms_of_template : PartyTemplate → PartyTerms
terms_of_template p = record { role = p.role; direction = p.direction }

abbrev pub tuple_of : Candidate → Tuple
tuple_of c = record {
  event_type = c.event_type;
  economic_effect = c.economic_effect;
  objects = map template_of c.objects;
  reason_type = c.reason.type;
  confidence = c.reason.confidence;
  followup = c.reason.requires_followup;
  linked = is_some c.related_event_id;
  parties = map terms_of c.parties;
  reporter_type = c.reporter.reporter_type;
}

abbrev cast_object : ObjectTemplate → Throws LedgerEventObject
cast_object o = do
  object_type ← cast object_type_values object_type_text o.object_type
  relation ← cast relation_values relation_text o.relation
  ok (record { object_id = "o"; object_type = object_type; relation = relation })

abbrev cast_party : PartyTerms → Throws LedgerEventParty
cast_party p = do
  role ← cast party_role_values party_role_text p.role
  direction ← cast direction_values direction_text p.direction
  ok (record { party_id = "p"; role = role; direction = direction; amount = none })

-- An event of the tuple behind another event, as the policy of the ledger gets it.
pub event_of_tuple : Tuple → Throws CreateLedgerEventProps
event_of_tuple t = do
  event_type ← cast event_type_values event_type_text t.event_type
  economic_effect ← cast economic_effect_values economic_effect_text t.economic_effect
  objects ← map_all cast_object t.objects
  reason ← cast reason_type_values reason_type_text t.reason_type
  confidence ← cast confidence_level_values confidence_level_text t.confidence
  parties ← map_all cast_party t.parties
  reporter_type ← cast reporter_type_values reporter_type_text t.reporter_type
  ok (record {
    id = "e";
    event_type = event_type;
    economic_effect = economic_effect;
    occurred_at = 0;
    source_at = none;
    due_at = none;
    amount = record { units = 1; currency = "BRL" };
    description = none;
    source = record { system = "integration"; reference = "r" };
    normalization = record { version = "1.0"; worker_id = "w" };
    previous_hash = some "h";
    command_id = none;
    related_event_id = if t.linked then some "e0" else none;
    parties = parties;
    objects = objects;
    reason = some (record {
      type = reason;
      description = "d";
      confidence = confidence;
      requires_followup = t.followup;
    });
    reporter = record {
      reporter_type = reporter_type;
      reporter_id = "u";
      reporter_name = none;
      reported_at = 0;
      channel = "web";
    };
  })

is_ok : Throws (Unit {0}) → Bool
is_ok (ok u) = true
is_ok (err e) = false

-- The texts of the tuple are values of the enums of the ledger, and its policy accepts the event.
pub is_admitted : Tuple → Bool
is_admitted t = is_ok (event_of_tuple t >>= validate_semantic)

-- The overrides that an answer to the selector may pick.
unfoldable pub overrides_from : Dict TupleOverride → List TupleOverride
overrides_from [] = []
overrides_from ((c, o) ∷ rest) = o ∷ overrides_from rest

unfoldable pub overrides : Option Variants → List TupleOverride
overrides none = no_override ∷ []
overrides (some v) = no_override ∷ overrides_from v.by_choice

abbrev pub base_reason : ScenarioMapping → TupleOverride → String
base_reason m o = or_else o.reason_type m.reason_type

abbrev pub swap_type : Option ReasonSwap → String → String
swap_type none t = t
swap_type (some s) t = s.reason_type

abbrev pub tuple_with : ScenarioMapping → TupleOverride → String → Bool → Bool → Tuple
tuple_with m o reason followup linked = record {
  event_type = m.event_type;
  economic_effect = or_else o.economic_effect m.economic_effect;
  objects = object_templates m.objects o;
  reason_type = reason;
  confidence = "high";
  followup = followup;
  linked = linked;
  parties = map terms_of_template m.parties;
  reporter_type = "user";
}

-- The four ways of a reason: late or not, followed up or not.
unfoldable pub ways : ScenarioMapping → TupleOverride → String → Bool → Bool
ways m o reason linked =
    is_admitted (tuple_with m o reason true linked)
    && is_admitted (tuple_with m o reason false linked)
    && is_admitted (tuple_with m o (swap_type m.retroactive reason) true linked)
    && is_admitted (tuple_with m o (swap_type m.retroactive reason) false linked)

unfoldable pub orphan_ways : ScenarioMapping → TupleOverride → Option ReasonSwap → Bool
orphan_ways m o none = true
orphan_ways m o (some s) =
    is_admitted (tuple_with m o s.reason_type true false)
    && is_admitted (tuple_with m o (swap_type m.retroactive s.reason_type) true false)

unfoldable pub admitted_by :
    ScenarioMapping → TupleOverride → Option String → Option ReasonSwap → Bool
admitted_by m o none orphan = ways m o (base_reason m o) false
admitted_by m o (some slot) orphan = ways m o (base_reason m o) true && orphan_ways m o orphan

-- Every way in which a candidate of the mapping can be linked, orphaned, late and followed up.
unfoldable pub all_admitted : ScenarioMapping → TupleOverride → Bool
all_admitted m o = admitted_by m o m.related_event_slot m.orphan

pub table_admitted : all (λ e. all (all_admitted e.1) (overrides e.1.variants)) mappings ≡ true
unfolding all_admitted admitted_by orphan_ways ways is_admitted is_ok event_of_tuple overrides
    overrides_from mappings map_all validate_semantic object_templates event_contracts for_each
    positional_objects contextual_objects object_nature_matrix economic_effect_relation_matrix
    object_relation_matrix reason_effect_matrix reason_relation_matrix register_payment
    register_payroll register_infrastructure register_service_fee register_tax register_penalty
    register_incentive register_advance register_loan register_waiver register_commission_accrual
    register_direct_payment register_commission_received register_advance_settlement
    register_rectification register_loan_repayment register_obligation_recognition
table_admitted = refl
