-- ===== src/Tests/Policies.antt =====
-- The theorems on amounts and on the policy at concrete events.
use ledger_system.Prelude.{
  ℕ, ◌≡◌, refl, ◌↔◌, true, false, some, [], ◌∷◌, All, any, ok, for_each, truthy,
}
use ledger_system.Domain.Enums.{EventType, EconomicEffect, Relation, ReasonType}
use ledger_system.Domain.Contracts.{event_contracts}
use ledger_system.Domain.Matrices.{
  economic_effect_relation_matrix, object_nature_matrix, object_relation_matrix,
  reason_effect_matrix, reason_relation_matrix,
}
use ledger_system.Domain.Money.{is_currency, from_decimal, to_string}
use ledger_system.Domain.Money.Decimal.{from_decimal-to_string}
use ledger_system.Domain.Entities.{EventReason}
use ledger_system.Domain.Event.{validate_flow}
use ledger_system.Domain.Event.Balance.{IsBalanced, validate_flow_iff}
use ledger_system.Domain.Policy.{
  positional_objects, contextual_objects, is_contextual, has_relation, validate_semantic,
}
use ledger_system.Domain.Policy.Relations.{references_iff_contextual}
use ledger_system.Domain.Policy.Corrections.{retraction_shape}
use ledger_system.Domain.Policy.Terms.{due_at_shape, orphan_shape}
use ledger_system.Tests.Samples.{reais, recognition, payment, retraction, reversal, unknown_receipt}

reais-IsMoney : (n : ℕ) → is_currency (reais n).currency ≡ true
unfolding is_currency
reais-IsMoney n = refl

from_decimal-to_string_example : from_decimal (to_string (reais 1205)) "BRL" ≡ ok (reais 1205)
from_decimal-to_string_example = from_decimal-to_string (reais 1205) (reais-IsMoney 1205)

-- The policy accepts the sample events.
accepted :
    All
      (λ p. validate_semantic p ≡ ok tt)
      (recognition ∷ payment ∷ retraction ∷ reversal ∷ unknown_receipt ∷ [])
unfolding validate_semantic event_contracts for_each positional_objects contextual_objects
    object_nature_matrix economic_effect_relation_matrix object_relation_matrix reason_effect_matrix
    reason_relation_matrix
accepted = (refl, (refl, (refl, (refl, (refl, tt)))))

due_at_shape_example :
    (recognition.event_type ≡ EventType.obligation_recognized)
    × (any (has_relation Relation.originates) recognition.objects ≡ true)
    × All (λ o. is_contextual o ≡ false → o.relation ≡ Relation.originates) recognition.objects
due_at_shape_example = due_at_shape recognition accepted.0 refl

references_iff_contextual_example :
    All (λ o. (o.relation ≡ Relation.references) ↔ (is_contextual o ≡ true)) recognition.objects
references_iff_contextual_example = references_iff_contextual recognition accepted.0

retraction_shape_example :
    (retraction.event_type ≡ EventType.ledger_correction)
    × (retraction.economic_effect ≡ EconomicEffect.non_cash)
    × (truthy retraction.related_event_id ≡ true)
    × All (λ o. o.relation ≡ Relation.retracts) retraction.objects
retraction_shape_example = retraction_shape retraction accepted.1.1.0 refl

orphan_shape_example :
    (unknown_receipt.event_type ≡ EventType.commission_received)
    × ((r : EventReason) × (unknown_receipt.reason ≡ some r)
        × (r.type ≡ ReasonType.unknown_origin)
        × (r.requires_followup ≡ true))
unfolding event_contracts
orphan_shape_example = orphan_shape unknown_receipt accepted.1.1.1.1.0 refl refl

validate_flow_iff_example : (validate_flow payment ≡ ok tt) ↔ IsBalanced payment
validate_flow_iff_example = validate_flow_iff payment
