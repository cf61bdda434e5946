-- ===== src/Domain/CashTypes.antt =====
-- The types of objects that the figures on cash tell apart
-- (ledger/src/core/domain/policies/CashPositionPolicy.ts). A set is the list of its members.
use ledger_system.Prelude.{List, [], ◌∷◌}
use ledger_system.Domain.Enums.{ObjectType}

abbrev pub usina_receivable_object_types : List ObjectType
usina_receivable_object_types = ObjectType.loan ∷ ObjectType.advance ∷ ObjectType.receivable ∷ []

abbrev pub usina_payable_object_types : List ObjectType
usina_payable_object_types =
    ObjectType.payable ∷ ObjectType.payroll ∷ ObjectType.service_fee
    ∷ ObjectType.infrastructure_cost ∷ ObjectType.tax ∷ []

abbrev pub usina_contingent_object_types : List ObjectType
usina_contingent_object_types =
    ObjectType.contingent_claim ∷ ObjectType.dispute ∷ ObjectType.penalty ∷ ObjectType.chargeback
    ∷ []
