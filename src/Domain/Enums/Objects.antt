-- ===== src/Domain/Enums/Objects.antt =====
-- The kinds of economic object (ledger/src/core/domain/enums). `values` is `Object.values` of
-- the enum, `place` the position in it, and `text` the string that stands for the constructor.
use ledger_system.Prelude.{
  ℕ, String, some, List, [], ◌∷◌, ◌≡◌, refl, true, ◌↔◌, Eq, eq_by, eq_by_iff, get_elem?,
}

pub data ObjectType : Type 0 where
  commission_entitlement commission_pool commission_receivable commission_payable loan advance
        receivable payable contract proposal installment settlement_batch penalty chargeback
        contingent_claim dispute incentive campaign bonus payroll service_fee infrastructure_cost
        tax :
      ObjectType

abbrev pub object_type_place : ObjectType → ℕ
object_type_place ObjectType.commission_entitlement = 0
object_type_place ObjectType.commission_pool = 1
object_type_place ObjectType.commission_receivable = 2
object_type_place ObjectType.commission_payable = 3
object_type_place ObjectType.loan = 4
object_type_place ObjectType.advance = 5
object_type_place ObjectType.receivable = 6
object_type_place ObjectType.payable = 7
object_type_place ObjectType.contract = 8
object_type_place ObjectType.proposal = 9
object_type_place ObjectType.installment = 10
object_type_place ObjectType.settlement_batch = 11
object_type_place ObjectType.penalty = 12
object_type_place ObjectType.chargeback = 13
object_type_place ObjectType.contingent_claim = 14
object_type_place ObjectType.dispute = 15
object_type_place ObjectType.incentive = 16
object_type_place ObjectType.campaign = 17
object_type_place ObjectType.bonus = 18
object_type_place ObjectType.payroll = 19
object_type_place ObjectType.service_fee = 20
object_type_place ObjectType.infrastructure_cost = 21
object_type_place ObjectType.tax = 22

abbrev pub object_type_values : List ObjectType
object_type_values =
    ObjectType.commission_entitlement ∷ ObjectType.commission_pool
    ∷ ObjectType.commission_receivable ∷ ObjectType.commission_payable ∷ ObjectType.loan
    ∷ ObjectType.advance ∷ ObjectType.receivable ∷ ObjectType.payable ∷ ObjectType.contract
    ∷ ObjectType.proposal ∷ ObjectType.installment ∷ ObjectType.settlement_batch
    ∷ ObjectType.penalty ∷ ObjectType.chargeback ∷ ObjectType.contingent_claim ∷ ObjectType.dispute
    ∷ ObjectType.incentive ∷ ObjectType.campaign ∷ ObjectType.bonus ∷ ObjectType.payroll
    ∷ ObjectType.service_fee ∷ ObjectType.infrastructure_cost ∷ ObjectType.tax ∷ []

abbrev pub object_type_text : ObjectType → String
object_type_text ObjectType.commission_entitlement = "commission_entitlement"
object_type_text ObjectType.commission_pool = "commission_pool"
object_type_text ObjectType.commission_receivable = "commission_receivable"
object_type_text ObjectType.commission_payable = "commission_payable"
object_type_text ObjectType.loan = "loan"
object_type_text ObjectType.advance = "advance"
object_type_text ObjectType.receivable = "receivable"
object_type_text ObjectType.payable = "payable"
object_type_text ObjectType.contract = "contract"
object_type_text ObjectType.proposal = "proposal"
object_type_text ObjectType.installment = "installment"
object_type_text ObjectType.settlement_batch = "settlement_batch"
object_type_text ObjectType.penalty = "penalty"
object_type_text ObjectType.chargeback = "chargeback"
object_type_text ObjectType.contingent_claim = "contingent_claim"
object_type_text ObjectType.dispute = "dispute"
object_type_text ObjectType.incentive = "incentive"
object_type_text ObjectType.campaign = "campaign"
object_type_text ObjectType.bonus = "bonus"
object_type_text ObjectType.payroll = "payroll"
object_type_text ObjectType.service_fee = "service_fee"
object_type_text ObjectType.infrastructure_cost = "infrastructure_cost"
object_type_text ObjectType.tax = "tax"

pub get_elem?-object_type_place :
    (a : ObjectType) → get_elem? object_type_values (object_type_place a) ≡ some a
get_elem?-object_type_place ObjectType.commission_entitlement = refl
get_elem?-object_type_place _ = refl

pub object_type_eq_iff : (a b : ObjectType) → (eq_by object_type_place a b ≡ true) ↔ (a ≡ b)
object_type_eq_iff =
    eq_by_iff object_type_place (get_elem? object_type_values) get_elem?-object_type_place

instance abbrev pub object_type_eq : Eq ObjectType
object_type_eq = record { beq = eq_by object_type_place; beq_iff = object_type_eq_iff }

pub data ObjectNature : Type 0 where
  positional contextual : ObjectNature

abbrev pub object_nature_place : ObjectNature → ℕ
object_nature_place ObjectNature.positional = 0
object_nature_place ObjectNature.contextual = 1

abbrev pub object_nature_values : List ObjectNature
object_nature_values = ObjectNature.positional ∷ ObjectNature.contextual ∷ []

abbrev pub object_nature_text : ObjectNature → String
object_nature_text ObjectNature.positional = "positional"
object_nature_text ObjectNature.contextual = "contextual"

pub get_elem?-object_nature_place :
    (a : ObjectNature) → get_elem? object_nature_values (object_nature_place a) ≡ some a
get_elem?-object_nature_place ObjectNature.positional = refl
get_elem?-object_nature_place _ = refl

pub object_nature_eq_iff : (a b : ObjectNature) → (eq_by object_nature_place a b ≡ true) ↔ (a ≡ b)
object_nature_eq_iff =
    eq_by_iff object_nature_place (get_elem? object_nature_values) get_elem?-object_nature_place

instance abbrev pub object_nature_eq : Eq ObjectNature
object_nature_eq = record { beq = eq_by object_nature_place; beq_iff = object_nature_eq_iff }
