-- ===== src/Domain/Enums/Parties.antt =====
-- Who took part in an event and who reported it (ledger/src/core/domain/enums). `values` is `Object.values` of
-- the enum, `place` the position in it, and `text` the string that stands for the constructor.
use ledger_system.Prelude.{
  ℕ, String, some, List, [], ◌∷◌, ◌≡◌, refl, true, ◌↔◌, Eq, eq_by, eq_by_iff, get_elem?,
}

pub data Direction : Type 0 where
  inbound outbound neutral : Direction

abbrev pub direction_place : Direction → ℕ
direction_place Direction.inbound = 0
direction_place Direction.outbound = 1
direction_place Direction.neutral = 2

abbrev pub direction_values : List Direction
direction_values = Direction.inbound ∷ Direction.outbound ∷ Direction.neutral ∷ []

abbrev pub direction_text : Direction → String
direction_text Direction.inbound = "in"
direction_text Direction.outbound = "out"
direction_text Direction.neutral = "neutral"

pub get_elem?-direction_place :
    (a : Direction) → get_elem? direction_values (direction_place a) ≡ some a
get_elem?-direction_place Direction.inbound = refl
get_elem?-direction_place _ = refl

pub direction_eq_iff : (a b : Direction) → (eq_by direction_place a b ≡ true) ↔ (a ≡ b)
direction_eq_iff = eq_by_iff direction_place (get_elem? direction_values) get_elem?-direction_place

instance abbrev pub direction_eq : Eq Direction
direction_eq = record { beq = eq_by direction_place; beq_iff = direction_eq_iff }

pub data PartyRole : Type 0 where
  payer payee intermediary beneficiary platform : PartyRole

abbrev pub party_role_place : PartyRole → ℕ
party_role_place PartyRole.payer = 0
party_role_place PartyRole.payee = 1
party_role_place PartyRole.intermediary = 2
party_role_place PartyRole.beneficiary = 3
party_role_place PartyRole.platform = 4

abbrev pub party_role_values : List PartyRole
party_role_values =
    PartyRole.payer ∷ PartyRole.payee ∷ PartyRole.intermediary ∷ PartyRole.beneficiary
    ∷ PartyRole.platform ∷ []

abbrev pub party_role_text : PartyRole → String
party_role_text PartyRole.payer = "payer"
party_role_text PartyRole.payee = "payee"
party_role_text PartyRole.intermediary = "intermediary"
party_role_text PartyRole.beneficiary = "beneficiary"
party_role_text PartyRole.platform = "platform"

pub get_elem?-party_role_place :
    (a : PartyRole) → get_elem? party_role_values (party_role_place a) ≡ some a
get_elem?-party_role_place PartyRole.payer = refl
get_elem?-party_role_place _ = refl

pub party_role_eq_iff : (a b : PartyRole) → (eq_by party_role_place a b ≡ true) ↔ (a ≡ b)
party_role_eq_iff =
    eq_by_iff party_role_place (get_elem? party_role_values) get_elem?-party_role_place

instance abbrev pub party_role_eq : Eq PartyRole
party_role_eq = record { beq = eq_by party_role_place; beq_iff = party_role_eq_iff }

pub data ReporterType : Type 0 where
  system user integration : ReporterType

abbrev pub reporter_type_place : ReporterType → ℕ
reporter_type_place ReporterType.system = 0
reporter_type_place ReporterType.user = 1
reporter_type_place ReporterType.integration = 2

abbrev pub reporter_type_values : List ReporterType
reporter_type_values = ReporterType.system ∷ ReporterType.user ∷ ReporterType.integration ∷ []

abbrev pub reporter_type_text : ReporterType → String
reporter_type_text ReporterType.system = "system"
reporter_type_text ReporterType.user = "user"
reporter_type_text ReporterType.integration = "integration"

pub get_elem?-reporter_type_place :
    (a : ReporterType) → get_elem? reporter_type_values (reporter_type_place a) ≡ some a
get_elem?-reporter_type_place ReporterType.system = refl
get_elem?-reporter_type_place _ = refl

pub reporter_type_eq_iff : (a b : ReporterType) → (eq_by reporter_type_place a b ≡ true) ↔ (a ≡ b)
reporter_type_eq_iff =
    eq_by_iff reporter_type_place (get_elem? reporter_type_values) get_elem?-reporter_type_place

instance abbrev pub reporter_type_eq : Eq ReporterType
reporter_type_eq = record { beq = eq_by reporter_type_place; beq_iff = reporter_type_eq_iff }
