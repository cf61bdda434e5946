-- ===== src/Domain/Creation/Guarantees.antt =====
-- What `LedgerEvent.create` guarantees of the event that it returns
-- (ledger/src/core/domain/entities/LedgerEvent.ts).
use ledger_system.Prelude.{
  String, ◌≡◌, ◌≢◌, arith, [], All, ok, >>-eq-ok, for_each, for_each-eq-ok, is_some, true,
}
use ledger_system.Domain.Enums.{
  EconomicEffect, economic_effect_eq_iff, Direction, direction_eq_iff, PartyRole, party_role_eq_iff,
}
use ledger_system.Domain.Hash.{generate_canonical}
use ledger_system.Domain.Entities.{Instant, LedgerEventParty, CreateLedgerEventProps, LedgerEvent}
use ledger_system.Domain.Event.{
  validate_basic, validate_role, validate_reason_rules, requires_followup,
}
use ledger_system.Domain.Event.Balance.{IsBalanced, validate_flow_iff}
use ledger_system.Domain.Policy.{validate_semantic}
use ledger_system.Domain.Policy.Objects.{All-map}
use ledger_system.Domain.Creation.{validate, create, event_of, canonical_form}

-- No payer receives and no payee pays.
pub record RoleFits (p : LedgerEventParty) : Type 0 where
  pub payer : p.role ≡ PartyRole.payer → p.direction ≢ Direction.inbound
  pub payee : p.role ≡ PartyRole.payee → p.direction ≢ Direction.outbound

-- The event moves an amount, the amounts of its parties balance, their roles fit their directions,
-- it has a party and names an object, it has a reason where it moves no cash, one that asks for a
-- follow-up where it is contingent, and the policy accepts it.
pub record IsSound (props : CreateLedgerEventProps) : Type 0 where
  pub moves : props.amount.units ≢ 0
  pub balanced : IsBalanced props
  pub roles : All RoleFits props.parties
  pub parties : props.parties ≢ []
  pub objects : props.objects ≢ []
  pub reasoned : props.economic_effect ≡ EconomicEffect.non_cash → is_some props.reason ≡ true
  pub followed_up :
      props.economic_effect ≡ EconomicEffect.contingent → requires_followup props.reason ≡ true
  pub semantic : validate_semantic props ≡ ok tt

role_fits : (p : LedgerEventParty) → validate_role p ≡ ok tt → RoleFits p
unfolding validate_role
role_fits p h = record {
  payer = λ r d. ground (
    arith,
    party_role_eq_iff p.role PartyRole.payer,
    direction_eq_iff p.direction Direction.inbound,
  );
  payee = λ r d. ground (
    arith,
    party_role_eq_iff p.role PartyRole.payee,
    direction_eq_iff p.direction Direction.outbound,
  );
}

basic_amount :
    (props : CreateLedgerEventProps) → validate_basic props ≡ ok tt → props.amount.units ≢ 0
unfolding validate_basic
basic_amount props h e = ground arith

basic_parties : (props : CreateLedgerEventProps) → validate_basic props ≡ ok tt → props.parties ≢ []
unfolding validate_basic
basic_parties props h e = ground arith

rules_non_cash :
    (props : CreateLedgerEventProps)
    → validate_reason_rules props ≡ ok tt
    → props.economic_effect ≡ EconomicEffect.non_cash
    → is_some props.reason ≡ true
unfolding validate_reason_rules
rules_non_cash props h e =
    ground (arith, economic_effect_eq_iff props.economic_effect EconomicEffect.non_cash)

rules_contingent :
    (props : CreateLedgerEventProps)
    → validate_reason_rules props ≡ ok tt
    → props.economic_effect ≡ EconomicEffect.contingent
    → requires_followup props.reason ≡ true
unfolding validate_reason_rules
rules_contingent props h e =
    ground (arith, economic_effect_eq_iff props.economic_effect EconomicEffect.contingent)

basic_objects : (props : CreateLedgerEventProps) → validate_basic props ≡ ok tt → props.objects ≢ []
unfolding validate_basic
basic_objects props h e = ground arith

basic_loop :
    (props : CreateLedgerEventProps)
    → validate_basic props ≡ ok tt
    → for_each props.parties validate_role ≡ ok tt
unfolding validate_basic
basic_loop props h = ground arith

basic_roles :
    (props : CreateLedgerEventProps) → validate_basic props ≡ ok tt → All RoleFits props.parties
basic_roles props h =
    All-map props.parties role_fits
      (for_each-eq-ok props.parties validate_role (basic_loop props h))

pub validate-IsSound : (props : CreateLedgerEventProps) → validate props ≡ ok tt → IsSound props
unfolding validate
validate-IsSound props h =
    let (basic, h1) = >>-eq-ok _ _ h in
    let (flow, h2) = >>-eq-ok _ _ h1 in
    let (rules, semantic) = >>-eq-ok _ _ h2 in
    record {
      moves = basic_amount props basic;
      balanced = (validate_flow_iff props).0 flow;
      roles = basic_roles props basic;
      objects = basic_objects props basic;
      parties = basic_parties props basic;
      reasoned = rules_non_cash props rules;
      followed_up = rules_contingent props rules;
      semantic = semantic;
    }

pub create-IsSound :
    (sha256 : String → String) (now : Instant) (props : CreateLedgerEventProps) {e : LedgerEvent}
    → create sha256 now props ≡ ok e
    → IsSound props
      × (e ≡ event_of props now (generate_canonical sha256 (canonical_form props now)))
unfolding create
create-IsSound sha256 now props h =
    let (checked, made) = >>-eq-ok (validate props) _ h in (validate-IsSound props checked, cc made)
