-- ===== src/Application/Recording/Prepared.antt =====
-- What the guards of `execute` leave when they pass
-- (ledger/src/core/application/use-cases/CreateLedgerEventUseCase.ts).
use ledger_system.Prelude.{
  String, ◌≡◌, sym, ap, ◌∙◌, ok_injective, Bool, false, Option, ◌==◌, any, ok, for_each, >>=-eq-ok,
  >>-eq-ok, throw_if-eq-ok, arith,
}
use ledger_system.Domain.Enums.{Relation, relation_eq}
use ledger_system.Domain.Money.{from_decimal}
use ledger_system.Domain.Entities.{
  new_event_id, new_event_source, new_normalization, EventSource, CreateLedgerEventProps,
  LedgerEvent,
}
use ledger_system.Infra.Memory.{Book, exists_by_source_reference, get_last_event_hash}
use ledger_system.Application.Recording.{
  CreateLedgerEventCommand, Env, find_origin, check_origin, check_settlement, make_parties, prepare,
}

abbrev pub retracts : CreateLedgerEventCommand → Bool
retracts c = any (λ o. o.relation == Relation.retracts) c.objects

pub record Prepared (env : Env) (c : CreateLedgerEventCommand) (book : Book)
    (props : CreateLedgerEventProps) : Type 0 where
  pub fresh_reference : exists_by_source_reference c.source_reference book ≡ false
  pub origin : Option LedgerEvent
  pub found : find_origin c.event_type c.related_event_id book ≡ ok origin
  pub origin_checked : check_origin (retracts c) c.related_event_id origin book ≡ ok tt
  pub settlements : for_each c.objects (check_settlement props.amount book) ≡ ok tt
  pub amount : from_decimal c.amount c.currency ≡ ok props.amount
  pub id : props.id ≡ env.uuid
  pub reference : props.source.reference ≡ c.source_reference
  pub linked : props.previous_hash ≡ get_last_event_hash book
  pub command : props.command_id ≡ c.command_id
  pub related : props.related_event_id ≡ c.related_event_id
  pub objects : props.objects ≡ c.objects

new_event_id-eq-ok : (s : String) {t : String} → new_event_id s ≡ ok t → t ≡ s
unfolding new_event_id
new_event_id-eq-ok s h = ground arith

new_event_source-eq-ok :
    (system reference : String) {s : EventSource}
    → new_event_source system reference ≡ ok s
    → s.reference ≡ reference
unfolding new_event_source
new_event_source-eq-ok system reference h = ground arith

pub prepare-Prepared :
    (env : Env) (c : CreateLedgerEventCommand) (book : Book) {props : CreateLedgerEventProps}
    → prepare env c book ≡ ok props
    → Prepared env c book props
unfolding prepare
prepare-Prepared env c book {props} h =
    let (fresh, h1) = >>-eq-ok _ _ h in
    let (id, id_ok, h2) = >>=-eq-ok (new_event_id env.uuid) _ h1 in
    let (money, money_ok, h3) = >>=-eq-ok (from_decimal c.amount c.currency) _ h2 in
    let (origin, origin_ok, h4) =
      >>=-eq-ok (find_origin c.event_type c.related_event_id book) _ h3 in
    let (checked, h5) = >>-eq-ok (check_origin (retracts c) c.related_event_id origin book) _ h4 in
    let (settled, h6) = >>-eq-ok (for_each c.objects (check_settlement money book)) _ h5 in
    let (normal, normal_ok, h7) =
      >>=-eq-ok (new_normalization c.normalization_version c.normalization_worker_id) _ h6 in
    let (source, source_ok, h8) =
      >>=-eq-ok (new_event_source c.source_system c.source_reference) _ h7 in
    let (parties, parties_ok, made) = >>=-eq-ok (make_parties c.parties c.currency) _ h8 in
    let same = ok_injective made in
    record {
      fresh_reference = throw_if-eq-ok _ _ fresh;
      origin = origin;
      found = origin_ok;
      origin_checked = checked;
      settlements = rw (ap (λ p. p.amount) same) at settled;
      amount = money_ok ∙ ap (λ p. ok p.amount) same;
      id = sym (ap (λ p. p.id) same) ∙ new_event_id-eq-ok env.uuid id_ok;
      reference =
          sym (ap (λ p. p.source.reference) same)
          ∙ new_event_source-eq-ok c.source_system c.source_reference source_ok;
      linked = sym (ap (λ p. p.previous_hash) same);
      command = sym (ap (λ p. p.command_id) same);
      related = sym (ap (λ p. p.related_event_id) same);
      objects = sym (ap (λ p. p.objects) same);
    }
