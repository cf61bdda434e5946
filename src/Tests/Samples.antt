-- ===== src/Tests/Samples.antt =====
-- A recognized payroll, its payment, the correction that takes the payment back, and a receipt
-- of unknown origin.
use ledger_system.Prelude.{ℕ, String, true, false, none, some, [], ◌∷◌}
use ledger_system.Domain.Enums.{
  EventType, EconomicEffect, Relation, ObjectType, ReasonType, ConfidenceLevel, Direction,
  PartyRole, ReporterType,
}
use ledger_system.Domain.Money.{Money}
use ledger_system.Application.Recording.{CreateLedgerEventCommand, Ledger, Env}
use ledger_system.Domain.Entities.{
  LedgerEventParty, LedgerEventObject, EventReason, CreateLedgerEventProps,
}

abbrev pub reais : ℕ → Money
reais n = record { units = n; currency = "BRL" }

abbrev pub because : ReasonType → EventReason
because t = record {
  type = t;
  description = "";
  confidence = ConfidenceLevel.high;
  requires_followup = false;
}

abbrev pub payer : Money → LedgerEventParty
payer m = record {
  party_id = "usina";
  role = PartyRole.payer;
  direction = Direction.outbound;
  amount = some m;
}

-- A party to which no money moves.
abbrev pub staff : LedgerEventParty
staff = record {
  party_id = "staff";
  role = PartyRole.payee;
  direction = Direction.neutral;
  amount = none;
}

abbrev pub payroll : Relation → LedgerEventObject
payroll r = record { object_id = "payroll-1"; object_type = ObjectType.payroll; relation = r }

abbrev pub agreement : LedgerEventObject
agreement = record {
  object_id = "contract-1";
  object_type = ObjectType.contract;
  relation = Relation.references;
}

abbrev pub recognition : CreateLedgerEventProps
recognition = record {
  id = "e1";
  event_type = EventType.obligation_recognized;
  economic_effect = EconomicEffect.non_cash;
  occurred_at = 1000;
  source_at = none;
  due_at = some 5000;
  amount = reais 10000;
  description = none;
  source = record { system = "sheet"; reference = "row-1" };
  normalization = record { version = "1"; worker_id = "w" };
  previous_hash = none;
  command_id = some "c1";
  related_event_id = none;
  parties = staff ∷ [];
  objects = payroll Relation.originates ∷ agreement ∷ [];
  reason = some (because ReasonType.obligation_recognition);
  reporter = record {
    reporter_type = ReporterType.system;
    reporter_id = "r";
    reporter_name = none;
    reported_at = 2000;
    channel = "sheet";
  };
}

abbrev pub payment : CreateLedgerEventProps
payment = record recognition {
  id = "e2";
  event_type = EventType.payroll_payment;
  economic_effect = EconomicEffect.cash_out;
  due_at = none;
  amount = reais 4000;
  source = record { system = "sheet"; reference = "row-2" };
  command_id = some "c2";
  previous_hash = some "digest";
  parties = payer (reais 4000) ∷ [];
  objects = payroll Relation.settles ∷ agreement ∷ [];
  reason = some (because ReasonType.payroll_payment);
}

abbrev pub retraction : CreateLedgerEventProps
retraction = record recognition {
  id = "e3";
  event_type = EventType.ledger_correction;
  due_at = none;
  amount = reais 4000;
  source = record { system = "sheet"; reference = "row-3" };
  command_id = some "c3";
  previous_hash = some "digest";
  related_event_id = some "e2";
  objects = payroll Relation.retracts ∷ [];
  reason = some (because ReasonType.manual_correction);
}

abbrev pub reversal : CreateLedgerEventProps
reversal = record retraction {
  related_event_id = none;
  objects =
      record {
        object_id = "receivable-1";
        object_type = ObjectType.commission_receivable;
        relation = Relation.reverses;
      }
      ∷ [];
}

abbrev pub unknown_receipt : CreateLedgerEventProps
unknown_receipt = record recognition {
  id = "e4";
  event_type = EventType.commission_received;
  economic_effect = EconomicEffect.cash_in;
  due_at = none;
  amount = reais 700;
  parties =
      record {
        party_id = "usina";
        role = PartyRole.payee;
        direction = Direction.inbound;
        amount = some (reais 700);
      }
      ∷ [];
  objects =
      record {
        object_id = "receivable-1";
        object_type = ObjectType.commission_receivable;
        relation = Relation.settles;
      }
      ∷ [];
  reason = some (record (because ReasonType.unknown_origin) { requires_followup = true });
}

abbrev pub recognize : CreateLedgerEventCommand
recognize = record {
  event_type = EventType.obligation_recognized;
  economic_effect = EconomicEffect.non_cash;
  occurred_at = 1000;
  source_at = none;
  due_at = some 5000;
  amount = "100.00";
  currency = "BRL";
  description = none;
  source_system = "sheet";
  source_reference = "row-1";
  normalization_version = "1";
  normalization_worker_id = "w";
  command_id = some "c1";
  related_event_id = none;
  parties =
      record {
        party_id = "staff";
        role = PartyRole.payee;
        direction = Direction.neutral;
        amount = none;
      }
      ∷ [];
  objects = payroll Relation.originates ∷ agreement ∷ [];
  reason = some (because ReasonType.obligation_recognition);
  reporter = record {
    reporter_type = ReporterType.system;
    reporter_id = "r";
    reporter_name = none;
    channel = "sheet";
  };
}

abbrev pub pay : CreateLedgerEventCommand
pay = record recognize {
  event_type = EventType.payroll_payment;
  economic_effect = EconomicEffect.cash_out;
  due_at = none;
  amount = "40.00";
  source_reference = "row-2";
  command_id = some "c2";
  parties =
      record {
        party_id = "usina";
        role = PartyRole.payer;
        direction = Direction.outbound;
        amount = some "40.00";
      }
      ∷ [];
  objects = payroll Relation.settles ∷ agreement ∷ [];
  reason = some (because ReasonType.payroll_payment);
}

abbrev pub take_back : CreateLedgerEventCommand
take_back = record recognize {
  event_type = EventType.ledger_correction;
  due_at = none;
  amount = "40.00";
  source_reference = "row-3";
  command_id = some "c3";
  related_event_id = some "e2";
  objects = payroll Relation.retracts ∷ [];
  reason = some (because ReasonType.manual_correction);
}

-- The digest of the tests gives one text.
abbrev pub env_of : String → Env
env_of id = record { uuid = id; reported_at = 2000; recorded_at = 3000; sha256 = λ _. "digest" }

abbrev pub no_events : Ledger
no_events = record { book = []; audit = [] }
