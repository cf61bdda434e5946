-- ===== src/Tests/Runs.antt =====
-- The theorems on recorded events at a concrete ledger.
use ledger_system.Prelude.{
  String, true, ◌&&◌, ◌≡◌, refl, ◌≢◌, ◌⊎◌, none, some, [], ◌∷◌, ◌++◌, List, ok, for_each, arith,
  includes, string_eq,
}
use ledger_system.Domain.Contracts.{event_contracts}
use ledger_system.Domain.Matrices.{
  economic_effect_relation_matrix, object_nature_matrix, object_relation_matrix,
  reason_effect_matrix, reason_relation_matrix,
}
use ledger_system.Domain.Money.{from_decimal, zero_money, add, is_currency}
use ledger_system.Prelude.Texts.{read}
use ledger_system.Infra.Memory.{get_by_command_id, get_by_id, find_settled_object_ids}
use ledger_system.Infra.Memory.Settled.{settled_by, find_settled_object_ids_iff}
use ledger_system.Domain.Entities.{LedgerEvent, new_event_id, new_event_source, new_normalization}
use ledger_system.Domain.Event.{validate_basic, validate_flow, validate_reason_rules, total_flow}
use ledger_system.Domain.Policy.{positional_objects, contextual_objects, validate_semantic}
use ledger_system.Domain.Hash.{generate_canonical}
use ledger_system.Domain.Creation.{validate, create, event_of}
use ledger_system.Application.Retraction.{retracted_event_ids, fold_object_totals}
use ledger_system.Application.Retraction.Standing.{
  RetractsOnce, is_retracted, retracted_event_ids_iff,
}
use ledger_system.Application.Retraction.Totals.{totals, fold_object_totals_eq}
use ledger_system.Application.Recording.History.{IsBook}
use ledger_system.Application.Recording.Outcomes.{execute_appends, execute_retry, now, then_run}
use ledger_system.Application.Recording.Reversal.{IsChained, execute_reverses}
use ledger_system.Domain.Enums.{EventType, EconomicEffect}
use ledger_system.Application.Recording.Invariant.{execute-IsBook}
use ledger_system.Application.Recording.Withdrawal.{execute_withdraws}
use ledger_system.Application.Recording.Reachable.{start, step, Reachable-IsBook}
use ledger_system.Application.Recording.Conservation.{Conserves, totals_of, settlement-Conserves}
use ledger_system.Application.Recording.{
  CreateLedgerEventCommand, Ledger, execute, record_event, prepare, make_parties, check_settlement,
  find_origin, check_retraction_rules, known_event, audit_entry,
}
use ledger_system.Tests.Samples.{
  recognize, take_back, pay, env_of, no_events, recognition, payment, retraction, reversal,
}

abbrev first : LedgerEvent
first = event_of recognition 3000 "digest"

abbrev one_event : Ledger
one_event = record { book = first ∷ []; audit = audit_entry recognize first ∷ [] }

abbrev second : LedgerEvent
second = event_of payment 3000 "digest"

abbrev two_events : Ledger
two_events = record {
  book = first ∷ second ∷ [];
  audit = audit_entry recognize first ∷ audit_entry pay second ∷ [];
}

-- The payment, taken back.
abbrev third : LedgerEvent
third = event_of retraction 3000 "digest"

abbrev three_events : Ledger
three_events = record {
  book = first ∷ second ∷ third ∷ [];
  audit = audit_entry recognize first ∷ audit_entry pay second ∷ audit_entry take_back third ∷ [];
}

-- A payroll of 100.00 is recognized, 40.00 of it are paid, and the payment is taken back.
runs :
    (execute (env_of "e1") recognize no_events ≡ ok (first, one_event))
    × (execute (env_of "e2") pay one_event ≡ ok (second, two_events))
    × (create (λ _. "digest") 3000 recognition ≡ ok first)
    × (known_event pay.command_id one_event.book ≡ none)
    × ((totals_of "payroll-1" one_event.book).originated_units ≡ 10000)
    × (execute (env_of "e3") take_back two_events ≡ ok (third, three_events))
    × (known_event take_back.command_id two_events.book ≡ none)
unfolding execute record_event prepare validate_semantic event_contracts for_each positional_objects
    contextual_objects object_nature_matrix economic_effect_relation_matrix object_relation_matrix
    reason_effect_matrix reason_relation_matrix from_decimal new_event_id new_event_source
    new_normalization make_parties check_settlement find_origin create validate validate_basic
    validate_flow validate_reason_rules zero_money is_currency add generate_canonical
    get_by_command_id read total_flow fold_object_totals get_by_id check_retraction_rules
runs = (refl, refl, refl, refl, refl, refl, refl)

one_event-IsBook : IsBook one_event.book
one_event-IsBook = execute-IsBook (env_of "e1") recognize no_events tt runs.0

execute-IsBook_example : IsBook two_events.book
execute-IsBook_example = execute-IsBook (env_of "e2") pay one_event one_event-IsBook runs.1

execute_appends_example :
    ((known_event pay.command_id one_event.book ≡ some second) × (two_events ≡ one_event))
    ⊎ ((known_event pay.command_id one_event.book ≡ none)
        × (two_events.book ≡ one_event.book ++ second ∷ [])
        × (two_events.audit ≡ one_event.audit ++ audit_entry pay second ∷ []))
execute_appends_example = execute_appends (env_of "e2") pay one_event runs.1

-- The payment is sent again behind its retraction.
execute_retry_example : execute (env_of "e7") pay three_events ≡ ok (second, three_events)
execute_retry_example =
    execute_retry (env_of "e2") (env_of "e7") pay one_event refl runs.1
      (then_run (env_of "e3") take_back now runs.5)

-- A receivable is reversed behind the recognition.
abbrev reverse : CreateLedgerEventCommand
reverse = record take_back { related_event_id = none; objects = reversal.objects }

abbrev reversed : LedgerEvent
reversed = event_of reversal 3000 "digest"

abbrev reversed_events : Ledger
reversed_events = record {
  book = first ∷ reversed ∷ [];
  audit = audit_entry recognize first ∷ audit_entry reverse reversed ∷ [];
}

reverse_runs :
    (execute (env_of "e3") reverse one_event ≡ ok (reversed, reversed_events))
    × (known_event reverse.command_id one_event.book ≡ none)
unfolding execute record_event prepare validate_semantic event_contracts for_each positional_objects
    contextual_objects object_nature_matrix economic_effect_relation_matrix object_relation_matrix
    reason_effect_matrix reason_relation_matrix from_decimal new_event_id new_event_source
    new_normalization make_parties check_settlement find_origin create validate validate_basic
    validate_flow validate_reason_rules zero_money is_currency add generate_canonical
    get_by_command_id read total_flow fold_object_totals get_by_id check_retraction_rules
reverse_runs = (refl, refl)

execute_reverses_example :
    ((reversed.event_type ≡ EventType.ledger_correction)
      ⊎ (reversed.event_type ≡ EventType.commission_waiver))
    × (reversed.economic_effect ≡ EconomicEffect.non_cash)
    × IsChained one_event.book reversed
execute_reverses_example =
    execute_reverses (env_of "e3") reverse one_event reverse_runs.1 reverse_runs.0 refl

payroll_opened : (totals_of "payroll-1" one_event.book).originated_units ≢ 0
payroll_opened h = omega (arith, runs.4, h)

settlement-Conserves_example : Conserves (totals_of "payroll-1" two_events.book)
settlement-Conserves_example =
    settlement-Conserves (env_of "e2") pay one_event "payroll-1" one_event-IsBook runs.3
      payroll_opened refl refl runs.1

abbrev taken_back : List LedgerEvent
taken_back = first ∷ second ∷ third ∷ []

taken_back-RetractsOnce : RetractsOnce taken_back
taken_back-RetractsOnce = (λ t h. cc h, (λ t h. cc h, (λ t h. refl, tt)))

retracted_event_ids_iff_example :
    includes (retracted_event_ids taken_back) "e2" ≡ is_retracted taken_back "e2"
retracted_event_ids_iff_example = retracted_event_ids_iff taken_back "e2" taken_back-RetractsOnce

fold_object_totals_eq_example :
    fold_object_totals taken_back "payroll-1"
    ≡ totals (is_retracted taken_back) "payroll-1" taken_back
fold_object_totals_eq_example = fold_object_totals_eq taken_back "payroll-1" taken_back-RetractsOnce

two_events-IsBook : IsBook two_events.book
two_events-IsBook = execute-IsBook (env_of "e2") pay one_event one_event-IsBook runs.1

execute_withdraws_example : includes (retracted_event_ids three_events.book) "e2" ≡ true
execute_withdraws_example =
    execute_withdraws (env_of "e3") take_back two_events "e2" two_events-IsBook runs.6 refl refl
      runs.5

Reachable-IsBook_example : IsBook two_events.book
Reachable-IsBook_example =
    Reachable-IsBook (step (env_of "e2") pay (step (env_of "e1") recognize start runs.0) runs.1)

abbrev asked : List String
asked = "payroll-1" ∷ []

find_settled_object_ids_iff_example :
    includes (find_settled_object_ids asked taken_back) "payroll-1"
    ≡ (includes asked "payroll-1" && settled_by (is_retracted taken_back) "payroll-1" taken_back)
find_settled_object_ids_iff_example =
    find_settled_object_ids_iff asked taken_back "payroll-1" taken_back-RetractsOnce
