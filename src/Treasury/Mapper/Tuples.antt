-- ===== src/Treasury/Mapper/Tuples.antt =====
-- `producibleTuples` (treasury/src/core/application/services/CandidateMapper.ts).
use ledger_system.Prelude.{String, Bool, Option, none, some, List, [], ◌∷◌, ◌++◌, length, ltb}
use ledger_system.Prelude.Dict.{Dict}
use ledger_system.Treasury.Mapper.{
  ScenarioMapping, Variants, TupleOverride, ObjectTemplate, object_templates,
}
use ledger_system.Treasury.Mapper.Payments.{no_override}
use ledger_system.Treasury.Mapper.Table.{mappings}

pub record ProducibleTuple : Type 0 where
  pub scenario_id : String
  pub event_type : String
  pub object_type : String
  pub relation : String
  pub variant_choice : Option String
  pub touches_other_positions : Bool

-- The branches of a scenario: the choices with their overrides, or the one without a choice.
abbrev pub branches : Option Variants → List (Option String × TupleOverride)
branches none = (none, no_override) ∷ []
branches (some v) = with_choice v.by_choice
  where
    with_choice : Dict TupleOverride → List (Option String × TupleOverride)
    with_choice [] = []
    with_choice ((c, o) ∷ rest) = (some c, o) ∷ with_choice rest

tuples_of_objects :
    String → ScenarioMapping → Option String → List ObjectTemplate → List ProducibleTuple
tuples_of_objects id m choice [] = []
tuples_of_objects id m choice (o ∷ os) =
    record {
      scenario_id = id;
      event_type = m.event_type;
      object_type = o.object_type;
      relation = o.relation;
      variant_choice = choice;
      touches_other_positions = ltb 1 (length m.objects);
    }
    ∷ tuples_of_objects id m choice os

tuples_of_branches :
    String → ScenarioMapping → List (Option String × TupleOverride) → List ProducibleTuple
tuples_of_branches id m [] = []
tuples_of_branches id m ((choice, override) ∷ bs) =
    tuples_of_objects id m choice (object_templates m.objects override)
    ++ tuples_of_branches id m bs

tuples_from : Dict ScenarioMapping → List ProducibleTuple
tuples_from [] = []
tuples_from ((id, m) ∷ rest) = tuples_of_branches id m (branches m.variants) ++ tuples_from rest

unfoldable pub producible_tuples : List ProducibleTuple
unfolding tuples_from tuples_of_branches tuples_of_objects
producible_tuples = tuples_from mappings
