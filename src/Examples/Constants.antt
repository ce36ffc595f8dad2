-- ===== src/Examples/Constants.antt =====
-- The theorems on constants, at a suite with a hook and a test.
use mathlib.Core.Option.{none-ne-some, some-injective}
use qsmith.Prelude.{
  ap, ℕ, String, ◌≡◌, refl, inl, inr, Bool-cases, arith, none, some, List, [], ◌∷◌, All, eq_iff,
  Outcome, ok, err, ◌==◌, if◌then◌else◌,
}
use qsmith.Prelude.Dict.{lookup, insert, Distinct}
use qsmith.Prelude.Int.{ℤ, pos}
use qsmith.Prelude.Sort.{sort}
use qsmith.Prelude.Text.{is_space}
use qsmith.Context.Write.{guard_root}
use qsmith.Constants.Tables.{before_all, test}
use qsmith.Constants.Plan.{
  CommandConfiguration, Kind, RawCommand, PlannedDefinition, Definitions, Planned,
  plan_definitions_for_commands, command_inputs, comes_before, active_definitions,
  carry_over_visible_map, check_refs, definition_refs, validate_ref_visibility,
  validate_duplicate_name, planned_declarations, check_declarations, validate_declarations,
  add_definitions, plan_command,
}
use qsmith.Constants.Plan.Names.{UniqueNames}
use qsmith.Constants.Plan.Sorted.{plan_definitions_for_commands-UniqueNames}
use qsmith.Constants.Plan.Scopes.{plan_definitions_for_commands-guard_root}
use qsmith.Constants.Live.{Live, IsScoped}
use qsmith.Constants.Live.Visible.{Holds}
use qsmith.Constants.Live.Safe.{plan_definitions_for_commands-IsScoped}
use qsmith.Constants.Suites.{
  SuiteDto, SuiteItemEntity, OperationEntity, DefinitionEntity, definition_entity,
}
use qsmith.Examples.Data.{test_context}

abbrev pub new_id : ℕ → String
new_id n = "new"

abbrev pub as_it_is : CommandConfiguration → Outcome CommandConfiguration
as_it_is cfg = ok cfg

abbrev set_local : CommandConfiguration
set_local = record {
  command_code = "initConstant";
  kind = Kind.init_constant "d1" "order" "local" "json";
  source_constant_ref = none;
  actual_constant_ref = none;
  result_constant = none;
}

abbrev publish_both : CommandConfiguration
publish_both = record {
  command_code = "sendMessageQueue";
  kind = Kind.other;
  source_constant_ref = some "d1";
  actual_constant_ref = some "d0";
  result_constant = some (record { definition_id = "d2"; name = "sent"; value_type = "" });
}

abbrev drop_local : CommandConfiguration
drop_local = record {
  command_code = "deleteConstant";
  kind = Kind.delete_constant "d1";
  source_constant_ref = none;
  actual_constant_ref = none;
  result_constant = none;
}

abbrev raw_commands : List (RawCommand CommandConfiguration)
raw_commands =
    record { id = "c3"; order = pos 3; cfg = drop_local }
    ∷ record { id = "c1"; order = pos 1; cfg = set_local }
    ∷ record { id = ""; order = pos 0; cfg = publish_both }
    ∷ []

abbrev global_definition : PlannedDefinition
global_definition = record {
  definition_id = "d0";
  command_id = "c0";
  command_order = pos 7;
  section_type = before_all;
  name = "order";
  context_scope = "global";
  value_type = "json";
  deleted_at_order = none;
}

abbrev visible : Definitions
visible = ("d0", global_definition) ∷ []

abbrev local_definition : PlannedDefinition
local_definition = record {
  definition_id = "d1";
  command_id = "c1";
  command_order = pos 1;
  section_type = test;
  name = "order";
  context_scope = "local";
  value_type = "json";
  deleted_at_order = none;
}

abbrev result_definition : PlannedDefinition
result_definition = record {
  definition_id = "d2";
  command_id = "new";
  command_order = pos 3;
  section_type = test;
  name = "sent";
  context_scope = "result";
  value_type = "json";
  deleted_at_order = none;
}

-- The third command has no order and takes its position, after the one that deletes.
deleted_first :
    plan_definitions_for_commands new_id as_it_is raw_commands test visible
    ≡ err "Constant reference 'd1' is not visible for command 'sendMessageQueue'."
unfolding plan_definitions_for_commands sort plan_command definition_refs validate_ref_visibility
    check_refs active_definitions carry_over_visible_map lookup insert validate_declarations
    planned_declarations check_declarations validate_duplicate_name add_definitions is_space
deleted_first = refl

abbrev in_order : List (RawCommand CommandConfiguration)
in_order =
    record { id = "c4"; order = pos 4; cfg = drop_local }
    ∷ record { id = "c1"; order = pos 1; cfg = set_local }
    ∷ record { id = ""; order = pos 0; cfg = publish_both }
    ∷ []

abbrev test_plan : Planned
test_plan = (
  local_definition ∷ result_definition ∷ [],
  ("d0", record global_definition { command_order = pos 0 })
      ∷ ("d1", record local_definition { deleted_at_order = some (pos 4) })
      ∷ ("d2", result_definition)
      ∷ [],
)

planned : plan_definitions_for_commands new_id as_it_is in_order test visible ≡ ok test_plan
unfolding plan_definitions_for_commands sort plan_command definition_refs validate_ref_visibility
    check_refs active_definitions carry_over_visible_map lookup insert validate_declarations
    planned_declarations check_declarations validate_duplicate_name add_definitions is_space
planned = refl

visible_once : UniqueNames visible
unfolding lookup
visible_once i j d e fi fj _ _ _ _ = ground (arith, eq_iff "d0" i, eq_iff "d0" j)

abbrev at_start : Live
at_start id = if "d0" == id then some "global" else none

visible_live : Holds at_start visible
unfolding lookup
visible_live id d found on = elim (Bool-cases ("d0" == id)) [
  | inl same ↦ rw same (
      ap (λ (x : PlannedDefinition). some x.context_scope)
        (some-injective global_definition d (rw same at found)))
  | inr ne ↦ absurd (none-ne-some d (rw ne at found))
]

visible-Distinct : Distinct visible
unfolding lookup
visible-Distinct = (refl, tt)

plan_definitions_for_commands-UniqueNames_example : UniqueNames test_plan.1
plan_definitions_for_commands-UniqueNames_example =
    plan_definitions_for_commands-UniqueNames new_id as_it_is in_order test visible test_plan
      visible-Distinct visible_once (omega arith) planned

plan_definitions_for_commands-guard_root_example :
    All (λ (d : PlannedDefinition). guard_root test_context d.context_scope ≡ ok tt) test_plan.0
plan_definitions_for_commands-guard_root_example =
    plan_definitions_for_commands-guard_root new_id as_it_is in_order visible test_plan test_context
      planned

plan_definitions_for_commands-IsScoped_example :
    IsScoped as_it_is test at_start (sort comes_before (command_inputs new_id 1 in_order))
plan_definitions_for_commands-IsScoped_example =
    plan_definitions_for_commands-IsScoped new_id as_it_is in_order test visible at_start test_plan
      visible-Distinct visible_once (omega arith) visible_live planned

abbrev sent_suite : SuiteDto CommandConfiguration
sent_suite = record {
  tests =
      record {
        hook_phase = "";
        commands =
            record { order = pos 1; cfg = set_local }
            ∷ record { order = pos 0; cfg = drop_local }
            ∷ [];
      }
      ∷ [];
  hooks = record { hook_phase = " before-all "; commands = [] } ∷ [];
}

abbrev stored_items : List SuiteItemEntity
stored_items =
    record { id = "h"; hook_phase = "before-all" } ∷ record { id = "t"; hook_phase = "" } ∷ []

abbrev stored_operations : String → List (OperationEntity CommandConfiguration)
stored_operations id =
    if id == "t"
    then record { id = "o1"; order = pos 1; configuration_json = set_local }
      ∷ record { id = "o2"; order = pos 2; configuration_json = drop_local }
      ∷ []
    else []

abbrev no_text : ℤ → String
no_text n = "n"

abbrev other_row : DefinitionEntity
other_row =
    definition_entity
      (record {
        owner_type = "suite";
        suite_id = some "s2";
        suite_item_id = none;
        mock_server_api_id = none;
        mock_server_queue_id = none;
      })
      global_definition
