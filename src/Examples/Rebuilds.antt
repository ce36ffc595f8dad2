-- ===== src/Examples/Rebuilds.antt =====
-- The theorems on the constants of mock servers, at a server with a route and a queue.
use qsmith.Prelude.{
  String, ◌≡◌, refl, Option, none, some, List, [], ◌∷◌, is_ok, true, ◌==◌, if◌then◌else◌,
}
use qsmith.Prelude.Int.{pos}
use qsmith.Prelude.Sort.{sort}
use qsmith.Prelude.Dict.{lookup, insert}
use qsmith.Constants.Plan.{
  plan_definitions_for_commands, validate_ref_visibility, check_refs, definition_refs,
  validate_declarations, check_declarations, planned_declarations, validate_duplicate_name,
  active_definitions, carry_over_visible_map, add_definitions, CommandConfiguration, Kind,
}
use qsmith.Constants.Suites.{OperationEntity, commands_for_item}
use qsmith.Constants.Mocks.{
  PreCommand, MockServerDto, MockApiEntity, MockTables, rebuild_mock_constant_definitions,
}
use qsmith.Examples.Constants.{new_id, as_it_is}

abbrev set_as : String → CommandConfiguration
set_as id = record {
  command_code = "initConstant";
  kind = Kind.init_constant id "order" "result" "json";
  source_constant_ref = none;
  actual_constant_ref = none;
  result_constant = none;
}

abbrev send_result : CommandConfiguration
send_result = record {
  command_code = "sendMessageQueue";
  kind = Kind.other;
  source_constant_ref = some "d3";
  actual_constant_ref = none;
  result_constant = none;
}

abbrev no_command : CommandConfiguration
no_command = record (set_as "") { command_code = ""; kind = Kind.other }

abbrev before_response : List (Option (PreCommand CommandConfiguration))
before_response =
    some (record { id = ""; order = pos 0; cfg = some (set_as "d1"); whole = no_command }) ∷ []

abbrev sent_server : MockServerDto CommandConfiguration
sent_server = record {
  apis =
      record {
        pre_response_commands = before_response;
        commands = record { order = pos 0; cfg = set_as "d2" } ∷ [];
      }
      ∷ [];
  queues =
      (record { order = pos 1; cfg = set_as "d3" }
        ∷ record { order = pos 2; cfg = send_result }
        ∷ [])
      ∷ [];
}

abbrev stored_apis : List (MockApiEntity CommandConfiguration)
stored_apis = record { id = "a1"; pre_response_commands = before_response } ∷ []

abbrev stored_operations : String → List (OperationEntity CommandConfiguration)
stored_operations id =
    if id == "a1"
    then record { id = "c2"; order = pos 1; configuration_json = set_as "d2" } ∷ []
    else record { id = "c3"; order = pos 1; configuration_json = set_as "d3" }
      ∷ record { id = "c4"; order = pos 2; configuration_json = send_result }
      ∷ []

abbrev empty_tables : MockTables CommandConfiguration
empty_tables = record { definitions = []; pre_response_commands = [] }

-- The server is accepted: its rows have different keys.
rebuild-sent_server :
    is_ok
      (rebuild_mock_constant_definitions new_id as_it_is stored_operations stored_operations
        stored_apis
        ("q1" ∷ [])
        empty_tables).0
    ≡ true
unfolding rebuild_mock_constant_definitions plan_definitions_for_commands sort
    validate_ref_visibility check_refs definition_refs validate_declarations check_declarations
    planned_declarations validate_duplicate_name active_definitions carry_over_visible_map
    commands_for_item lookup add_definitions insert
rebuild-sent_server = refl
