-- ===== src/Policy/Contracts.antt =====
-- app/elaborations/services/operations/command_contract_registry.py, with the enumerations of
-- app/elaborations/models/dtos/configuration_command_dto.py and the scope names of
-- app/elaborations/services/operations/command_scope.py.
use qsmith.Prelude.{String, Bool, true, false, Option, List, [], ◌∷◌, ◌++◌}
use qsmith.Prelude.Dict.{Dict, lookup}
use qsmith.Prelude.Text.{strip}

pub data CommandType : Type 0 where
  context action assert : CommandType

abbrev pub type_value : CommandType → String
type_value context = "context"
type_value action = "action"
type_value assert = "assert"

pub data CommandCode : Type 0 where
  init_constant delete_constant sleep send_message_queue save_table drop_table clean_table :
      CommandCode
  export_dataset drop_dataset clean_dataset run_suite json_equals json_empty json_not_empty :
      CommandCode
  json_contains json_array_equals json_array_empty json_array_not_empty json_array_contains :
      CommandCode

abbrev pub code_value : CommandCode → String
code_value init_constant = "initConstant"
code_value delete_constant = "deleteConstant"
code_value sleep = "sleep"
code_value send_message_queue = "sendMessageQueue"
code_value save_table = "saveTable"
code_value drop_table = "dropTable"
code_value clean_table = "cleanTable"
code_value export_dataset = "exportDataset"
code_value drop_dataset = "dropDataset"
code_value clean_dataset = "cleanDataset"
code_value run_suite = "runSuite"
code_value json_equals = "jsonEquals"
code_value json_empty = "jsonEmpty"
code_value json_not_empty = "jsonNotEmpty"
code_value json_contains = "jsonContains"
code_value json_array_equals = "jsonArrayEquals"
code_value json_array_empty = "jsonArrayEmpty"
code_value json_array_not_empty = "jsonArrayNotEmpty"
code_value json_array_contains = "jsonArrayContains"

pub data Scope : Type 0 where
  test before_all before_each after_each after_all mock_pre_response mock_response : Scope
  mock_post_response : Scope

abbrev pub scope_value : Scope → String
scope_value test = "test"
scope_value before_all = "hook.beforeAll"
scope_value before_each = "hook.beforeEach"
scope_value after_each = "hook.afterEach"
scope_value after_all = "hook.afterAll"
scope_value mock_pre_response = "mock.preResponse"
scope_value mock_response = "mock.response"
scope_value mock_post_response = "mock.postResponse"

pub record OperationContract : Type 0 where
  pub family : String
  pub name : String
  pub supported_scopes : List String
  pub reads_from : List String
  pub writes_to : List String
  pub produces_result : Bool
  pub side_effects : Bool
  pub async_allowed : Bool
  pub failure_mode : String

abbrev hook_scopes : List String
hook_scopes =
    scope_value before_all
    ∷ scope_value before_each
    ∷ scope_value after_each
    ∷ scope_value after_all
    ∷ []

abbrev hook_and_test_scopes : List String
hook_and_test_scopes = scope_value test ∷ hook_scopes

abbrev post_response_scopes : List String
post_response_scopes = scope_value test ∷ (hook_scopes ++ (scope_value mock_post_response ∷ []))

abbrev reads_all : List String
reads_all = "runEnvelope" ∷ "global" ∷ "local" ∷ []

abbrev entry :
    CommandType
    → CommandCode
    → List String
    → List String
    → List String
    → Bool
    → Bool
    → OperationContract
entry family code scopes reads writes side_effects async_allowed = record {
  family = type_value family;
  name = code_value code;
  supported_scopes = scopes;
  reads_from = reads;
  writes_to = writes;
  produces_result = true;
  side_effects = side_effects;
  async_allowed = async_allowed;
  failure_mode = "fail-fast";
}

abbrev action_entry : CommandCode → List String → OperationContract
action_entry code reads = entry action code post_response_scopes reads ("result" ∷ []) true true

abbrev assert_entry : CommandCode → OperationContract
assert_entry code =
    entry assert code (scope_value test ∷ scope_value mock_pre_response ∷ [])
      ("runEnvelope" ∷ "global" ∷ "local" ∷ "result" ∷ []) ("result" ∷ []) false false

-- The entries of `_CONTRACTS` for the context commands and `sleep`.
abbrev pub context_contracts : Dict OperationContract
context_contracts =
    (
      code_value init_constant,
      entry context init_constant
          (scope_value test ∷ (hook_scopes ++ (scope_value mock_pre_response ∷ []))) reads_all
          ("runEnvelope" ∷ "global" ∷ "local" ∷ "result" ∷ []) false false,
    )
    ∷ (
      code_value delete_constant,
      entry context delete_constant hook_and_test_scopes reads_all
          ("global" ∷ "local" ∷ "result" ∷ []) false false,
    )
    ∷ (
      code_value sleep,
      entry action sleep hook_and_test_scopes ("local" ∷ []) ("result" ∷ []) false false,
    )
    ∷ []

-- The entries for the other actions.
abbrev pub action_contracts : Dict OperationContract
action_contracts =
    (code_value send_message_queue, action_entry send_message_queue reads_all)
    ∷ (code_value save_table, action_entry save_table reads_all)
    ∷ (code_value drop_table, action_entry drop_table [])
    ∷ (code_value clean_table, action_entry clean_table [])
    ∷ (code_value export_dataset, action_entry export_dataset reads_all)
    ∷ (code_value drop_dataset, action_entry drop_dataset [])
    ∷ (code_value clean_dataset, action_entry clean_dataset [])
    ∷ (code_value run_suite, action_entry run_suite reads_all)
    ∷ []

-- The entries for the asserts.
abbrev pub assert_contracts : Dict OperationContract
assert_contracts =
    (code_value json_equals, assert_entry json_equals)
    ∷ (code_value json_empty, assert_entry json_empty)
    ∷ (code_value json_not_empty, assert_entry json_not_empty)
    ∷ (code_value json_contains, assert_entry json_contains)
    ∷ (code_value json_array_equals, assert_entry json_array_equals)
    ∷ (code_value json_array_empty, assert_entry json_array_empty)
    ∷ (code_value json_array_not_empty, assert_entry json_array_not_empty)
    ∷ (code_value json_array_contains, assert_entry json_array_contains)
    ∷ []

-- `_CONTRACTS`
abbrev pub contracts : Dict OperationContract
contracts = context_contracts ++ (action_contracts ++ assert_contracts)

unfoldable pub get_operation_contract : String → Option OperationContract
unfolding strip
get_operation_contract operation_type = lookup (strip operation_type) contracts
