-- ===== src/Constants/Tables.antt =====
-- The sections of suites and mock servers, and what each may read and write: the tables of
-- app/elaborations/services/constants/command_constant_definition_registry.py.
use qsmith.Prelude.{String, Option, none, some, List, [], ◌∷◌}
use qsmith.Prelude.Dict.{Dict}
use qsmith.Policy.Contracts.{
  code_value, send_message_queue, save_table, export_dataset, run_suite, sleep, json_equals,
  json_empty, json_not_empty, json_contains, json_array_equals, json_array_empty,
  json_array_not_empty, json_array_contains, scope_value,
}
use qsmith.Policy.Contracts

pub data Section : Type 0 where
  test before_all before_each after_each after_all : Section
  pre_response post_response queue : Section

abbrev pub section_value : Section → String
section_value test = "test"
section_value before_all = "beforeAll"
section_value before_each = "beforeEach"
section_value after_each = "afterEach"
section_value after_all = "afterAll"
section_value pre_response = "mock.preResponse"
section_value post_response = "mock.postResponse"
section_value queue = "mock.queue"

pub data ConstantContext : Type 0 where
  run_envelope global local result : ConstantContext

abbrev pub context_value : ConstantContext → String
context_value run_envelope = "runEnvelope"
context_value global = "global"
context_value local = "local"
context_value result = "result"

pub data ConstantSourceType : Type 0 where
  raw json json_array dataset sqs_queue : ConstantSourceType

abbrev pub source_value : ConstantSourceType → String
source_value raw = "raw"
source_value json = "json"
source_value json_array = "jsonArray"
source_value dataset = "dataset"
source_value sqs_queue = "sqsQueue"

abbrev pub all_scopes : List String
all_scopes =
    context_value run_envelope
    ∷ context_value global
    ∷ context_value local
    ∷ context_value result
    ∷ []

-- `_READABLE_SCOPES`
abbrev pub readable_scopes : Section → List String
readable_scopes before_all = context_value run_envelope ∷ context_value result ∷ []
readable_scopes before_each =
    context_value run_envelope ∷ context_value global ∷ context_value result ∷ []
readable_scopes test = all_scopes
readable_scopes after_each = all_scopes
readable_scopes after_all =
    context_value run_envelope ∷ context_value global ∷ context_value result ∷ []
readable_scopes pre_response = context_value run_envelope ∷ context_value result ∷ []
readable_scopes post_response = context_value run_envelope ∷ context_value result ∷ []
readable_scopes queue = context_value run_envelope ∷ context_value result ∷ []

-- `_WRITABLE_SCOPES`
abbrev pub writable_scopes : Section → List String
writable_scopes before_all = context_value global ∷ context_value result ∷ []
writable_scopes before_each = context_value local ∷ context_value result ∷ []
writable_scopes test = context_value local ∷ context_value result ∷ []
writable_scopes after_each = context_value local ∷ context_value result ∷ []
writable_scopes after_all = context_value global ∷ context_value result ∷ []
writable_scopes pre_response = context_value run_envelope ∷ context_value result ∷ []
writable_scopes post_response = context_value result ∷ []
writable_scopes queue = context_value result ∷ []

abbrev data_types : List String
data_types = source_value json ∷ source_value json_array ∷ source_value dataset ∷ []

abbrev json_types : List String
json_types = source_value json ∷ source_value raw ∷ []

abbrev array_types : List String
array_types = source_value json_array ∷ []

-- `_TYPE_COMPATIBILITY`
abbrev pub type_compatibility : Dict (List String)
type_compatibility =
    (code_value send_message_queue, source_value raw ∷ data_types)
    ∷ (code_value save_table, data_types)
    ∷ (code_value export_dataset, data_types)
    ∷ (code_value json_equals, json_types)
    ∷ (code_value json_empty, json_types)
    ∷ (code_value json_not_empty, json_types)
    ∷ (code_value json_contains, json_types)
    ∷ (code_value json_array_equals, array_types)
    ∷ (code_value json_array_empty, array_types)
    ∷ (code_value json_array_not_empty, array_types)
    ∷ (code_value json_array_contains, array_types)
    ∷ []

-- `_RESULT_TYPE_BY_COMMAND`
abbrev pub result_type_by_command : Dict String
result_type_by_command =
    (code_value send_message_queue, source_value json)
    ∷ (code_value save_table, source_value json)
    ∷ (code_value export_dataset, source_value json)
    ∷ (code_value run_suite, source_value json)
    ∷ (code_value sleep, source_value json)
    ∷ (code_value json_equals, source_value json)
    ∷ (code_value json_empty, source_value json)
    ∷ (code_value json_not_empty, source_value json)
    ∷ (code_value json_contains, source_value json)
    ∷ (code_value json_array_equals, source_value json)
    ∷ (code_value json_array_empty, source_value json)
    ∷ (code_value json_array_not_empty, source_value json)
    ∷ (code_value json_array_contains, source_value json)
    ∷ []

-- `resolve_execution_scope_for_section`; a queue's commands have no scope in the table.
abbrev pub resolve_execution_scope_for_section : Section → Option String
resolve_execution_scope_for_section before_all = some (scope_value Contracts.before_all)
resolve_execution_scope_for_section before_each = some (scope_value Contracts.before_each)
resolve_execution_scope_for_section test = some (scope_value Contracts.test)
resolve_execution_scope_for_section after_each = some (scope_value Contracts.after_each)
resolve_execution_scope_for_section after_all = some (scope_value Contracts.after_all)
resolve_execution_scope_for_section pre_response = some (scope_value Contracts.mock_pre_response)
resolve_execution_scope_for_section post_response = some (scope_value Contracts.mock_post_response)
resolve_execution_scope_for_section queue = none
