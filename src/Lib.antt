-- ===== src/Lib.antt =====
-- Verification of Qsmith, a server that runs test suites against queues, databases and mock servers.
--
-- Parts. A suite's items (hooks and tests) run commands. A command reads and writes the run
-- context of the execution, a tree of dicts that all items of a run share: a global scope, a local
-- scope for the item, a result scope and the envelope of the run. References such as
-- `$.local.constants.id` in a command's configuration are resolved against the context. Before a
-- command runs, the validator looks up its contract and asks whether the contract allows the
-- command in its place and with its targets. Mock servers answer requests: a registry holds the
-- servers that run, by identifier and by endpoint, and the dispatcher chooses a server's route.
-- An execution of a suite keeps rows in the database, one for every item and every command, and
-- publishes events on a bus, from which clients read a stream. An assert is a command that compares
-- a constant or the rows of data with what is expected. Before a suite is stored, the planner of
-- constants checks that every reference of a command is to a constant that an earlier command
-- defines in a scope that can be read there. A scheduler polls the stored schedules, and starts the
-- suites of those that are due. A dataset reads a table through a perimeter, which selects
-- columns, filters rows by conditions on values and parameters, and orders them.
--
-- Files.
--   Prelude   lists, dicts, texts, integers, outcomes: what the source uses of Python
--   Memory    dicts and lists as objects on a heap
--   Context   app/elaborations/services/suite_runs/run_context.py
--     Path      _normalize_target_path, _segment_tokens, _path_tokens, extract_context_root, _to_index
--     State     RunContext, create_run_context
--     Assign    _ensure_list_size, _assign_nested_value; Remove: _remove_nested_value
--     Write     _target_from_root, write_context_path, remove_context_path
--     Vars      set_context_var, resolve_constant_value, reset_local_context, set_context_last,
--               append_assert_artifact, bind_run_context, bind_suite_item_context
--     Payload   serialize_run_context, deserialize_run_context
--     Sound     a new context, and bind_suite_item_context
--   Json      JSON values and Python's `==` on them
--   Resolver  app/elaborations/services/suite_runs/run_context_resolver.py, and
--             build_run_context_scope
--   Policy    app/elaborations/services/operations/command_policy_validator.py and
--             command_contract_registry.py beside it
--   Mock      app/mock_servers/services/runtime: mock_server_runtime_registry.py (Registry),
--             mock_runtime_dispatcher.py (Routes; Answers: which route answers a request)
--   Events    app/elaborations/services/suite_runs/execution_event_bus.py
--   Suite     app/elaborations/services/test_suites/test_suite_executor_thread.py (Items, Run),
--             suite_item_executor.py beside it (Items), execution_runtime_context.py of suite_runs
--             (Runtime), and in app/elaborations/services/operations command_executor_composite.py
--             and command_scope.py (Commands)
--   Constants app/elaborations/services/constants/command_constant_definition_registry.py
--     Tables    the sections, their scopes and the types that commands take
--     Plan      plan_definitions_for_commands; Live: which constants are live
--     Suites    validate_suite_constant_graph, rebuild_suite_constant_definitions
--     Mocks     validate_mock_server_constant_graph, rebuild_mock_constant_definitions
--   Scheduler app/elaborations/services/test_suite_schedules/test_suite_scheduler_service.py, and
--             app/elaborations/services/alembic/test_suite_schedule_service.py
--     Tables    the rows and the queries; NextRun: compute_next_run_at; Waiting, Due, Ready and
--               Returns: what a poll does to the schedules
--   Perimeter app/data_sources/services/dataset_perimeter_compiler.py
--     Conditions  the normal form of a filter; Compile: from the normal form to a query;
--                 Resolve: dataset_parameter_resolver.py beside it
--   Asserts   app/elaborations/services/asserts/json_data_assert_evaluators.py
--   Examples  tests, and the theorems at concrete data
--
-- State. A dict or a list of the run context is an object on a heap, and a value refers to it by
-- its address: the local scope holds the global scope itself, not a copy, and a write through one
-- is seen through the other. A function that raises answers an error together with the heap that
-- it leaves, since Python keeps what was done before an exception. The class variables of the
-- registry are a record; its lock makes each method one step. An execution works on a `System`:
-- the run context, the context variables, the bus and the rows. The executors of commands
-- (queues, databases, further suites) are the parameter `execute`. A poll of the scheduler works on
-- the committed tables; a session that raises gives back the tables that it began with. There
-- `execute` is what starts an execution, and `wall` the time that the clock gives during a refresh.
--
-- Bounds and fuel. Numbers are unbounded, as Python's integers are. Every loop is recursion on a
-- list or a text but one: the loop of `_segment_tokens` in the resolver runs on fuel, the length
-- of its text, and a round takes at least one character away.
--
-- Not modelled. Floats in JSON, and digits and letters outside ASCII for `isdigit`, `lower` and
-- `upper`; white space is Unicode's. `str` of a value that is no text is the parameter `show`
-- where the dispatcher compares parameters and headers and where a perimeter is read, and
-- `json.dumps` is the parameter `serialize` of the asserts. A time has no last value. The coercion
-- of a dataset parameter's value (`coerce`, `built_in`) is a parameter too. For the registry of
-- mock servers the database is a function from identifiers to stored servers, and may change between
-- two steps. Of the errors of a database, the repeated key of a constant's definition is modelled,
-- and of those of SQLAlchemy, an ordering against None or a Boolean. Messages of errors lack the
-- values that the source puts in. Threads, logs and the user interface are left out.
pub mod Prelude
pub mod Memory
pub mod Context
pub mod Json
pub mod Resolver
pub mod Policy
pub mod Mock
pub mod Asserts
pub mod Constants
pub mod Events
pub mod Perimeter
pub mod Scheduler
pub mod Suite
pub mod Examples
