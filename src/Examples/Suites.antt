-- ===== src/Examples/Suites.antt =====
-- The theorems on suites and events, at a suite with one hook and two tests.
use qsmith.Prelude.{
  ℕ, ◌+◌, ◌≤◌, arith, ◌++◌, ◌≡◌, refl, String, true, not, ◌&&◌, all, Option, none, some, List, [],
  ◌∷◌, ok, err, is_ok, length, get_elem?, if◌then◌else◌,
}
use qsmith.Prelude.Dict.{lookup, insert}
use qsmith.Prelude.Text.{is_space, strip, upper}
use qsmith.Memory.{null}
use qsmith.Policy.{Configuration, validate_operation_policy}
use qsmith.Events.{event_history_size, Bus, empty_bus, publish, subscribe, history_of}
use qsmith.Events.Reach.{Reach, here, next, published, subscribed, IsBounded, Reach-IsBounded}
use qsmith.Events.Delivery.{addressed, publish_all, subscribe_complete}
use qsmith.Suite.State.{System, SuiteItem, Command, Event, suite_started, no_variables}
use qsmith.Suite.Commands.{ExecutionResult, is_given, run_command, run_commands, running_command}
use qsmith.Suite.Run.{
  ExecutionInput, Hooks, no_progress, run_suite_hook, run_items, execute_suite,
  resolve_tests_to_execute, is_abort,
}
use qsmith.Suite.Outcomes.{IsRowless}
use qsmith.Suite.Status.{IsReported, execute_suite-IsReported}
use qsmith.Suite.Order.{ids, id_of, plan_of, run_items-ids}
use qsmith.Suite.Refusal.{Executor, AgreeWhereAllowed, run_commands-agree, run_command-unreadable}
use qsmith.Examples.Data.{in_hook}

-- An executor that does nothing.
abbrev idle : Executor
idle id cfg v s = (ok (record { data_value = v; results = [] }), s)

-- One that raises at every command.
abbrev sleeping : Executor
sleeping id cfg v s = (err "failed", s)

idle-IsRowless : IsRowless idle
idle-IsRowless id cfg v s = refl

sleeping-IsRowless : IsRowless sleeping
sleeping-IsRowless id cfg v s = refl

abbrev configuration : String → Configuration
configuration code = record {
  command_code = some code;
  target = none;
  context = none;
  name = none;
  result_target = none;
  result_constant = none;
}

abbrev sleep : Command
sleep = record { id = "c1"; configuration = ok (configuration "sleep") }

abbrev unreadable : Command
unreadable = record { id = "c2"; configuration = err "Unsupported command code" }

abbrev test_item : String → SuiteItem
test_item id = record {
  id = id;
  kind = "test";
  hook_phase = none;
  on_failure = "CONTINUE";
  commands = sleep ∷ [];
}

abbrev hooks : Hooks
hooks = record {
  before_all = none;
  before_each = some (record {
    id = "h1";
    kind = "hook";
    hook_phase = some "before-each";
    on_failure = "ABORT";
    commands = [];
  });
  after_each = none;
  after_all = none;
}

abbrev tests : List SuiteItem
tests = test_item "t1" ∷ test_item "t2" ∷ []

abbrev input : Option String → ExecutionInput
input target = record {
  execution_id = "e1";
  test_suite_id = "s1";
  event = none;
  vars_init = none;
  invocation_id = none;
  target_suite_item_id = target;
}

abbrev system : System
system = record {
  world = in_hook;
  variables = no_variables;
  bus = empty_bus;
  suite_executions = [];
  item_executions = [];
  test_command_executions = [];
  item_command_executions = [];
}

abbrev row_id : ℕ → String
row_id n = "r"

target_run : resolve_tests_to_execute tests (some "t2") ≡ ok (test_item "t2" ∷ [])
unfolding resolve_tests_to_execute
target_run = refl

execute_suite-IsReported_example :
    IsReported hooks
      (test_item "t2" ∷ [])
      0
      (execute_suite sleeping row_id row_id (input (some "t2")) hooks tests system).1
execute_suite-IsReported_example =
    execute_suite-IsReported sleeping row_id row_id (input (some "t2")) hooks tests
      (test_item "t2" ∷ []) system sleeping-IsRowless refl target_run

no_aborts : all (λ item. not (is_abort item)) tests ≡ true
unfolding upper
no_aborts = refl

run_items-ids_example :
    let first = run_suite_hook idle row_id "e1" hooks hooks.before_all (no_progress, system) in
    ids (run_items idle row_id "e1" hooks tests system).1.item_executions
    ≡ id_of hooks.before_all
      ++ ((if first.0.any_error then [] else plan_of hooks tests) ++ id_of hooks.after_all)
run_items-ids_example =
    run_items-ids idle row_id "e1" hooks tests system idle-IsRowless refl no_aborts

plan_run : plan_of hooks tests ≡ "h1" ∷ "t1" ∷ "h1" ∷ "t2" ∷ []
plan_run = refl

-- One that raises where the policy does not allow the command in a test.
abbrev strict : Executor
strict id cfg v s =
    if is_ok (validate_operation_policy cfg (some "test"))
    then idle id cfg v s
    else (err "refused", s)

agree : AgreeWhereAllowed (some "test") idle strict
agree id cfg v s allowed = rw allowed refl

abbrev commands : List Command
commands = sleep ∷ record { id = "c3"; configuration = ok (configuration "jsonSort") } ∷ []

abbrev nothing : ExecutionResult
nothing = record { data_value = null; results = [] }

run_commands-agree_example :
    run_commands idle (some "test") commands nothing system
    ≡ run_commands strict (some "test") commands nothing system
run_commands-agree_example =
    run_commands-agree (some "test") idle strict agree commands nothing system

-- The system while an item is executed.
abbrev in_item : System
in_item = record system {
  variables = record no_variables {
    test_suite_execution_id = some "x1";
    suite_item_execution_id = some "y1";
  };
}

item_given :
    (is_given in_item.variables.test_suite_execution_id
      && is_given in_item.variables.suite_item_execution_id)
    ≡ true
unfolding strip is_space
item_given = refl

run_command-unreadable_example :
    let (r, s) = run_command idle (some "test") unreadable null in_item in
    (r ≡ err "Unsupported command code")
    × (get_elem? s.item_command_executions 0 ≡ some (running_command unreadable))
    × (s.bus ≡ in_item.bus)
run_command-unreadable_example =
    run_command-unreadable idle (some "test") unreadable null in_item "Unsupported command code"
      refl item_given

abbrev used_bus : Bus Event
used_bus = publish "e1" (suite_started "s0") (subscribe "e1" empty_bus).1

used_bus-Reach : Reach empty_bus used_bus
used_bus-Reach = next (next here (subscribed "e1")) (published "e1" (suite_started "s0"))

Reach-IsBounded_example : IsBounded used_bus
Reach-IsBounded_example = Reach-IsBounded used_bus used_bus-Reach

abbrev later_events : List (String × Event)
later_events = ("e1", suite_started "s1") ∷ ("e2", suite_started "s2") ∷ []

history_run : history_of used_bus "e1" ≡ suite_started "s0" ∷ []
unfolding publish subscribe lookup insert
history_run = refl

room : length (history_of used_bus "e1") + length (addressed "e1" later_events) ≤ event_history_size
room = rw history_run (omega arith)

subscribe_complete_example :
    let (s, b) = subscribe "e1" used_bus in
    let final = publish_all later_events b in
    (get_elem? final.queues s.queue ≡ some (addressed "e1" later_events))
    × (s.history ++ addressed "e1" later_events ≡ history_of final "e1")
subscribe_complete_example = subscribe_complete "e1" later_events used_bus used_bus-Reach refl room
