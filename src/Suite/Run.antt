-- ===== src/Suite/Run.antt =====
-- `_execute` of test_suite_executor_thread.py: the hooks and the tests of a suite in their order.
use qsmith.Prelude.{
  ℕ, ◌+◌, String, Bool, true, false, ◌&&◌, ◌||◌, Option, none, some, List, [], ◌∷◌, ◌++◌, Outcome,
  ok, err, Exec, length, is_some, ◌==◌, if◌then◌else◌,
}
use qsmith.Prelude.Text.{is_empty, upper, ◌<>◌}
use qsmith.Memory.{Value, ref, empty_dict}
use qsmith.Context.State.{RunContext, push, create_run_context, strip_or_none}
use qsmith.Context.Vars.{reset_local_context}
use qsmith.Policy.{Configuration}
use qsmith.Suite.State.{
  no_variables, System, SuiteItem, SuiteExecution, suite_started, suite_progress, suite_finished,
  update_at, finish_suite, publish_event,
}
use qsmith.Suite.Runtime.{bind_execution_context, bind_context}
use qsmith.Suite.Commands.{ExecutionResult}
use qsmith.Suite.Items.{execute_item}

-- `TestSuiteExecutionInput`; `event` and `vars_init` are dicts, by their addresses
pub record ExecutionInput : Type 0 where
  pub execution_id : String
  pub test_suite_id : String
  pub event : Option ℕ
  pub vars_init : Option ℕ
  pub invocation_id : Option String
  pub target_suite_item_id : Option String

pub record Hooks : Type 0 where
  pub before_all : Option SuiteItem
  pub before_each : Option SuiteItem
  pub after_each : Option SuiteItem
  pub after_all : Option SuiteItem

-- The local variables of `_execute`.
pub record Progress : Type 0 where
  pub executed_tests : ℕ
  pub first_error_message : String
  pub any_error : Bool
  pub execution_position : ℕ

abbrev pub Running : Type 0
Running = Progress × System

abbrev pub no_progress : Progress
no_progress = record {
  executed_tests = 0;
  first_error_message = "";
  any_error = false;
  execution_position = 0;
}

abbrev pub find_test : String → List SuiteItem → Option SuiteItem
find_test target [] = none
find_test target (item ∷ items) = if item.id == target then some item else find_test target items

abbrev pub only : String → Option SuiteItem → Outcome (List SuiteItem)
only target none = err ("Test with id '" <> (target <> "' not found in test suite"))
only target (some item) = ok (item ∷ [])

unfoldable pub resolve_tests_to_execute : List SuiteItem → Option String → Outcome (List SuiteItem)
resolve_tests_to_execute tests none = ok tests
resolve_tests_to_execute tests (some target) =
    if is_empty target then ok tests else only target (find_test target tests)

-- The error of an item, in the variables; the first message stays.
unfoldable pub note : Option String → Progress → Progress
note none p = p
note (some message) p = record p {
  any_error = true;
  first_error_message = (if is_empty p.first_error_message then message else p.first_error_message);
}

abbrev pub is_abort : SuiteItem → Bool
is_abort item = upper item.on_failure == "ABORT"

module _ (execute : String → Configuration → Value → Exec System ExecutionResult)
    (row_id : ℕ → String) (execution_id : String) (hooks : Hooks) where
  -- An item at the next position. The answer tells whether it failed.
  unfoldable pub run_next : SuiteItem → Value → Running → Bool × Running
  unfolding note
  run_next item local_vars (p, s) =
      let position = p.execution_position + 1 in
      let (error, s') =
        execute_item execute row_id execution_id item position (some local_vars) s in
      (is_some error, (note error (record p { execution_position = position }), s'))

  unfoldable pub run_hook : Option SuiteItem → Value → Running → Bool × Running
  unfolding run_next
  run_hook none local_vars (p, s) = (false, (p, s))
  run_hook (some item) local_vars (p, s) = run_next item local_vars (p, s)

  abbrev pub new_dict : System → Value × System
  new_dict s =
      let (a, h) = push empty_dict s.world.heap in
      (ref a, record s { world = record s.world { heap = h } })

  -- A hook with `local_vars={}`
  unfoldable pub run_suite_hook : Option SuiteItem → Running → Running
  unfolding run_hook
  run_suite_hook hook (p, s) = let (vars, s1) = new_dict s in (run_hook hook vars (p, s1)).1

  abbrev pub count_test : ℕ → Running → Running
  count_test total (p, s) =
      let executed = p.executed_tests + 1 in
      (
        record p { executed_tests = executed },
        publish_event execution_id (suite_progress executed total) s,
      )

  -- A round of the loop. The three items share one dict of local variables.
  unfoldable pub run_test : ℕ → SuiteItem → Running → Bool × Running
  unfolding run_hook
  run_test total item (p, s) =
      let (vars, s1) = new_dict s in
      let (before, run1) = run_hook hooks.before_each vars (p, s1) in
      let (failed, run2) = run_next item vars run1 in
      let (after, (p3, s3)) = run_hook hooks.after_each vars (count_test total run2) in
      (before || failed || after, (p3, record s3 { world = reset_local_context s3.world }))

  unfoldable pub run_tests : ℕ → List SuiteItem → Running → Running
  unfolding run_test upper
  run_tests total [] run = run
  run_tests total (item ∷ items) run =
      let (failed, run') = run_test total item run in
      elim (failed && is_abort item) [ true ↦ run' | false ↦ run_tests total items run' ]

  -- The items of an execution, from the hook before all to the hook after all.
  unfoldable pub run_items : List SuiteItem → System → Running
  unfolding run_suite_hook run_tests
  run_items tests s =
      let (p1, s1) = run_suite_hook hooks.before_all (no_progress, s) in
      let run2 : Running = elim p1.any_error [
        | true ↦ (p1, s1)
        | false ↦ run_tests (length tests) tests (p1, s1)
      ] in
      run_suite_hook hooks.after_all run2

  abbrev pub status_of : Progress → String
  status_of p = if p.any_error then "error" else "success"

  abbrev pub error_of : Progress → Option String
  error_of p = if is_empty p.first_error_message then none else some p.first_error_message

  -- `update` of the suite's row, and the event.
  unfoldable pub close_suite : ℕ → Running → System
  close_suite n (p, s) =
      publish_event execution_id (suite_finished (status_of p) (error_of p)) (record s {
        suite_executions = update_at (finish_suite (status_of p) (error_of p)) n s.suite_executions;
      })

  unfoldable pub run_suite : String → ℕ → List SuiteItem → Exec System (Unit {0})
  unfolding run_items close_suite
  run_suite test_suite_id n tests s =
      let s1 = publish_event execution_id (suite_started test_suite_id) s in
      let s2 = publish_event execution_id (suite_progress 0 (length tests)) s1 in
      (ok tt, close_suite n (run_items tests s2))

abbrev pub running_suite : ExecutionInput → SuiteExecution
running_suite input = record {
  test_suite_id = input.test_suite_id;
  status = "running";
  error_message = none;
}

module _ (execute : String → Configuration → Value → Exec System ExecutionResult)
    (row_id suite_row_id : ℕ → String) where
  abbrev pub run_resolved :
      ExecutionInput → Hooks → ℕ → RunContext → Outcome (List SuiteItem) → Exec System (Unit {0})
  run_resolved input hooks n c (err message) s = (err message, s)
  run_resolved input hooks n c (ok tests) s =
      bind_context c
        (bind_execution_context
          (record no_variables {
            execution_id = some input.execution_id;
            test_suite_id = some input.test_suite_id;
            test_suite_execution_id = some (suite_row_id n);
          })
          (run_suite execute row_id input.execution_id hooks input.test_suite_id n tests))
        s

  -- `_execute` of a suite that the database has, with its hooks and its tests
  unfoldable pub execute_suite : ExecutionInput → Hooks → List SuiteItem → Exec System (Unit {0})
  unfolding run_suite resolve_tests_to_execute
  execute_suite input hooks tests s =
      let n = length s.suite_executions in
      let (c, h) =
        create_run_context (suite_row_id n) input.event input.vars_init
          (strip_or_none input.invocation_id) s.world.heap in
      run_resolved input hooks n c (resolve_tests_to_execute tests input.target_suite_item_id)
        (record s {
          suite_executions = s.suite_executions ++ (running_suite input ∷ []);
          world = record s.world { heap = h };
        })
