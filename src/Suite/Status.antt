-- ===== src/Suite/Status.antt =====
-- What an execution of a suite leaves in the database.
use qsmith.Prelude.{
  ℕ, String, ◌≡◌, refl, true, Option, none, some, List, [], ◌∷◌, ◌++◌, ok, Exec, length, get_elem?,
  get_elem?-append_length, any, all, if◌then◌else◌,
}
use qsmith.Memory.{Value}
use qsmith.Policy.{Configuration}
use qsmith.Suite.State.{System, SuiteItem, SuiteExecution, finish_suite}
use qsmith.Suite.Runtime.{bind_context, bind_execution_context}
use qsmith.Suite.Commands.{ExecutionResult}
use qsmith.Suite.Rows.{update_at-append_length}
use qsmith.Suite.Run.{
  ExecutionInput, Hooks, Running, run_suite, close_suite, execute_suite, resolve_tests_to_execute,
  status_of, error_of, running_suite,
}
use qsmith.Suite.Stops.{IsComplete, run_items-IsComplete}
use qsmith.Suite.Outcomes.{
  IsLogged, IsRowless, IsNumbered, is_closed, is_failed, run_items-IsLogged,
}

abbrev pub status_of_row : Option SuiteExecution → Option String
status_of_row none = none
status_of_row (some row) = some row.status

-- What is said of the rows after an execution of these tests whose own row has the number `n`.
abbrev pub IsReported : Hooks → List SuiteItem → ℕ → System → Type 0
IsReported hooks tests n s =
    (all is_closed s.item_executions ≡ true)
    × IsNumbered 1 s.item_executions
    × (status_of_row (get_elem? s.suite_executions n)
        ≡ some (if any is_failed s.item_executions then "error" else "success"))
    × IsComplete hooks tests s.item_executions

module _ (execute : String → Configuration → Value → Exec System ExecutionResult)
    (row_id : ℕ → String) (execution_id : String) (hooks : Hooks) where
  close_suite-IsReported :
      (suites : List SuiteExecution) (row : SuiteExecution) (tests : List SuiteItem) (run : Running)
      → IsLogged (suites ++ (row ∷ [])) run
      → IsComplete hooks tests run.1.item_executions
      → IsReported hooks tests
          (length suites)
          (close_suite execute row_id execution_id hooks (length suites) run)
  unfolding close_suite
  close_suite-IsReported suites row tests (p, s) l complete =
      let close =
        finish_suite (status_of execute row_id execution_id hooks p)
          (error_of execute row_id execution_id hooks p) in
      (
        l.closed,
        l.numbered,
        rw l.kept (
            rw (update_at-append_length close suites row)
              (rw (get_elem?-append_length suites (close row)) (rw l.failed refl))),
        complete,
      )

  run_suite-IsReported :
      (test_suite_id : String) (tests : List SuiteItem) (suites : List SuiteExecution)
      (row : SuiteExecution) (s : System)
      → IsRowless execute
      → s.item_executions ≡ []
      → s.suite_executions ≡ suites ++ (row ∷ [])
      → IsReported hooks tests
          (length suites)
          (run_suite execute row_id execution_id hooks test_suite_id (length suites) tests s).1
  unfolding run_suite
  run_suite-IsReported test_suite_id tests suites row s keeps fresh kept =
      close_suite-IsReported suites row tests _
        (run_items-IsLogged execute row_id execution_id hooks keeps (suites ++ (row ∷ [])) tests _
          fresh kept)
        (run_items-IsComplete execute row_id execution_id hooks keeps tests _ fresh)

-- Once the tests of a suite are chosen, its execution ends with a report. The rows of the items are
-- numbered from 1, none of them is still running, and the suite's own row has the status `error` if
-- one of them has it, and `success` if none has. The items that have a row are, in this order, the
-- hook before all, the chosen tests up to one of them, each between the hooks before and after
-- each, and the hook after all; a hook that the suite lacks is left out. They are all the chosen
-- tests, unless one of the rows has the status `error` and either no test has a row or one of those
-- that have stands to abort the suite. There were no rows of the execution before, and the executors
-- of commands leave them alone.
pub execute_suite-IsReported :
    (execute : String → Configuration → Value → Exec System ExecutionResult)
    (row_id suite_row_id : ℕ → String) (input : ExecutionInput) (hooks : Hooks)
    (tests chosen : List SuiteItem) (s : System)
    → IsRowless execute
    → s.item_executions ≡ []
    → resolve_tests_to_execute tests input.target_suite_item_id ≡ ok chosen
    → IsReported hooks chosen
        (length s.suite_executions)
        (execute_suite execute row_id suite_row_id input hooks tests s).1
unfolding execute_suite bind_context bind_execution_context
execute_suite-IsReported execute row_id suite_row_id input hooks tests chosen s keeps fresh
      resolved =
    rw resolved (
      run_suite-IsReported execute row_id input.execution_id hooks input.test_suite_id chosen
        s.suite_executions (running_suite input) _ keeps fresh refl)
