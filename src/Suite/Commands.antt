-- ===== src/Suite/Commands.antt =====
-- `execute_operations` of app/elaborations/services/operations/command_executor_composite.py, and
-- app/elaborations/services/operations/command_scope.py.
use qsmith.Prelude.{
  ℕ, String, Bool, not, ◌&&◌, Option, none, some, List, [], ◌∷◌, ◌++◌, Outcome, ok, err, Exec,
  length, ◌==◌, if◌then◌else◌,
}
use qsmith.Prelude.Dict.{Dict, lookup}
use qsmith.Prelude.Text.{strip, is_empty, lower}
use qsmith.Memory.{Value}
use qsmith.Context.State.{RunContext}
use qsmith.Policy.{Configuration, validate_operation_policy}
use qsmith.Policy.Contracts.{
  OperationContract, scope_value, test, before_all, before_each, after_each, after_all,
}
use qsmith.Suite.State.{
  System, Command, CommandExecution, Event, command_finished, update_at, finish_command,
  publish_event,
}

-- `str(value or "").strip()`
abbrev pub stripped : Option String → String
stripped none = ""
stripped (some s) = strip s

unfoldable pub normalize_scope : Option String → Option String
unfolding strip
normalize_scope scope =
    let normalized = stripped scope in if is_empty normalized then none else some normalized

abbrev pub hook_phase_to_scope : Dict String
hook_phase_to_scope =
    ("before-all", scope_value before_all)
    ∷ ("before-each", scope_value before_each)
    ∷ ("after-each", scope_value after_each)
    ∷ ("after-all", scope_value after_all)
    ∷ []

abbrev pub scope_of_context : RunContext → Option String
scope_of_context c =
    let item_kind = lower (strip c.current_item_kind) in
    if item_kind == "test"
    then some (scope_value test)
    else if item_kind == "hook"
    then lookup (lower (stripped c.current_hook_phase)) hook_phase_to_scope
    else none

abbrev pub scope_of_bound : Option RunContext → Option String
scope_of_bound none = none
scope_of_bound (some c) = scope_of_context c

abbrev pub or_bound : Option String → Option RunContext → Option String
or_bound (some scope) c = some scope
or_bound none c = scope_of_bound c

unfoldable pub resolve_execution_scope : Option String → Option RunContext → Option String
unfolding normalize_scope lower
resolve_execution_scope explicit c = or_bound (normalize_scope explicit) c

-- `ExecutionResultDto`
pub record ExecutionResult : Type 0 where
  pub data_value : Value
  pub results : List Value

abbrev pub extend : ExecutionResult → ExecutionResult → ExecutionResult
extend old new = record { data_value = new.data_value; results = old.results ++ new.results }

abbrev pub is_given : Option String → Bool
is_given v = not (is_empty (stripped v))

-- The numbers of the rows that were inserted for a command.
pub record CommandRows : Type 0 where
  pub test_row : Option ℕ
  pub item_row : Option ℕ

abbrev pub running_command : Command → CommandExecution
running_command c = record { command_id = c.id; status = "running"; error_message = none }

unfoldable pub insert_rows : Command → System → CommandRows × System
insert_rows c s =
    let v = s.variables in
    let in_test = is_given v.suite_execution_id && is_given v.suite_test_execution_id in
    let in_item = is_given v.test_suite_execution_id && is_given v.suite_item_execution_id in
    (
      record {
        test_row = (if in_test then some (length s.test_command_executions) else none);
        item_row = (if in_item then some (length s.item_command_executions) else none);
      },
      record s {
        test_command_executions =
            (if in_test
              then s.test_command_executions ++ (running_command c ∷ [])
              else s.test_command_executions);
        item_command_executions =
            (if in_item
              then s.item_command_executions ++ (running_command c ∷ [])
              else s.item_command_executions);
      },
    )

abbrev pub finish_row :
    String → Option String → Option ℕ → List CommandExecution → List CommandExecution
finish_row status error none rows = rows
finish_row status error (some n) rows = update_at (finish_command status error) n rows

abbrev pub publish_in : Option String → Event → System → System
publish_in none event s = s
publish_in (some execution_id) event s = publish_event execution_id event s

-- What follows a command, in both branches of the `try`.
unfoldable pub finish : Command → CommandRows → String → Option String → System → System
unfolding update_at
finish c rows status error s =
    publish_in s.variables.execution_id (command_finished c.id status error) (record s {
      test_command_executions = finish_row status error rows.test_row s.test_command_executions;
      item_command_executions = finish_row status error rows.item_row s.item_command_executions;
    })

-- `execute` is the executor of a command: it takes the command's identifier, its configuration
-- and the data so far.
module _ (execute : String → Configuration → Value → Exec System ExecutionResult) where
  abbrev pub policed :
      Command → Configuration → Value → Outcome OperationContract → Exec System ExecutionResult
  policed c cfg data_value (err message) s = (err message, s)
  policed c cfg data_value (ok contract) s = execute c.id cfg data_value s

  abbrev pub finished :
      Command → CommandRows → Outcome ExecutionResult × System → Outcome ExecutionResult × System
  finished c rows (ok new, s) = (ok new, finish c rows "success" none s)
  finished c rows (err message, s) = (err message, finish c rows "error" (some message) s)

  -- The configuration is read before the `try`.
  abbrev pub run_configured :
      Option String
      → Command
      → Value
      → CommandRows
      → Outcome Configuration
      → Exec System ExecutionResult
  run_configured scope c data_value rows (err message) s = (err message, s)
  run_configured scope c data_value rows (ok cfg) s =
      finished c rows (policed c cfg data_value (validate_operation_policy cfg scope) s)

  unfoldable pub run_command : Option String → Command → Value → Exec System ExecutionResult
  unfolding insert_rows finish
  run_command scope c data_value s =
      let (rows, s1) = insert_rows c s in run_configured scope c data_value rows c.configuration s1

  abbrev pub go_on :
      (ExecutionResult → Exec System ExecutionResult)
      → ExecutionResult
      → Outcome ExecutionResult × System
      → Outcome ExecutionResult × System
  go_on later so_far (err message, s) = (err message, s)
  go_on later so_far (ok new, s) = later (extend so_far new) s

  -- The loop: the first command that raises ends it.
  unfoldable pub run_commands :
      Option String → List Command → ExecutionResult → Exec System ExecutionResult
  unfolding run_command
  run_commands scope [] so_far s = (ok so_far, s)
  run_commands scope (c ∷ cs) so_far s =
      go_on (run_commands scope cs) so_far (run_command scope c so_far.data_value s)

  unfoldable pub execute_operations :
      List Command → Value → Option String → Exec System ExecutionResult
  unfolding run_commands resolve_execution_scope
  execute_operations cs data_value explicit s =
      run_commands (resolve_execution_scope explicit s.world.context) cs
        (record { data_value = data_value; results = [] }) s
