-- ===== src/Suite/Items.antt =====
-- One item of a suite: app/elaborations/services/test_suites/suite_item_executor.py, and
-- `_execute_item` of test_suite_executor_thread.py.
use qsmith.Prelude.{
  ℕ, String, Option, none, some, List, [], ◌∷◌, ◌++◌, Outcome, ok, err, Exec, length, ◌==◌,
  if◌then◌else◌,
}
use qsmith.Prelude.Text.{strip, lower}
use qsmith.Memory.{Value, ref, empty_list}
use qsmith.Context.State.{push, strip_or_none}
use qsmith.Context.Vars.{set_context_last}
use qsmith.Policy.{Configuration}
use qsmith.Policy.Contracts.{scope_value, test, before_all, before_each, after_each, after_all}
use qsmith.Suite.State.{
  no_variables, System, SuiteItem, ItemExecution, item_started, item_finished, update_at,
  finish_item, publish_event,
}
use qsmith.Suite.Runtime.{bind_execution_context, bind_item_context}
use qsmith.Suite.Commands.{ExecutionResult, execute_operations, stripped}

unfoldable pub resolve_suite_item_scope : SuiteItem → Option String
unfolding strip lower
resolve_suite_item_scope item =
    let phase = lower (stripped item.hook_phase) in
    if lower (strip item.kind) == "test"
    then some (scope_value test)
    else if phase == "before-all"
    then some (scope_value before_all)
    else if phase == "before-each"
    then some (scope_value before_each)
    else if phase == "after-each"
    then some (scope_value after_each)
    else if phase == "after-all"
    then some (scope_value after_all)
    else none

abbrev pub set_last_in : String → Value → System → System
set_last_in item_id v s = record s { world = set_context_last item_id v s.world }

abbrev pub with_last : String → Outcome ExecutionResult × System → Outcome (List Value) × System
with_last item_id (err message, s) = (err message, s)
with_last item_id (ok result, s) = (ok result.results, set_last_in item_id result.data_value s)

abbrev pub running_item : SuiteItem → ℕ → ItemExecution
running_item item position = record {
  suite_item_id = item.id;
  item_kind = item.kind;
  hook_phase = strip_or_none item.hook_phase;
  position = position;
  status = "running";
  error_message = none;
}

abbrev pub prefix_of : SuiteItem → String
prefix_of item = if item.kind == "hook" then "hook" else "test"

abbrev pub insert_item : SuiteItem → ℕ → System → System
insert_item item position s = record s {
  item_executions = s.item_executions ++ (running_item item position ∷ []);
}

-- `update` of the item's row, and the event.
abbrev pub close_item : String → SuiteItem → ℕ → String → Option String → System → System
close_item execution_id item n status error s =
    publish_event execution_id (item_finished (prefix_of item) item.id status error)
      (record s { item_executions = update_at (finish_item status error) n s.item_executions })

-- What `_execute_item` answers: `none` is the status `success`.
abbrev pub item_result :
    String → SuiteItem → ℕ → Outcome (List Value) × System → Option String × System
item_result execution_id item n (ok results, s) =
    (none, close_item execution_id item n "success" none s)
item_result execution_id item n (err message, s) =
    (some message, close_item execution_id item n "error" (some message) s)

-- `execute` is the executor of a command, and `row_id` the identifier that the database gives to
-- a new row of the items' executions.
module _ (execute : String → Configuration → Value → Exec System ExecutionResult)
    (row_id : ℕ → String) where
  unfoldable pub execute_suite_item : SuiteItem → Exec System (List Value)
  unfolding resolve_suite_item_scope
  execute_suite_item item s =
      let (data_at, h) = push empty_list s.world.heap in
      with_last item.id (
        bind_execution_context (record no_variables { suite_item_id = some item.id })
          (execute_operations execute item.commands (ref data_at) (resolve_suite_item_scope item))
          (record s { world = record s.world { heap = h } }))

  unfoldable pub run_item : SuiteItem → ℕ → Option Value → Exec System (List Value)
  run_item item n local_vars =
      bind_execution_context
        (record no_variables {
          suite_item_id = some item.id;
          suite_item_execution_id = some (row_id n);
        })
        (bind_item_context item.kind (strip_or_none item.hook_phase) local_vars
          (execute_suite_item item))

  unfoldable pub execute_item :
      String → SuiteItem → ℕ → Option Value → System → Option String × System
  unfolding run_item
  execute_item execution_id item position local_vars s =
      let n = length s.item_executions in
      item_result execution_id item n (
        run_item item n local_vars (
          publish_event execution_id (item_started (prefix_of item) item.id position)
            (insert_item item position s)))
