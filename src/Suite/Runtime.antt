-- ===== src/Suite/Runtime.antt =====
-- app/elaborations/services/suite_runs/execution_runtime_context.py, and the bindings of the run
-- context around a part of an execution.
use qsmith.Prelude.{String, Option, none, some, Exec}
use qsmith.Memory.{Value, ref, get_key}
use qsmith.Context.State.{RunContext}
use qsmith.Context.Vars.{enter_item, leave_item, with_context}
use qsmith.Suite.State.{Variables, System}

abbrev or_kept : Option String → Option String → Option String
or_kept none old = old
or_kept (some v) old = some v

-- The variables for which a value is given are set.
unfoldable pub set_variables : Variables → Variables → Variables
set_variables given old = record {
  execution_id = or_kept given.execution_id old.execution_id;
  suite_id = or_kept given.suite_id old.suite_id;
  suite_test_id = or_kept given.suite_test_id old.suite_test_id;
  suite_execution_id = or_kept given.suite_execution_id old.suite_execution_id;
  suite_test_execution_id = or_kept given.suite_test_execution_id old.suite_test_execution_id;
  test_suite_id = or_kept given.test_suite_id old.test_suite_id;
  suite_item_id = or_kept given.suite_item_id old.suite_item_id;
  test_suite_execution_id = or_kept given.test_suite_execution_id old.test_suite_execution_id;
  suite_item_execution_id = or_kept given.suite_item_execution_id old.suite_item_execution_id;
}

abbrev reset_one : Option String → Option String → Option String → Option String
reset_one none before after = after
reset_one (some _) before after = before

-- The variables that were set have the values from before again.
unfoldable pub reset_variables : Variables → Variables → Variables → Variables
reset_variables given before after = record {
  execution_id = reset_one given.execution_id before.execution_id after.execution_id;
  suite_id = reset_one given.suite_id before.suite_id after.suite_id;
  suite_test_id = reset_one given.suite_test_id before.suite_test_id after.suite_test_id;
  suite_execution_id =
      reset_one given.suite_execution_id before.suite_execution_id after.suite_execution_id;
  suite_test_execution_id =
      reset_one given.suite_test_execution_id before.suite_test_execution_id
        after.suite_test_execution_id;
  test_suite_id = reset_one given.test_suite_id before.test_suite_id after.test_suite_id;
  suite_item_id = reset_one given.suite_item_id before.suite_item_id after.suite_item_id;
  test_suite_execution_id =
      reset_one given.test_suite_execution_id before.test_suite_execution_id
        after.test_suite_execution_id;
  suite_item_execution_id =
      reset_one given.suite_item_execution_id before.suite_item_execution_id
        after.suite_item_execution_id;
}

unfoldable pub bind_execution_context : {A : Type 0} → Variables → Exec System A → Exec System A
unfolding set_variables reset_variables
bind_execution_context given body s =
    let (r, s') = body (record s { variables = set_variables given s.variables }) in
    (r, record s' { variables = reset_variables given s.variables s'.variables })

-- `bind_run_context`
unfoldable pub bind_context : {A : Type 0} → RunContext → Exec System A → Exec System A
bind_context c body s =
    let (r, s') = body (record s { world = record s.world { context = some c } }) in
    (r, record s' { world = record s'.world { context = s.world.context } })

abbrev pub bind_item_of :
    {A : Type 0}
    → String
    → Option String
    → Option Value
    → Exec System A
    → Option RunContext
    → Exec System A
bind_item_of kind phase vars body none s = body s
bind_item_of kind phase vars body (some c) s =
    let constants = get_key s.world.heap (ref c.local_scope) "constants" in
    let (r, s') =
      body (record s { world = with_context (enter_item kind phase vars) (some c) s.world }) in
    (r, record s' { world = with_context (leave_item c constants) s'.world.context s'.world })

-- `bind_suite_item_context`
unfoldable pub bind_item_context :
    {A : Type 0} → String → Option String → Option Value → Exec System A → Exec System A
bind_item_context kind phase vars body s = bind_item_of kind phase vars body s.world.context s
