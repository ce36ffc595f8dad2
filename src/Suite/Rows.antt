-- ===== src/Suite/Rows.antt =====
-- What one item of a suite leaves in the rows of the items' executions.
use qsmith.Prelude.{
  ℕ, String, ◌≡◌, refl, ◌∙◌, ap, Option, none, some, List, [], ◌∷◌, ◌++◌, Outcome, ok, err, Exec,
  length,
}
use qsmith.Memory.{Value}
use qsmith.Context.State.{RunContext, strip_or_none}
use qsmith.Policy.{Configuration, validate_operation_policy}
use qsmith.Policy.Contracts.{OperationContract}
use qsmith.Suite.State.{
  System, SuiteItem, ItemExecution, SuiteExecution, Command, Event, item_started, update_at,
  finish_item, publish_event,
}
use qsmith.Suite.Runtime.{bind_execution_context, bind_item_context, bind_item_of}
use qsmith.Suite.Commands.{
  ExecutionResult, CommandRows, run_command, run_commands, execute_operations, insert_rows, finish,
  finished, policed, run_configured, go_on, publish_in, extend,
}
use qsmith.Suite.Items.{
  execute_suite_item, run_item, execute_item, running_item, insert_item, prefix_of, item_result,
  with_last,
}

pub update_at-append_length :
    {A : Type 0} (f : A → A) (xs : List A) (x : A)
    → update_at f (length xs) (xs ++ (x ∷ [])) ≡ xs ++ (f x ∷ [])
unfolding update_at
update_at-append_length f [] x = refl
update_at-append_length f (y ∷ xs) x = ap (λ zs. y ∷ zs) (update_at-append_length f xs x)

-- The rows of the items' executions and of the suites'.
abbrev pub rows_of : System → List ItemExecution × List SuiteExecution
rows_of s = (s.item_executions, s.suite_executions)

-- A computation that leaves these rows alone.
abbrev pub KeepsRows : {A : Type 0} → Exec System A → Type 0
KeepsRows body = (s : System) → rows_of (body s).1 ≡ rows_of s

-- The status and the error that an item's row gets.
abbrev pub status_of_error : Option String → String
status_of_error none = "success"
status_of_error (some _) = "error"

publish_in-rows :
    (o : Option String) (event : Event) (s : System) → rows_of (publish_in o event s) ≡ rows_of s
publish_in-rows none event s = refl
publish_in-rows (some execution_id) event s = refl

finish-rows :
    (c : Command) (rows : CommandRows) (status : String) (error : Option String) (s : System)
    → rows_of (finish c rows status error s) ≡ rows_of s
unfolding finish
finish-rows c rows status error s = publish_in-rows s.variables.execution_id _ _

finished-rows :
    (execute : String → Configuration → Value → Exec System ExecutionResult) (c : Command)
    (rows : CommandRows) (run : Outcome ExecutionResult × System)
    → rows_of (finished execute c rows run).1 ≡ rows_of run.1
finished-rows execute c rows (ok new, s) = finish-rows c rows "success" none s
finished-rows execute c rows (err message, s) = finish-rows c rows "error" (some message) s

go_on-rows :
    (execute : String → Configuration → Value → Exec System ExecutionResult)
    (later : ExecutionResult → Exec System ExecutionResult) (so_far : ExecutionResult)
    → ((r : ExecutionResult) → KeepsRows (later r))
    → (run : Outcome ExecutionResult × System)
    → rows_of (go_on execute later so_far run).1 ≡ rows_of run.1
go_on-rows execute later so_far h (err message, s) = refl
go_on-rows execute later so_far h (ok new, s) = h (extend so_far new) s

with_last-rows :
    (item_id : String) (run : Outcome ExecutionResult × System)
    → rows_of (with_last item_id run).1 ≡ rows_of run.1
with_last-rows item_id (ok result, s) = refl
with_last-rows item_id (err message, s) = refl

module _ (execute : String → Configuration → Value → Exec System ExecutionResult)
    (keeps : (id : String) (cfg : Configuration) (v : Value) → KeepsRows (execute id cfg v)) where
  policed-rows :
      (c : Command) (cfg : Configuration) (v : Value) (o : Outcome OperationContract)
      → KeepsRows (policed execute c cfg v o)
  policed-rows c cfg v (err message) s = refl
  policed-rows c cfg v (ok contract) s = keeps c.id cfg v s

  run_configured-rows :
      (scope : Option String) (c : Command) (v : Value) (rows : CommandRows)
      (o : Outcome Configuration)
      → KeepsRows (run_configured execute scope c v rows o)
  run_configured-rows scope c v rows (err message) s = refl
  run_configured-rows scope c v rows (ok cfg) s =
      finished-rows execute c rows _ ∙ policed-rows c cfg v (validate_operation_policy cfg scope) s

  run_command-rows :
      (scope : Option String) (c : Command) (v : Value) → KeepsRows (run_command execute scope c v)
  unfolding run_command
  run_command-rows scope c v s =
      run_configured-rows scope c v (insert_rows c s).0 c.configuration (insert_rows c s).1

  run_commands-rows :
      (scope : Option String) (cs : List Command) (so_far : ExecutionResult)
      → KeepsRows (run_commands execute scope cs so_far)
  unfolding run_commands
  run_commands-rows scope [] so_far s = refl
  run_commands-rows scope (c ∷ cs) so_far s =
      go_on-rows execute (run_commands execute scope cs) so_far (λ r. run_commands-rows scope cs r)
        (run_command execute scope c so_far.data_value s)
      ∙ run_command-rows scope c so_far.data_value s

  execute_suite_item-rows :
      (row_id : ℕ → String) (item : SuiteItem) → KeepsRows (execute_suite_item execute row_id item)
  unfolding execute_suite_item bind_execution_context execute_operations
  execute_suite_item-rows row_id item s =
      with_last-rows item.id _ ∙ run_commands-rows _ item.commands _ _

  bind_item_of-rows :
      {A : Type 0} (kind : String) (phase : Option String) (vars : Option Value)
      (body : Exec System A) (o : Option RunContext)
      → KeepsRows body
      → KeepsRows (bind_item_of kind phase vars body o)
  bind_item_of-rows kind phase vars body none h s = h s
  bind_item_of-rows kind phase vars body (some c) h s = h _

  run_item-rows :
      (row_id : ℕ → String) (item : SuiteItem) (n : ℕ) (vars : Option Value)
      → KeepsRows (run_item execute row_id item n vars)
  unfolding run_item bind_execution_context bind_item_context
  run_item-rows row_id item n vars s =
      bind_item_of-rows item.kind (strip_or_none item.hook_phase) vars
        (execute_suite_item execute row_id item) _ (execute_suite_item-rows row_id item) _

item_result-rows :
    (execution_id : String) (item : SuiteItem) (n : ℕ) (run : Outcome (List Value) × System)
    → let (error, s) = item_result execution_id item n run in
      rows_of s ≡ (
        update_at (finish_item (status_of_error error) error) n run.1.item_executions,
        run.1.suite_executions,
      )
item_result-rows execution_id item n (ok results, s) = refl
item_result-rows execution_id item n (err message, s) = refl

-- An item adds its row to the rows, with the status and the error that it ended with.
pub execute_item-rows :
    (execute : String → Configuration → Value → Exec System ExecutionResult) (row_id : ℕ → String)
    (execution_id : String) (item : SuiteItem) (position : ℕ) (vars : Option Value) (s : System)
    → ((id : String) (cfg : Configuration) (v : Value) → KeepsRows (execute id cfg v))
    → let (error, s') = execute_item execute row_id execution_id item position vars s in
      rows_of s' ≡ (
        s.item_executions
            ++ (finish_item (status_of_error error) error (running_item item position) ∷ []),
        s.suite_executions,
      )
unfolding execute_item
execute_item-rows execute row_id execution_id item position vars s keeps =
    let n = length s.item_executions in
    let started =
      publish_event execution_id (item_started (prefix_of item) item.id position)
        (insert_item item position s) in
    let run = run_item execute row_id item n vars started in
    let error = (item_result execution_id item n run).0 in
    let close : ItemExecution → ItemExecution = finish_item (status_of_error error) error in
    item_result-rows execution_id item n run
    ∙ ap (λ (r : List ItemExecution × List SuiteExecution). (update_at close n r.0, r.1))
        (run_item-rows execute keeps row_id item n vars started)
    ∙ ap (λ (r : List ItemExecution). (r, s.suite_executions))
        (update_at-append_length close s.item_executions (running_item item position))
