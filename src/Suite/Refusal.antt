-- ===== src/Suite/Refusal.antt =====
-- Commands that are not executed.
use qsmith.Prelude.{
  String, ◌≡◌, refl, ◌∙◌, ap, true, ◌&&◌, Option, some, List, [], ◌∷◌, Outcome, ok, err, Exec,
  is_ok, length, get_elem?, get_elem?-append_length,
}
use qsmith.Memory.{Value}
use qsmith.Policy.{Configuration, validate_operation_policy}
use qsmith.Policy.Contracts.{OperationContract}
use qsmith.Suite.State.{System, Command}
use qsmith.Suite.Commands.{
  ExecutionResult, CommandRows, run_command, run_commands, insert_rows, policed, run_configured,
  finished, go_on, extend, is_given, running_command,
}

abbrev pub Executor : Type 0
Executor = String → Configuration → Value → Exec System ExecutionResult

-- The executors do the same to every command that the policy allows in a scope.
abbrev pub AgreeWhereAllowed : Option String → Executor → Executor → Type 0
AgreeWhereAllowed scope execute execute' =
    (id : String) (cfg : Configuration) (v : Value) (s : System)
    → is_ok (validate_operation_policy cfg scope) ≡ true
    → execute id cfg v s ≡ execute' id cfg v s

module _ (scope : Option String) (execute execute' : Executor)
    (agree : AgreeWhereAllowed scope execute execute') where
  policed-agree :
      (c : Command) (cfg : Configuration) (v : Value) (o : Outcome OperationContract) (s : System)
      → validate_operation_policy cfg scope ≡ o
      → policed execute c cfg v o s ≡ policed execute' c cfg v o s
  policed-agree c cfg v (err message) s e = refl
  policed-agree c cfg v (ok contract) s e = agree c.id cfg v s (rw e refl)

  finished-same :
      (c : Command) (rows : CommandRows) (run : Outcome ExecutionResult × System)
      → finished execute c rows run ≡ finished execute' c rows run
  finished-same c rows (ok new, s) = refl
  finished-same c rows (err message, s) = refl

  run_configured-agree :
      (c : Command) (v : Value) (rows : CommandRows) (o : Outcome Configuration) (s : System)
      → run_configured execute scope c v rows o s ≡ run_configured execute' scope c v rows o s
  run_configured-agree c v rows (err message) s = refl
  run_configured-agree c v rows (ok cfg) s =
      ap (finished execute c rows)
        (policed-agree c cfg v (validate_operation_policy cfg scope) s refl)
      ∙ finished-same c rows _

  run_command-agree :
      (c : Command) (v : Value) (s : System)
      → run_command execute scope c v s ≡ run_command execute' scope c v s
  unfolding run_command
  run_command-agree c v s =
      run_configured-agree c v (insert_rows c s).0 c.configuration (insert_rows c s).1

  go_on-agree :
      (later later' : ExecutionResult → Exec System ExecutionResult) (so_far : ExecutionResult)
      → ((r : ExecutionResult) (s : System) → later r s ≡ later' r s)
      → (run : Outcome ExecutionResult × System)
      → go_on execute later so_far run ≡ go_on execute' later' so_far run
  go_on-agree later later' so_far h (err message, s) = refl
  go_on-agree later later' so_far h (ok new, s) = h (extend so_far new) s

  -- The commands that the policy refuses in a scope are never executed: two executors that agree
  -- on the commands that it allows there make no difference to a list of commands.
  pub run_commands-agree :
      (cs : List Command) (so_far : ExecutionResult) (s : System)
      → run_commands execute scope cs so_far s ≡ run_commands execute' scope cs so_far s
  unfolding run_commands
  run_commands-agree [] so_far s = refl
  run_commands-agree (c ∷ cs) so_far s =
      go_on-agree (run_commands execute scope cs) (run_commands execute' scope cs) so_far
        (λ r t. run_commands-agree cs r t) _
      ∙ ap (go_on execute' (run_commands execute' scope cs) so_far)
          (run_command-agree c so_far.data_value s)

-- A command of an item whose configuration cannot be read raises, and its row keeps the status
-- `running`; no event tells of it.
pub run_command-unreadable :
    (execute : Executor) (scope : Option String) (c : Command) (v : Value) (s : System)
    (message : String)
    → c.configuration ≡ err message
    → (is_given s.variables.test_suite_execution_id && is_given s.variables.suite_item_execution_id)
      ≡ true
    → let (r, s') = run_command execute scope c v s in
      (r ≡ err message)
      × (get_elem? s'.item_command_executions (length s.item_command_executions)
          ≡ some (running_command c))
      × (s'.bus ≡ s.bus)
unfolding run_command
run_command-unreadable execute scope c v s message e given = rw e (
  refl,
  (unfold insert_rows in
      rw given (get_elem?-append_length s.item_command_executions (running_command c))),
  unfold insert_rows in refl,
)
