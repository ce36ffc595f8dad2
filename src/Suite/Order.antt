-- ===== src/Suite/Order.antt =====
-- The order in which the items of a suite are executed.
use qsmith.Prelude.{
  ℕ, ◌+◌, String, ◌≡◌, refl, sym, ◌∙◌, ap, true, false, not, ◌&&◌, Option, none, some, Bool-cases,
  inl, inr, List, [], ◌∷◌, ◌++◌, Exec, length, all, arith, if◌then◌else◌, and_left, and_right,
}
use mathlib.Core.List.{append_assoc, append-nil}
use qsmith.Memory.{Value}
use qsmith.Policy.{Configuration}
use qsmith.Suite.State.{System, SuiteItem, ItemExecution, SuiteExecution}
use qsmith.Suite.Commands.{ExecutionResult}
use qsmith.Suite.Rows.{execute_item-rows}
use qsmith.Suite.Outcomes.{IsRowless}
use qsmith.Suite.Run.{
  Running, Hooks, no_progress, run_next, run_hook, run_suite_hook, run_test, run_tests, run_items,
  new_dict, count_test, is_abort,
}

-- The items that were started, by their rows.
abbrev pub ids : List ItemExecution → List String
ids [] = []
ids (row ∷ rows) = row.suite_item_id ∷ ids rows

abbrev pub id_of : Option SuiteItem → List String
id_of none = []
id_of (some item) = item.id ∷ []

-- Every test between its two hooks.
abbrev pub plan_of : Hooks → List SuiteItem → List String
plan_of hooks [] = []
plan_of hooks (item ∷ items) =
    id_of hooks.before_each ++ (item.id ∷ (id_of hooks.after_each ++ plan_of hooks items))

ids-append :
    (rows : List ItemExecution) (row : ItemExecution)
    → ids (rows ++ (row ∷ [])) ≡ ids rows ++ (row.suite_item_id ∷ [])
ids-append [] row = refl
ids-append (r ∷ rows) row = ap (λ is. r.suite_item_id ∷ is) (ids-append rows row)

module _ (execute : String → Configuration → Value → Exec System ExecutionResult)
    (row_id : ℕ → String) (execution_id : String) (hooks : Hooks) (keeps : IsRowless execute) where
  run_next-ids :
      (item : SuiteItem) (vars : Value) (run : Running)
      → ids (run_next execute row_id execution_id hooks item vars run).1.1.item_executions
        ≡ ids run.1.item_executions ++ (item.id ∷ [])
  unfolding run_next
  run_next-ids item vars (p, s) =
      ap (λ (r : List ItemExecution × List SuiteExecution). ids r.0)
        (execute_item-rows execute row_id execution_id item (p.execution_position + 1) (some vars) s
          keeps)
      ∙ ids-append s.item_executions _

  run_hook-ids :
      (hook : Option SuiteItem) (vars : Value) (run : Running)
      → ids (run_hook execute row_id execution_id hooks hook vars run).1.1.item_executions
        ≡ ids run.1.item_executions ++ id_of hook
  unfolding run_hook
  run_hook-ids none vars (p, s) = sym (append-nil (ids s.item_executions))
  run_hook-ids (some item) vars (p, s) = run_next-ids item vars (p, s)

  pub run_suite_hook-ids :
      (hook : Option SuiteItem) (run : Running)
      → ids (run_suite_hook execute row_id execution_id hooks hook run).1.item_executions
        ≡ ids run.1.item_executions ++ id_of hook
  unfolding run_suite_hook
  run_suite_hook-ids hook (p, s) =
      run_hook-ids hook _ (p, (new_dict execute row_id execution_id hooks s).1)

  pub run_test-ids :
      (total : ℕ) (item : SuiteItem) (run : Running)
      → ids (run_test execute row_id execution_id hooks total item run).1.1.item_executions
        ≡ ids run.1.item_executions
          ++ (id_of hooks.before_each ++ (item.id ∷ id_of hooks.after_each))
  unfolding run_test
  run_test-ids total item (p, s) =
      let (vars, s1) = new_dict execute row_id execution_id hooks s in
      let before = run_hook execute row_id execution_id hooks hooks.before_each vars (p, s1) in
      let tested = run_next execute row_id execution_id hooks item vars before.1 in
      let counted = count_test execute row_id execution_id hooks total tested.1 in
      let start = ids s.item_executions in
      run_hook-ids hooks.after_each vars counted
      ∙ ap (λ (is : List String). is ++ id_of hooks.after_each)
          (run_next-ids item vars before.1
            ∙ ap (λ (is : List String). is ++ (item.id ∷ []))
                (run_hook-ids hooks.before_each vars (p, s1)))
      ∙ append_assoc (start ++ id_of hooks.before_each) (item.id ∷ []) (id_of hooks.after_each)
      ∙ append_assoc start (id_of hooks.before_each) (item.id ∷ id_of hooks.after_each)

  run_tests-ids :
      (total : ℕ) (items : List SuiteItem) (run : Running)
      → all (λ item. not (is_abort item)) items ≡ true
      → ids (run_tests execute row_id execution_id hooks total items run).1.item_executions
        ≡ ids run.1.item_executions ++ plan_of hooks items
  unfolding run_tests
  run_tests-ids total [] run h = sym (append-nil (ids run.1.item_executions))
  run_tests-ids total (item ∷ items) run h =
      let (failed, run') = run_test execute row_id execution_id hooks total item run in
      let allowed : not (is_abort item) ≡ true = and_left _ _ h in
      let goes_on : (failed && is_abort item) ≡ false = ground arith in
      let start = ids run.1.item_executions in
      rw (goes_on, run_tests)
        (run_tests-ids total items run' (and_right _ _ h)
          ∙ ap (λ (is : List String). is ++ plan_of hooks items) (run_test-ids total item run)
          ∙ append_assoc start (id_of hooks.before_each ++ (item.id ∷ id_of hooks.after_each))
              (plan_of hooks items)
          ∙ ap (λ (is : List String). start ++ is)
              (append_assoc (id_of hooks.before_each) (item.id ∷ id_of hooks.after_each)
                (plan_of hooks items)))

-- In an execution that starts without rows, and in which no test stands to abort the suite, the
-- items are executed in this order: the hook before all; unless that fails, every test between
-- the hook before each and the hook after each; and the hook after all, whatever failed. Hooks
-- that the suite lacks are left out. The executors of commands leave the items' rows alone.
pub run_items-ids :
    (execute : String → Configuration → Value → Exec System ExecutionResult) (row_id : ℕ → String)
    (execution_id : String) (hooks : Hooks) (tests : List SuiteItem) (s : System)
    → IsRowless execute
    → s.item_executions ≡ []
    → all (λ item. not (is_abort item)) tests ≡ true
    → let first =
        run_suite_hook execute row_id execution_id hooks hooks.before_all (no_progress, s) in
      ids (run_items execute row_id execution_id hooks tests s).1.item_executions
      ≡ id_of hooks.before_all
        ++ ((if first.0.any_error then [] else plan_of hooks tests) ++ id_of hooks.after_all)
unfolding run_items
run_items-ids execute row_id execution_id hooks tests s keeps fresh h =
    let first =
      run_suite_hook execute row_id execution_id hooks hooks.before_all (no_progress, s) in
    let start : ids first.1.item_executions ≡ id_of hooks.before_all =
      run_suite_hook-ids execute row_id execution_id hooks keeps hooks.before_all (no_progress, s)
      ∙ rw fresh refl in
    let last = run_suite_hook-ids execute row_id execution_id hooks keeps hooks.after_all in
    elim (Bool-cases first.0.any_error) [
      | inl failed ↦
          rw failed (last first ∙ ap (λ (is : List String). is ++ id_of hooks.after_all) start)
      | inr passed ↦ rw passed (
          last (run_tests execute row_id execution_id hooks (length tests) tests first)
          ∙ ap (λ (is : List String). is ++ id_of hooks.after_all)
              (run_tests-ids execute row_id execution_id hooks keeps (length tests) tests first h
                ∙ ap (λ (is : List String). is ++ plan_of hooks tests) start)
          ∙ append_assoc (id_of hooks.before_all) (plan_of hooks tests) (id_of hooks.after_all))
    ]
