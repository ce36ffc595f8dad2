-- ===== src/Suite/Outcomes.antt =====
-- The rows of an execution and the variables of `_execute` tell the same.
use qsmith.Prelude.{
  ℕ, suc, ◌+◌, String, ◌≡◌, refl, ◌∙◌, ap, Bool, true, not, ◌&&◌, ◌||◌, Option, none, some,
  Bool-cases, inl, inr, List, [], ◌∷◌, ◌++◌, Exec, length, length-append, any, all, arith, ◌==◌,
}
use qsmith.Memory.{Value}
use qsmith.Policy.{Configuration}
use qsmith.Suite.State.{System, SuiteItem, ItemExecution, SuiteExecution, finish_item}
use qsmith.Suite.Commands.{ExecutionResult}
use qsmith.Suite.Items.{running_item}
use qsmith.Suite.Rows.{KeepsRows, rows_of, status_of_error, execute_item-rows}
use qsmith.Suite.Run.{
  Progress, Running, Hooks, no_progress, note, run_next, run_hook, run_suite_hook, run_test,
  run_tests, run_items, count_test, new_dict, is_abort,
}

abbrev pub is_failed : ItemExecution → Bool
is_failed row = row.status == "error"

abbrev pub is_closed : ItemExecution → Bool
is_closed row = not (row.status == "running")

-- The rows' positions count up from `k`.
abbrev pub IsNumbered : ℕ → List ItemExecution → Type 0
IsNumbered k [] = Unit
IsNumbered k (row ∷ rows) = (row.position ≡ k) × IsNumbered (suc k) rows

pub record IsLogged (suites : List SuiteExecution) (run : Running) : Type 0 where
  pub numbered : IsNumbered 1 run.1.item_executions
  pub position : run.0.execution_position ≡ length run.1.item_executions
  pub closed : all is_closed run.1.item_executions ≡ true
  pub kept : run.1.suite_executions ≡ suites
  pub failed : run.0.any_error ≡ any is_failed run.1.item_executions

module _ {A : Type 0} (p : A → Bool) where
  any-append : (xs : List A) (x : A) → any p (xs ++ (x ∷ [])) ≡ (any p xs || p x)
  any-append [] x = ground arith
  any-append (y ∷ xs) x = ground (arith, any-append xs x)

  all-append : (xs : List A) (x : A) → all p (xs ++ (x ∷ [])) ≡ (all p xs && p x)
  all-append [] x = ground arith
  all-append (y ∷ xs) x = ground (arith, all-append xs x)

IsNumbered-append :
    (k : ℕ) (rows : List ItemExecution) (row : ItemExecution)
    → IsNumbered k rows
    → row.position ≡ k + length rows
    → IsNumbered k (rows ++ (row ∷ []))
IsNumbered-append k [] row _ e = (omega arith, tt)
IsNumbered-append k (r ∷ rows) row (h, hs) e =
    (h, IsNumbered-append (suc k) rows row hs (omega arith))

-- The row of an item that ended, at the next position.
abbrev closed_row : SuiteItem → ℕ → Option String → ItemExecution
closed_row item position error =
    finish_item (status_of_error error) error (running_item item position)

is_closed-row :
    (item : SuiteItem) (position : ℕ) (error : Option String)
    → is_closed (closed_row item position error) ≡ true
is_closed-row item position none = refl
is_closed-row item position (some message) = refl

any_error-note :
    (item : SuiteItem) (position : ℕ) (error : Option String) (p : Progress)
    → (note error p).any_error ≡ (p.any_error || is_failed (closed_row item position error))
unfolding note
any_error-note item position none p = ground arith
any_error-note item position (some message) p = ground arith

position-note :
    (error : Option String) (p : Progress)
    → (note error p).execution_position ≡ p.execution_position
unfolding note
position-note none p = refl
position-note (some message) p = refl

-- Only the rows and two of the variables matter.
IsLogged-same :
    (suites : List SuiteExecution) (run run' : Running)
    → rows_of run'.1 ≡ rows_of run.1
    → run'.0.execution_position ≡ run.0.execution_position
    → run'.0.any_error ≡ run.0.any_error
    → IsLogged suites run
    → IsLogged suites run'
IsLogged-same suites run run' rows position failed l =
    let items = ap (λ (r : List ItemExecution × List SuiteExecution). r.0) rows in
    record {
      numbered = rw items l.numbered;
      position = rw (items, position) l.position;
      closed = rw items l.closed;
      kept = ap (λ (r : List ItemExecution × List SuiteExecution). r.1) rows ∙ l.kept;
      failed = rw (items, failed) l.failed;
    }

IsLogged-add :
    (suites : List SuiteExecution) (run run' : Running) (item : SuiteItem) (error : Option String)
    → rows_of run'.1 ≡ (
      run.1.item_executions ++ (closed_row item (run.0.execution_position + 1) error ∷ []),
      run.1.suite_executions,
    )
    → run'.0 ≡ note error (record run.0 { execution_position = run.0.execution_position + 1 })
    → IsLogged suites run
    → IsLogged suites run'
IsLogged-add suites run run' item error rows progress l =
    let position = run.0.execution_position + 1 in
    let row = closed_row item position error in
    let items = ap (λ (r : List ItemExecution × List SuiteExecution). r.0) rows in
    let h = l.position in
    record {
      numbered = rw items (IsNumbered-append 1 run.1.item_executions row l.numbered (omega arith));
      position =
          rw (items, progress)
            (position-note error _ ∙ omega (arith, length-append run.1.item_executions (row ∷ [])));
      closed = rw items (
          rw (all-append is_closed run.1.item_executions row)
            (rw (l.closed, is_closed-row item position error)));
      kept = ap (λ (r : List ItemExecution × List SuiteExecution). r.1) rows ∙ l.kept;
      failed =
          rw (items, progress)
            (rw (any-append is_failed run.1.item_executions row)
              (any_error-note item position error _ ∙ rw l.failed refl));
    }

-- What an executor of commands may not do: change the rows of the items' executions.
abbrev pub IsRowless : (String → Configuration → Value → Exec System ExecutionResult) → Type 0
IsRowless execute = (id : String) (cfg : Configuration) (v : Value) → KeepsRows (execute id cfg v)

module _ (execute : String → Configuration → Value → Exec System ExecutionResult)
    (row_id : ℕ → String) (execution_id : String) (hooks : Hooks) (keeps : IsRowless execute)
    (suites : List SuiteExecution) where
  run_next-IsLogged :
      (item : SuiteItem) (vars : Value) (run : Running)
      → IsLogged suites run
      → IsLogged suites (run_next execute row_id execution_id hooks item vars run).1
  unfolding run_next
  run_next-IsLogged item vars (p, s) l =
      IsLogged-add suites (p, s) _ item _
        (execute_item-rows execute row_id execution_id item (p.execution_position + 1) (some vars) s
          keeps)
        refl l

  run_hook-IsLogged :
      (hook : Option SuiteItem) (vars : Value) (run : Running)
      → IsLogged suites run
      → IsLogged suites (run_hook execute row_id execution_id hooks hook vars run).1
  unfolding run_hook
  run_hook-IsLogged none vars (p, s) l = l
  run_hook-IsLogged (some item) vars (p, s) l = run_next-IsLogged item vars (p, s) l

  run_suite_hook-IsLogged :
      (hook : Option SuiteItem) (run : Running)
      → IsLogged suites run
      → IsLogged suites (run_suite_hook execute row_id execution_id hooks hook run)
  unfolding run_suite_hook
  run_suite_hook-IsLogged hook (p, s) l =
      run_hook-IsLogged hook _ (p, (new_dict execute row_id execution_id hooks s).1)
        (IsLogged-same suites (p, s) _ refl refl refl l)

  run_test-IsLogged :
      (total : ℕ) (item : SuiteItem) (run : Running)
      → IsLogged suites run
      → IsLogged suites (run_test execute row_id execution_id hooks total item run).1
  unfolding run_test
  run_test-IsLogged total item (p, s) l =
      let started =
        IsLogged-same suites (p, s) (p, (new_dict execute row_id execution_id hooks s).1) refl refl
          refl l in
      let before = run_hook-IsLogged hooks.before_each _ _ started in
      let tested = run_next-IsLogged item _ _ before in
      let counted =
        IsLogged-same suites _ (count_test execute row_id execution_id hooks total _) refl refl refl
          tested in
      let after = run_hook-IsLogged hooks.after_each _ _ counted in
      IsLogged-same suites _ _ refl refl refl after

  run_tests-IsLogged :
      (total : ℕ) (items : List SuiteItem) (run : Running)
      → IsLogged suites run
      → IsLogged suites (run_tests execute row_id execution_id hooks total items run)
  unfolding run_tests
  run_tests-IsLogged total [] run l = l
  run_tests-IsLogged total (item ∷ items) run l =
      let later = run_test-IsLogged total item run l in
      elim (Bool-cases
        ((run_test execute row_id execution_id hooks total item run).0 && is_abort item)) [
          | inl aborts ↦ rw (aborts, run_tests) later
          | inr goes_on ↦ rw (goes_on, run_tests) (run_tests-IsLogged total items _ later)
        ]

  IsLogged-start :
      (s : System)
      → s.item_executions ≡ []
      → s.suite_executions ≡ suites
      → IsLogged suites (no_progress, s)
  IsLogged-start s e kept = record {
    kept = kept;
    numbered = rw e tt;
    position = rw e refl;
    closed = rw e refl;
    failed = rw e refl;
  }

  -- The whole run, from no rows.
  pub run_items-IsLogged :
      (tests : List SuiteItem) (s : System)
      → s.item_executions ≡ []
      → s.suite_executions ≡ suites
      → IsLogged suites (run_items execute row_id execution_id hooks tests s)
  unfolding run_items
  run_items-IsLogged tests s e kept =
      let first =
        run_suite_hook-IsLogged hooks.before_all (no_progress, s) (IsLogged-start s e kept) in
      let run =
        run_suite_hook execute row_id execution_id hooks hooks.before_all (no_progress, s) in
      elim (Bool-cases run.0.any_error) [
        | inl failed ↦ rw failed (run_suite_hook-IsLogged hooks.after_all run first)
        | inr passed ↦ rw passed (
            run_suite_hook-IsLogged hooks.after_all _
              (run_tests-IsLogged (length tests) tests run first))
      ]
