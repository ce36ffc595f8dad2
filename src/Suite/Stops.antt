-- ===== src/Suite/Stops.antt =====
-- Where the loop over the tests of a suite stops.
use qsmith.Prelude.{
  ℕ, String, ◌≡◌, refl, sym, ◌∙◌, ap, true, ◌&&◌, Option, none, some, is_some, ◌⊎◌, Bool-cases, inl,
  inr, List, [], ◌∷◌, ◌++◌, Exec, length, any, arith, and_left,
}
use mathlib.Core.List.{append_assoc, append-nil}
use qsmith.Memory.{Value}
use qsmith.Policy.{Configuration}
use qsmith.Suite.State.{System, SuiteItem, ItemExecution}
use qsmith.Suite.Commands.{ExecutionResult}
use qsmith.Suite.Outcomes.{IsRowless, IsLogged, is_failed, run_items-IsLogged}
use qsmith.Suite.Order.{ids, id_of, plan_of, run_suite_hook-ids, run_test-ids}
use qsmith.Suite.Run.{
  Progress, Running, Hooks, no_progress, note, run_next, run_hook, run_suite_hook, run_test,
  run_tests, run_items, new_dict, count_test, is_abort,
}

note-keeps :
    (error : Option String) (p : Progress) → p.any_error ≡ true → (note error p).any_error ≡ true
unfolding note
note-keeps none p h = h
note-keeps (some message) p h = refl

note-some :
    (error : Option String) (p : Progress) → is_some error ≡ true → (note error p).any_error ≡ true
unfolding note
note-some none p h = absurd (ground arith)
note-some (some message) p h = refl

-- The tests that a loop has run, and those behind them; there are some behind only where a test
-- that stands to abort the suite has run, and something failed.
abbrev Stopped : Hooks → List String → List SuiteItem → Running → Type 0
Stopped hooks start items run =
    (ran : List SuiteItem) × (rest : List SuiteItem) × (items ≡ ran ++ rest)
    × (ids run.1.item_executions ≡ start ++ plan_of hooks ran)
    × ((rest ≡ []) ⊎ ((run.0.any_error ≡ true) × (any is_abort ran ≡ true)))

-- What the rows say of the items. The rows are, in this order, those of the hook before all, of the
-- tests that have run, each between its hooks, and of the hook after all. Every test has run, unless
-- one of these items failed and either no test has run or one of those that have stands to abort.
abbrev pub IsComplete : Hooks → List SuiteItem → List ItemExecution → Type 0
IsComplete hooks tests rows =
    (ran : List SuiteItem) × (rest : List SuiteItem) × (tests ≡ ran ++ rest)
    × (ids rows ≡ id_of hooks.before_all ++ (plan_of hooks ran ++ id_of hooks.after_all))
    × ((rest ≡ []) ⊎ ((any is_failed rows ≡ true) × ((ran ≡ []) ⊎ (any is_abort ran ≡ true))))

module _ (execute : String → Configuration → Value → Exec System ExecutionResult)
    (row_id : ℕ → String) (execution_id : String) (hooks : Hooks) where
  run_hook-keeps :
      (hook : Option SuiteItem) (vars : Value) (run : Running)
      → run.0.any_error ≡ true
      → (run_hook execute row_id execution_id hooks hook vars run).1.0.any_error ≡ true
  unfolding run_hook run_next
  run_hook-keeps none vars (p, s) h = h
  run_hook-keeps (some item) vars (p, s) h = note-keeps _ _ h

  run_suite_hook-keeps :
      (hook : Option SuiteItem) (run : Running)
      → run.0.any_error ≡ true
      → (run_suite_hook execute row_id execution_id hooks hook run).0.any_error ≡ true
  unfolding run_suite_hook
  run_suite_hook-keeps hook (p, s) h = run_hook-keeps hook _ _ h

  run_next-failed :
      (item : SuiteItem) (vars : Value) (run : Running)
      → (run_next execute row_id execution_id hooks item vars run).0 ≡ true
      → (run_next execute row_id execution_id hooks item vars run).1.0.any_error ≡ true
  unfolding run_next
  run_next-failed item vars (p, s) h = note-some _ _ h

  run_next-keeps :
      (item : SuiteItem) (vars : Value) (run : Running)
      → run.0.any_error ≡ true
      → (run_next execute row_id execution_id hooks item vars run).1.0.any_error ≡ true
  unfolding run_next
  run_next-keeps item vars (p, s) h = note-keeps _ _ h

  run_hook-failed :
      (hook : Option SuiteItem) (vars : Value) (run : Running)
      → (run_hook execute row_id execution_id hooks hook vars run).0 ≡ true
      → (run_hook execute row_id execution_id hooks hook vars run).1.0.any_error ≡ true
  unfolding run_hook
  run_hook-failed none vars (p, s) h = absurd (ground arith)
  run_hook-failed (some item) vars (p, s) h = run_next-failed item vars (p, s) h

  run_test-failed :
      (total : ℕ) (item : SuiteItem) (run : Running)
      → (run_test execute row_id execution_id hooks total item run).0 ≡ true
      → (run_test execute row_id execution_id hooks total item run).1.0.any_error ≡ true
  unfolding run_test
  run_test-failed total item (p, s) h =
      let (vars, s1) = new_dict execute row_id execution_id hooks s in
      let before = run_hook execute row_id execution_id hooks hooks.before_each vars (p, s1) in
      let tested = run_next execute row_id execution_id hooks item vars before.1 in
      let counted = count_test execute row_id execution_id hooks total tested.1 in
      let after = run_hook execute row_id execution_id hooks hooks.after_each vars counted in
      elim (Bool-cases before.0) [
        | inl b ↦
            run_hook-keeps hooks.after_each vars counted
              (run_next-keeps item vars before.1 (run_hook-failed hooks.before_each vars (p, s1) b))
        | inr nb ↦ elim (Bool-cases tested.0) [
          | inl t ↦
              run_hook-keeps hooks.after_each vars counted (run_next-failed item vars before.1 t)
          | inr nt ↦ run_hook-failed hooks.after_each vars counted (rw (nb, nt) at h)
        ]
      ]

  module _ (keeps : IsRowless execute) where
    run_tests-Stopped :
        (total : ℕ) (items : List SuiteItem) (run : Running)
        → Stopped hooks
            (ids run.1.item_executions)
            items
            (run_tests execute row_id execution_id hooks total items run)
    unfolding run_tests
    run_tests-Stopped total [] run =
        ([], [], refl, sym (append-nil (ids run.1.item_executions)), inl refl)
    run_tests-Stopped total (item ∷ items) run =
        let round = run_test execute row_id execution_id hooks total item run in
        let one = run_test-ids execute row_id execution_id hooks keeps total item run in
        let start = ids run.1.item_executions in
        elim (Bool-cases (round.0 && is_abort item)) [
          | inl stop ↦
              rw (stop, run_tests)
                (
                  item ∷ [],
                  items,
                  refl,
                  one
                      ∙ ap
                          (λ (is : List String).
                            start ++ (id_of hooks.before_each ++ (item.id ∷ is)))
                          (sym (append-nil (id_of hooks.after_each))),
                  inr (run_test-failed total item run (and_left _ _ stop), ground arith),
                )
          | inr goes_on ↦
              rw (goes_on, run_tests)
                (let (ran, rest, split, order, why) = run_tests-Stopped total items round.1 in
                  (
                    item ∷ ran,
                    rest,
                    ap (λ is. item ∷ is) split,
                    order
                        ∙ ap (λ (is : List String). is ++ plan_of hooks ran) one
                        ∙ append_assoc start
                            (id_of hooks.before_each ++ (item.id ∷ id_of hooks.after_each))
                            (plan_of hooks ran)
                        ∙ ap (λ (is : List String). start ++ is)
                            (append_assoc (id_of hooks.before_each)
                              (item.id ∷ id_of hooks.after_each) (plan_of hooks ran)),
                    elim why [
                      | inl all_run ↦ inl all_run
                      | inr (failed, aborts) ↦ inr (failed, rw aborts (ground arith))
                    ],
                  ))
        ]

    pub run_items-IsComplete :
        (tests : List SuiteItem) (s : System)
        → s.item_executions ≡ []
        → IsComplete hooks tests
            (run_items execute row_id execution_id hooks tests s).1.item_executions
    unfolding run_items
    run_items-IsComplete tests s fresh =
        let logged =
          run_items-IsLogged execute row_id execution_id hooks keeps s.suite_executions tests s
            fresh refl in
        let first =
          run_suite_hook execute row_id execution_id hooks hooks.before_all (no_progress, s) in
        let start : ids first.1.item_executions ≡ id_of hooks.before_all =
          run_suite_hook-ids execute row_id execution_id hooks keeps hooks.before_all
            (no_progress, s)
          ∙ rw fresh refl in
        let last = run_suite_hook-ids execute row_id execution_id hooks keeps hooks.after_all in
        elim (Bool-cases first.0.any_error) [
          | inl failed ↦ rw failed (
            [],
            tests,
            refl,
            last first ∙ ap (λ (is : List String). is ++ id_of hooks.after_all) start,
            inr (
              sym (IsLogged.failed (rw failed at logged))
                  ∙ run_suite_hook-keeps hooks.after_all first failed,
              inl refl,
            ),
          )
          | inr passed ↦ rw passed (
              let run = run_tests execute row_id execution_id hooks (length tests) tests first in
              let (ran, rest, split, order, why) = run_tests-Stopped (length tests) tests first in
              (
                ran,
                rest,
                split,
                last run
                    ∙ ap (λ (is : List String). is ++ id_of hooks.after_all)
                        (order ∙ ap (λ (is : List String). is ++ plan_of hooks ran) start)
                    ∙ append_assoc (id_of hooks.before_all) (plan_of hooks ran)
                        (id_of hooks.after_all),
                elim why [
                  | inl all_run ↦ inl all_run
                  | inr (failed, aborts) ↦ inr (
                    sym (IsLogged.failed (rw passed at logged))
                        ∙ run_suite_hook-keeps hooks.after_all run failed,
                    inr aborts,
                  )
                ],
              ))
        ]
