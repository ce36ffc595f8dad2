-- ===== src/Constants/Suites/Rows.antt =====
-- The rows that a rebuild writes, and those that it leaves.
use mathlib.Core.Option
use qsmith.Prelude.{
  ℕ, String, ◌≡◌, refl, ◌∙◌, ap, Bool, Option, none, some, Bool-cases, inl, inr, eq_refl, List, [],
  ◌∷◌, ◌++◌, map, keep, append_nil, keep-append, Outcome, ok, err, and_then,
}
use qsmith.Constants.Tables.{Section, before_all, before_each, after_each, after_all}
use qsmith.Constants.Plan.{PlannedDefinition, Definitions, CommandConfiguration, Planned}
use qsmith.Constants.Suites.{
  SuiteItemEntity, OperationEntity, DefinitionEntity, plan_hook, plan_tests, item_commands,
  stored_hook, stored_tests, entities_of, hook_entities, test_entities, suite_entities,
  delete_by_suite_id, persist, insert_rows, are_new_keys,
}

keep-keep : {A : Type 0} (p : A → Bool) (xs : List A) → keep p (keep p xs) ≡ keep p xs
keep-keep p [] = refl
keep-keep p (x ∷ xs) = elim (Bool-cases (p x)) [
  | inl e ↦ rw e (rw e (ap (λ zs. x ∷ zs) (keep-keep p xs)))
  | inr e ↦ rw e (keep-keep p xs)
]

module _ (suite_id : String) where
  delete-append :
      (xs ys : List DefinitionEntity)
      → delete_by_suite_id suite_id xs ≡ []
      → delete_by_suite_id suite_id ys ≡ []
      → delete_by_suite_id suite_id (xs ++ ys) ≡ []
  delete-append xs ys hx hy = keep-append _ xs ys ∙ rw hx hy

  -- Each row that is written is the suite's.
  entities_of-suite :
      (item : SuiteItemEntity) (ds : List PlannedDefinition)
      → delete_by_suite_id suite_id (entities_of suite_id item ds) ≡ []
  entities_of-suite item [] = refl
  entities_of-suite item (d ∷ ds) = rw (eq_refl suite_id) (entities_of-suite item ds)

  hook_entities-suite :
      (item : Option SuiteItemEntity) (ds : List PlannedDefinition)
      → delete_by_suite_id suite_id (hook_entities suite_id item ds) ≡ []
  hook_entities-suite none ds = refl
  hook_entities-suite (some item) ds = entities_of-suite item ds

  test_entities-suite :
      (items : List SuiteItemEntity) (dss : List (List PlannedDefinition))
      → delete_by_suite_id suite_id (test_entities suite_id items dss) ≡ []
  unfolding test_entities
  test_entities-suite (item ∷ items) (ds ∷ dss) =
      delete-append (entities_of suite_id item ds) (test_entities suite_id items dss)
        (entities_of-suite item ds) (test_entities-suite items dss)
  test_entities-suite [] dss = refl
  test_entities-suite (item ∷ items) [] = refl

  unfoldable pub IsOfSuite : Outcome (List DefinitionEntity) → Type 0
  IsOfSuite (ok rows) = delete_by_suite_id suite_id rows ≡ []
  IsOfSuite (err _) = Unit

  IsOfSuite-and_then :
      {A : Type 0} (o : Outcome A) (f : A → Outcome (List DefinitionEntity))
      → ((a : A) → IsOfSuite (f a))
      → IsOfSuite (and_then o f)
  unfolding IsOfSuite
  IsOfSuite-and_then (ok a) f h = h a
  IsOfSuite-and_then (err _) f h = tt

  ok-IsOfSuite :
      (rows : List DefinitionEntity) → delete_by_suite_id suite_id rows ≡ [] → IsOfSuite (ok rows)
  unfolding IsOfSuite
  ok-IsOfSuite rows h = h

  pub suite_entities-IsOfSuite :
      {C : Type 0} (new_id : ℕ → String) (convert : C → Outcome CommandConfiguration)
      (items : List SuiteItemEntity) (operations : String → List (OperationEntity C))
      → IsOfSuite (suite_entities new_id convert suite_id items operations)
  unfolding suite_entities
  suite_entities-IsOfSuite new_id convert items operations =
      let hook = λ (phase : String) (section : Section) (ds : Definitions).
        plan_hook new_id convert (Option.map (item_commands operations) (stored_hook items phase))
          section ds in
      let tests = λ (ds : Definitions).
        plan_tests new_id convert (map (item_commands operations) (stored_tests items)) ds in
      IsOfSuite-and_then (hook "before-all" before_all []) _ λ (p : Planned).
        IsOfSuite-and_then (hook "before-each" before_each p.1) _ λ (q : Planned).
          IsOfSuite-and_then (tests q.1) _ λ dss.
            IsOfSuite-and_then (hook "after-each" after_each q.1) _ λ (r : Planned).
              IsOfSuite-and_then (hook "after-all" after_all p.1) _
                λ (t : Planned). ok-IsOfSuite _ (rows-suite p.0 q.0 dss r.0 t.0)
    where
      rows-suite :
          (a b : List PlannedDefinition) (dss : List (List PlannedDefinition))
          (c d : List PlannedDefinition)
          → delete_by_suite_id suite_id (
              hook_entities suite_id (stored_hook items "before-all") a
              ++ (hook_entities suite_id (stored_hook items "before-each") b
                  ++ (test_entities suite_id (stored_tests items) dss
                      ++ (hook_entities suite_id (stored_hook items "after-each") c
                          ++ hook_entities suite_id (stored_hook items "after-all") d))))
            ≡ []
      rows-suite a b dss c d =
          delete-append (hook_entities suite_id (stored_hook items "before-all") a) _
            (hook_entities-suite _ a)
            (delete-append (hook_entities suite_id (stored_hook items "before-each") b) _
              (hook_entities-suite _ b)
              (delete-append (test_entities suite_id (stored_tests items) dss) _
                (test_entities-suite (stored_tests items) dss)
                (delete-append (hook_entities suite_id (stored_hook items "after-each") c)
                  (hook_entities suite_id (stored_hook items "after-all") d)
                  (hook_entities-suite _ c) (hook_entities-suite _ d))))

  pub persist-others :
      (o : Outcome (List DefinitionEntity)) (table : List DefinitionEntity)
      → IsOfSuite o
      → delete_by_suite_id suite_id (persist o (delete_by_suite_id suite_id table)).1
        ≡ delete_by_suite_id suite_id table
  unfolding IsOfSuite insert_rows
  persist-others (ok rows) table h =
      elim (Bool-cases (are_new_keys rows (delete_by_suite_id suite_id table))) [
        | inl new ↦ rw new (
            keep-append _ (delete_by_suite_id suite_id table) rows
            ∙ rw h (append_nil _ ∙ keep-keep _ table))
        | inr taken ↦ rw taken (keep-keep _ table)
      ]
  persist-others (err _) table h = keep-keep _ table
