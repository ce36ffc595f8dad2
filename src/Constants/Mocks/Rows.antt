-- ===== src/Constants/Mocks/Rows.antt =====
-- The rows that a rebuild for a mock server leaves as they are.
use qsmith.Prelude.{
  ℕ, String, ◌≡◌, refl, ◌∙◌, Bool, true, false, not, ◌&&◌, List, [], ◌∷◌, ◌++◌, map, keep, any,
  arith, All, Outcome, ok, err, Exec, resume, and_then, eq_refl, keep-append, keep-keep_weaker,
}
use qsmith.Constants.Plan.{CommandConfiguration, PlannedDefinition, plan_definitions_for_commands}
use qsmith.Constants.Suites.{OperationEntity, DefinitionEntity, Owner, definition_entity}
use qsmith.Constants.Mocks.{
  MockApiEntity, MockTables, api_owner, queue_owner, is_owned_by, rows_then, api_rows, queue_rows,
  rebuild_apis, rebuild_queues, delete_by_mock_server_api_id, delete_by_mock_server_queue_id,
}

-- The row belongs to none of the routes and none of the queues.
abbrev pub is_other : {C : Type 0} → List (MockApiEntity C) → List String → DefinitionEntity → Bool
is_other apis queues row =
    not (any (λ api. is_owned_by api.id row.mock_server_api_id) apis)
    && not (any (λ id. is_owned_by id row.mock_server_queue_id) queues)

-- `p` is a test that the rows of the server fail.
module _ (p : DefinitionEntity → Bool) where
  abbrev pub FailsApi : String → Type 0
  FailsApi id =
      (row : DefinitionEntity) → is_owned_by id row.mock_server_api_id ≡ true → p row ≡ false

  abbrev pub FailsQueue : String → Type 0
  FailsQueue id =
      (row : DefinitionEntity) → is_owned_by id row.mock_server_queue_id ≡ true → p row ≡ false

  abbrev Fail : Outcome (List DefinitionEntity) → Type 0
  Fail (ok rows) = keep p rows ≡ []
  Fail (err message) = Unit

  Fail-then :
      {A : Type 0} (o : Outcome A) (f : A → Outcome (List DefinitionEntity))
      → ((a : A) → Fail (f a))
      → Fail (and_then o f)
  Fail-then (ok a) f h = h a
  Fail-then (err message) f h = tt

  pub append-none :
      (xs ys : List DefinitionEntity) → keep p xs ≡ [] → keep p ys ≡ [] → keep p (xs ++ ys) ≡ []
  append-none xs ys hx hy = keep-append p xs ys ∙ rw (hx, hy) refl

  keep-entities :
      (owner : Owner) (ds : List PlannedDefinition)
      → ((d : PlannedDefinition) → p (definition_entity owner d) ≡ false)
      → keep p (map (definition_entity owner) ds) ≡ []
  keep-entities owner [] h = refl
  keep-entities owner (d ∷ ds) h = rw (h d) (keep-entities owner ds h)

module _ {C : Type 0} (p : DefinitionEntity → Bool) where
  -- No row that is written passes, and those that pass are where they were.
  abbrev pub Kept : List DefinitionEntity → Outcome (List DefinitionEntity) × MockTables C → Type 0
  Kept before (ok rows, t) = (keep p t.definitions ≡ before) × (keep p rows ≡ [])
  Kept before (err message, t) = keep p t.definitions ≡ before

  Kept-resume :
      (before rows : List DefinitionEntity) (m : Outcome (List DefinitionEntity) × MockTables C)
      → keep p rows ≡ []
      → Kept before m
      → Kept before (resume (λ rest t. (ok (rows ++ rest), t)) m.0 m.1)
  Kept-resume before rows (ok rest, t) h (kept, fails) = (kept, append-none p rows rest h fails)
  Kept-resume before rows (err message, t) h kept = kept

  Kept-rows_then :
      (before : List DefinitionEntity) (o : Outcome (List DefinitionEntity))
      (later : Exec (MockTables C) (List DefinitionEntity)) (t : MockTables C)
      → Fail p o
      → keep p t.definitions ≡ before
      → Kept before (later t)
      → Kept before (rows_then o later t)
  Kept-rows_then before (ok rows) later t fails same h = Kept-resume before rows (later t) fails h
  Kept-rows_then before (err message) later t fails same h = same

  module _ (new_id : ℕ → String) (convert : C → Outcome CommandConfiguration) where
    pub rebuild_apis-Kept :
        (operations : String → List (OperationEntity C)) (before : List DefinitionEntity)
        (apis : List (MockApiEntity C)) (t : MockTables C)
        → All (λ api. FailsApi p api.id) apis
        → keep p t.definitions ≡ before
        → Kept before (rebuild_apis new_id convert operations apis t)
    unfolding rebuild_apis
    rebuild_apis-Kept operations before [] t h same = (same, refl)
    rebuild_apis-Kept operations before (api ∷ apis) t (fails, h) same =
        Kept-rows_then before (api_rows new_id convert operations api)
          (rebuild_apis new_id convert operations apis) _
          (Fail-then p (plan_definitions_for_commands new_id convert _ _ _) _ λ (ds, _).
            Fail-then p (plan_definitions_for_commands new_id convert _ _ _) _ λ (es, _).
              append-none p (map (definition_entity (api_owner "mock_api_pre" api.id)) ds) _
                (keep-entities p (api_owner "mock_api_pre" api.id) ds
                  (λ d. fails _ (eq_refl api.id)))
                (keep-entities p (api_owner "mock_api_post" api.id) es
                  (λ d. fails _ (eq_refl api.id))))
          kept (rebuild_apis-Kept operations before apis _ h kept)
      where
        kept : keep p (delete_by_mock_server_api_id api.id t.definitions) ≡ before
        kept = keep-keep_weaker p _ (λ row e. fails row (ground arith)) t.definitions ∙ same

    pub rebuild_queues-Kept :
        (operations : String → List (OperationEntity C)) (before : List DefinitionEntity)
        (queues : List String) (t : MockTables C)
        → All (FailsQueue p) queues
        → keep p t.definitions ≡ before
        → Kept before (rebuild_queues new_id convert operations queues t)
    unfolding rebuild_queues
    rebuild_queues-Kept operations before [] t h same = (same, refl)
    rebuild_queues-Kept operations before (id ∷ queues) t (fails, h) same =
        Kept-rows_then before (queue_rows new_id convert operations id)
          (rebuild_queues new_id convert operations queues) _
          (Fail-then p (plan_definitions_for_commands new_id convert _ _ _) _
            λ (ds, _). keep-entities p (queue_owner id) ds (λ d. fails _ (eq_refl id)))
          kept (rebuild_queues-Kept operations before queues _ h kept)
      where
        kept : keep p (delete_by_mock_server_queue_id id t.definitions) ≡ before
        kept = keep-keep_weaker p _ (λ row e. fails row (ground arith)) t.definitions ∙ same
