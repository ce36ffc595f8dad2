-- ===== src/Constants/Mocks/Keys.antt =====
-- What a rebuild for a mock server writes: the rows that it plans, and the table without its old ones.
use qsmith.Prelude.{
  ℕ, String, ◌≡◌, refl, ◌∙◌, ap, List, [], ◌∷◌, ◌++◌, Outcome, ok, err, is_ok, Exec, ◌>>=◌, resume,
  and_then, Bool-cases, inl, inr,
}
use qsmith.Constants.Plan.{CommandConfiguration}
use qsmith.Constants.Suites.{OperationEntity, DefinitionEntity, fits, insert_rows, are_new_keys}
use qsmith.Constants.Mocks.{
  MockApiEntity, MockTables, rows_then, api_rows, queue_rows, rebuild_apis, rebuild_queues,
  write_rows, rebuild_mock_constant_definitions, delete_by_mock_server_api_id,
  delete_by_mock_server_queue_id,
}

-- The rows of one list after another, or the first error.
abbrev pub rows_of_each :
    {A : Type 0} → (A → Outcome (List DefinitionEntity)) → List A → Outcome (List DefinitionEntity)
rows_of_each f [] = ok []
rows_of_each f (x ∷ xs) =
    and_then (f x) λ rows. and_then (rows_of_each f xs) λ rest. ok (rows ++ rest)

abbrev pub without_apis :
    {C : Type 0} → List (MockApiEntity C) → List DefinitionEntity → List DefinitionEntity
without_apis [] table = table
without_apis (api ∷ apis) table = without_apis apis (delete_by_mock_server_api_id api.id table)

abbrev pub without_queues : List String → List DefinitionEntity → List DefinitionEntity
without_queues [] table = table
without_queues (id ∷ ids) table = without_queues ids (delete_by_mock_server_queue_id id table)

-- A run that answers `o`, and leaves `table` if that is no error.
abbrev pub Answers :
    {C : Type 0}
    → Outcome (List DefinitionEntity)
    → List DefinitionEntity
    → Outcome (List DefinitionEntity) × MockTables C
    → Type 0
Answers o table (ok rows, t) = (o ≡ ok rows) × (t.definitions ≡ table)
Answers o table (err message, t) = o ≡ err message

module _ {C : Type 0} where
  Answers-resume :
      (rows : List DefinitionEntity) (o : Outcome (List DefinitionEntity))
      (table : List DefinitionEntity) (m : Outcome (List DefinitionEntity) × MockTables C)
      → Answers o table m
      → Answers
          (and_then o λ rest. ok (rows ++ rest))
          table
          (resume (λ rest t. (ok (rows ++ rest), t)) m.0 m.1)
  Answers-resume rows o table (ok rest, t) (same, left) = (rw same refl, left)
  Answers-resume rows o table (err message, t) same = rw same refl

  Answers-rows_then :
      (planned o : Outcome (List DefinitionEntity)) (table : List DefinitionEntity)
      (later : Exec (MockTables C) (List DefinitionEntity)) (t : MockTables C)
      → Answers o table (later t)
      → Answers
          (and_then planned λ rows. and_then o λ rest. ok (rows ++ rest))
          table
          (rows_then planned later t)
  Answers-rows_then (ok rows) o table later t h = Answers-resume rows o table (later t) h
  Answers-rows_then (err message) o table later t h = refl

  module _ (new_id : ℕ → String) (convert : C → Outcome CommandConfiguration)
      (operations : String → List (OperationEntity C)) where
    pub rebuild_apis-Answers :
        (apis : List (MockApiEntity C)) (t : MockTables C)
        → Answers
            (rows_of_each (api_rows new_id convert operations) apis)
            (without_apis apis t.definitions)
            (rebuild_apis new_id convert operations apis t)
    unfolding rebuild_apis
    rebuild_apis-Answers [] t = (refl, refl)
    rebuild_apis-Answers (api ∷ apis) t =
        Answers-rows_then (api_rows new_id convert operations api)
          (rows_of_each (api_rows new_id convert operations) apis) _
          (rebuild_apis new_id convert operations apis) _ (rebuild_apis-Answers apis _)

    pub rebuild_queues-Answers :
        (ids : List String) (t : MockTables C)
        → Answers
            (rows_of_each (queue_rows new_id convert operations) ids)
            (without_queues ids t.definitions)
            (rebuild_queues new_id convert operations ids t)
    unfolding rebuild_queues
    rebuild_queues-Answers [] t = (refl, refl)
    rebuild_queues-Answers (id ∷ ids) t =
        Answers-rows_then (queue_rows new_id convert operations id)
          (rows_of_each (queue_rows new_id convert operations) ids) _
          (rebuild_queues new_id convert operations ids) _ (rebuild_queues-Answers ids _)

  write_rows-fits :
      (rows : List DefinitionEntity) (t : MockTables C)
      → is_ok (write_rows rows t).0 ≡ are_new_keys rows t.definitions
  unfolding write_rows insert_rows
  write_rows-fits rows t = elim (Bool-cases (are_new_keys rows t.definitions)) [
    | inl new ↦ rw new refl
    | inr taken ↦ rw taken refl
  ]

  queues_fit :
      (rows : List DefinitionEntity) (o : Outcome (List DefinitionEntity))
      (table : List DefinitionEntity) (m : Outcome (List DefinitionEntity) × MockTables C)
      → Answers o table m
      → is_ok (resume (λ q. write_rows (rows ++ q)) m.0 m.1).0
        ≡ fits (and_then o λ q. ok (rows ++ q)) table
  queues_fit rows o table (ok q, t) (same, left) =
      write_rows-fits (rows ++ q) t ∙ ap (are_new_keys (rows ++ q)) left ∙ (rw same refl)
  queues_fit rows o table (err message, t) same = rw same refl

  -- Every row of a server: those of its routes, and those of its queues.
  abbrev pub server_rows :
      (ℕ → String)
      → (C → Outcome CommandConfiguration)
      → (String → List (OperationEntity C))
      → (String → List (OperationEntity C))
      → List (MockApiEntity C)
      → List String
      → Outcome (List DefinitionEntity)
  server_rows new_id convert api_operations queue_operations apis queues =
      and_then (rows_of_each (api_rows new_id convert api_operations) apis) λ r.
        and_then (rows_of_each (queue_rows new_id convert queue_operations) queues) λ q. ok (r ++ q)

  module _ (new_id : ℕ → String) (convert : C → Outcome CommandConfiguration)
      (queue_operations : String → List (OperationEntity C)) (queues : List String) where
    apis_fit :
        (o : Outcome (List DefinitionEntity)) (table : List DefinitionEntity)
        (m : Outcome (List DefinitionEntity) × MockTables C)
        → Answers o table m
        → is_ok
            (resume
              (λ r.
                rebuild_queues new_id convert queue_operations queues >>= λ q. write_rows (r ++ q))
              m.0
              m.1).0
          ≡ fits
              (and_then o λ r.
                and_then
                  (rows_of_each (queue_rows new_id convert queue_operations) queues)
                  λ q. ok (r ++ q))
              (without_queues queues table)
    apis_fit o table (ok r, t) (same, left) =
        queues_fit r (rows_of_each (queue_rows new_id convert queue_operations) queues) _
          (rebuild_queues new_id convert queue_operations queues t)
          (rebuild_queues-Answers new_id convert queue_operations queues t)
        ∙ ap
            (λ x.
              fits
                (and_then (rows_of_each (queue_rows new_id convert queue_operations) queues)
                  λ q. ok (r ++ q))
                (without_queues queues x))
            left
        ∙ (rw same refl)
    apis_fit o table (err message, t) same = rw same refl

    pub rebuild_fits :
        (api_operations : String → List (OperationEntity C)) (apis : List (MockApiEntity C))
        (t : MockTables C)
        → is_ok
            (rebuild_mock_constant_definitions new_id convert api_operations queue_operations apis
              queues t).0
          ≡ fits
              (server_rows new_id convert api_operations queue_operations apis queues)
              (without_queues queues (without_apis apis t.definitions))
    unfolding rebuild_mock_constant_definitions
    rebuild_fits api_operations apis t =
        apis_fit (rows_of_each (api_rows new_id convert api_operations) apis)
          (without_apis apis t.definitions) (rebuild_apis new_id convert api_operations apis t)
          (rebuild_apis-Answers new_id convert api_operations apis t)
