-- ===== src/Constants/Mocks.antt =====
-- The constants of a mock server: `validate_mock_server_constant_graph`, before the server is
-- stored, and `rebuild_mock_constant_definitions`, which writes the table's rows afterwards.
pub mod Accepts
pub mod Rows
pub mod Keys
pub mod Rebuild
use qsmith.Prelude.{
  ℕ, suc, String, Bool, true, false, not, Option, none, some, List, [], ◌∷◌, ◌++◌, map, keep,
  Outcome, ok, err, Exec, ◌>>=◌, and_then, ◌==◌, if◌then◌else◌,
}
use qsmith.Prelude.Dict.{Dict, insert}
use qsmith.Prelude.Int.{ℤ}
use qsmith.Prelude.Text.{strip, is_empty}
use qsmith.Constants.Tables.{Section, pre_response, post_response, queue}
use qsmith.Constants.Plan.{
  CommandConfiguration, RawCommand, PlannedDefinition, Planned, id_or_new,
  plan_definitions_for_commands,
}
use qsmith.Constants.Suites.{
  CommandDto, OperationEntity, DefinitionEntity, Owner, definition_entity, order_or,
  commands_for_item, insert_rows,
}

-- A dict of the list `pre_response_commands`: its id, its order, 0 where it has none, the payload
-- of `cfg` or else of `configuration_json`, and that of the whole dict.
pub record PreCommand (C : Type 0) : Type 0 where
  pub id : String
  pub order : ℤ
  pub cfg : Option C
  pub whole : C

-- `none` is an entry of the list that is no dict.
abbrev pub PreCommands : Type 0 → Type 0
PreCommands C = List (Option (PreCommand C))

pub record MockApiDto (C : Type 0) : Type 0 where
  pub pre_response_commands : PreCommands C
  pub commands : List (CommandDto C)

pub record MockServerDto (C : Type 0) : Type 0 where
  pub apis : List (MockApiDto C)
  pub queues : List (List (CommandDto C))

pub record MockApiEntity (C : Type 0) : Type 0 where
  pub id : String
  pub pre_response_commands : PreCommands C

-- The table of definitions, and the commands in the configurations of the routes.
pub record MockTables (C : Type 0) : Type 0 where
  pub definitions : List DefinitionEntity
  pub pre_response_commands : Dict (PreCommands C)

abbrev pub payload_or : {C : Type 0} → C → Option C → C
payload_or otherwise none = otherwise
payload_or otherwise (some cfg) = cfg

module _ {C : Type 0} (new_id : ℕ → String) where
  -- What the check plans: the dicts of the list. `empty` is the payload of `{}`.
  unfoldable pub dict_commands : C → PreCommands C → List (RawCommand C)
  dict_commands empty [] = []
  dict_commands empty (none ∷ cs) = dict_commands empty cs
  dict_commands empty (some c ∷ cs) =
      record { id = c.id; order = c.order; cfg = payload_or empty c.cfg } ∷ dict_commands empty cs

  -- `normalized_pre_commands`
  unfoldable pub normalized_pre_commands : ℕ → PreCommands C → List (RawCommand C)
  unfolding strip
  normalized_pre_commands index [] = []
  normalized_pre_commands index (none ∷ cs) = normalized_pre_commands (suc index) cs
  normalized_pre_commands index (some c ∷ cs) =
      record {
        id = id_or_new (new_id index) (strip c.id);
        order = order_or c.order index;
        cfg = payload_or c.whole c.cfg;
      }
      ∷ normalized_pre_commands (suc index) cs

  -- What `ensure_command_id` leaves in the dict: an id that is not blank stays as it is.
  abbrev pub with_id : ℕ → PreCommand C → PreCommand C
  with_id index c = record c { id = if is_empty (strip c.id) then new_id index else c.id }

  unfoldable pub with_ids : ℕ → PreCommands C → PreCommands C
  unfolding strip
  with_ids index [] = []
  with_ids index (none ∷ cs) = none ∷ with_ids (suc index) cs
  with_ids index (some c ∷ cs) = some (with_id index c) ∷ with_ids (suc index) cs

  -- The commands of a route or a queue as they are sent.
  unfoldable pub mock_commands : ℕ → List (CommandDto C) → List (RawCommand C)
  mock_commands index [] = []
  mock_commands index (c ∷ cs) =
      record { id = new_id index; order = order_or c.order index; cfg = c.cfg }
      ∷ mock_commands (suc index) cs

abbrev pub api_owner : String → String → Owner
api_owner owner_type api_id = record {
  owner_type = owner_type;
  suite_id = none;
  suite_item_id = none;
  mock_server_api_id = some api_id;
  mock_server_queue_id = none;
}

abbrev pub queue_owner : String → Owner
queue_owner queue_id = record {
  owner_type = "mock_queue";
  suite_id = none;
  suite_item_id = none;
  mock_server_api_id = none;
  mock_server_queue_id = some queue_id;
}

abbrev pub is_owned_by : String → Option String → Bool
is_owned_by id none = false
is_owned_by id (some owner) = owner == id

abbrev pub delete_by_mock_server_api_id : String → List DefinitionEntity → List DefinitionEntity
delete_by_mock_server_api_id id table =
    keep (λ (row : DefinitionEntity). not (is_owned_by id row.mock_server_api_id)) table

abbrev pub delete_by_mock_server_queue_id : String → List DefinitionEntity → List DefinitionEntity
delete_by_mock_server_queue_id id table =
    keep (λ (row : DefinitionEntity). not (is_owned_by id row.mock_server_queue_id)) table

-- The rows of one owner, and then those of the owners that follow.
abbrev pub rows_then :
    {C : Type 0}
    → Outcome (List DefinitionEntity)
    → Exec (MockTables C) (List DefinitionEntity)
    → Exec (MockTables C) (List DefinitionEntity)
rows_then (err message) later tables = (err message, tables)
rows_then (ok rows) later tables = (later >>= λ rest tables'. (ok (rows ++ rest), tables')) tables

-- `_persist_definition_entities`
unfoldable pub write_rows : {C : Type 0} → List DefinitionEntity → Exec (MockTables C) (Unit {0})
unfolding insert_rows
write_rows rows tables =
    let (result, definitions) = insert_rows rows tables.definitions in
    (result, record tables { definitions = definitions })

module _ {C : Type 0} (new_id : ℕ → String) (convert : C → Outcome CommandConfiguration) where
  unfoldable pub validate_apis : C → List (MockApiDto C) → Outcome (Unit {0})
  unfolding dict_commands mock_commands
  validate_apis empty [] = ok tt
  validate_apis empty (api ∷ apis) =
      and_then
        (plan_definitions_for_commands new_id convert
          (dict_commands new_id empty api.pre_response_commands) pre_response [])
        λ _.
          and_then
            (plan_definitions_for_commands new_id convert (mock_commands new_id 1 api.commands)
              post_response [])
            λ _. validate_apis empty apis

  unfoldable pub validate_queues : List (List (CommandDto C)) → Outcome (Unit {0})
  unfolding mock_commands
  validate_queues [] = ok tt
  validate_queues (commands ∷ queues) =
      and_then
        (plan_definitions_for_commands new_id convert (mock_commands new_id 1 commands) queue [])
        λ _. validate_queues queues

  unfoldable pub validate_mock_server_constant_graph : C → MockServerDto C → Outcome (Unit {0})
  unfolding validate_apis validate_queues
  validate_mock_server_constant_graph empty dto =
      and_then (validate_apis empty dto.apis) λ _. validate_queues dto.queues

  -- What the database holds: the commands of a route and of a queue.
  module _ (operations : String → List (OperationEntity C)) where
    abbrev pub api_rows : MockApiEntity C → Outcome (List DefinitionEntity)
    api_rows api =
        and_then
          (plan_definitions_for_commands new_id convert
            (normalized_pre_commands new_id 1 api.pre_response_commands) pre_response [])
          λ (before, _).
            and_then
              (plan_definitions_for_commands new_id convert
                (commands_for_item 1 (operations api.id)) post_response [])
              λ (after, _). ok (
                map (definition_entity (api_owner "mock_api_pre" api.id)) before
                ++ map (definition_entity (api_owner "mock_api_post" api.id)) after)

    abbrev pub queue_rows : String → Outcome (List DefinitionEntity)
    queue_rows id =
        and_then
          (plan_definitions_for_commands new_id convert (commands_for_item 1 (operations id)) queue
            [])
          λ (ds, _). ok (map (definition_entity (queue_owner id)) ds)

    unfoldable pub rebuild_apis :
        List (MockApiEntity C) → Exec (MockTables C) (List DefinitionEntity)
    unfolding normalized_pre_commands with_ids
    rebuild_apis [] tables = (ok [], tables)
    rebuild_apis (api ∷ apis) tables = rows_then (api_rows api) (rebuild_apis apis) (record tables {
      definitions = delete_by_mock_server_api_id api.id tables.definitions;
      pre_response_commands =
          insert api.id (with_ids new_id 1 api.pre_response_commands) tables.pre_response_commands;
    })

    unfoldable pub rebuild_queues : List String → Exec (MockTables C) (List DefinitionEntity)
    rebuild_queues [] tables = (ok [], tables)
    rebuild_queues (id ∷ queues) tables =
        rows_then (queue_rows id) (rebuild_queues queues)
          (record tables { definitions = delete_by_mock_server_queue_id id tables.definitions })

  unfoldable pub rebuild_mock_constant_definitions :
      (String → List (OperationEntity C))
      → (String → List (OperationEntity C))
      → List (MockApiEntity C)
      → List String
      → Exec (MockTables C) (Unit {0})
  unfolding rebuild_apis rebuild_queues write_rows
  rebuild_mock_constant_definitions api_operations queue_operations apis queues =
      rebuild_apis api_operations apis >>= λ r.
      rebuild_queues queue_operations queues >>= λ q. write_rows (r ++ q)
