-- ===== src/Constants/Suites.antt =====
-- The constants of a suite: `validate_suite_constant_graph`, before the suite is stored, and
-- `rebuild_suite_constant_definitions`, which writes the table's rows afterwards.
pub mod Agree
pub mod Rows
pub mod Rebuild
use qsmith.Prelude.{
  ℕ, suc, String, Bool, true, false, not, Option, none, some, List, [], ◌∷◌, ◌++◌, map, keep, any,
  ◌&&◌, Outcome, ok, err, Exec, and_then, ◌==◌, if◌then◌else◌,
}
use mathlib.Core.Option
use qsmith.Prelude.Dict.{Dict, lookup, insert}
use qsmith.Prelude.Int.{ℤ, pos, eqb_ℤ}
use qsmith.Prelude.Text.{strip, is_empty}
use qsmith.Constants.Tables.{Section, test, before_all, before_each, after_each, after_all}
use qsmith.Constants.Plan.{
  CommandConfiguration, RawCommand, PlannedDefinition, Definitions, Planned,
  plan_definitions_for_commands,
}

-- A command and an item of a suite as they are sent; `cfg` is the payload of the configuration.
pub record CommandDto (C : Type 0) : Type 0 where
  pub order : ℤ
  pub cfg : C

pub record ItemDto (C : Type 0) : Type 0 where
  pub hook_phase : String
  pub commands : List (CommandDto C)

pub record SuiteDto (C : Type 0) : Type 0 where
  pub tests : List (ItemDto C)
  pub hooks : List (ItemDto C)

-- A command and an item as they are stored. The order of a command is 0 where the column is empty.
pub record OperationEntity (C : Type 0) : Type 0 where
  pub id : String
  pub order : ℤ
  pub configuration_json : C

pub record SuiteItemEntity : Type 0 where
  pub id : String
  pub hook_phase : String

pub record DefinitionEntity : Type 0 where
  pub id : String
  pub owner_type : String
  pub suite_id : Option String
  pub suite_item_id : Option String
  pub mock_server_api_id : Option String
  pub mock_server_queue_id : Option String
  pub command_id : String
  pub command_order : ℤ
  pub section_type : Section
  pub name : String
  pub context_scope : String
  pub value_type : String
  pub declared_at_order : ℤ
  pub deleted_at_order : Option ℤ

-- The foreign keys that `_definition_entity` is called with.
pub record Owner : Type 0 where
  pub owner_type : String
  pub suite_id : Option String
  pub suite_item_id : Option String
  pub mock_server_api_id : Option String
  pub mock_server_queue_id : Option String

abbrev pub definition_entity : Owner → PlannedDefinition → DefinitionEntity
definition_entity o d = record {
  id = d.definition_id;
  owner_type = o.owner_type;
  suite_id = o.suite_id;
  suite_item_id = o.suite_item_id;
  mock_server_api_id = o.mock_server_api_id;
  mock_server_queue_id = o.mock_server_queue_id;
  command_id = d.command_id;
  command_order = d.command_order;
  section_type = d.section_type;
  name = d.name;
  context_scope = d.context_scope;
  value_type = d.value_type;
  declared_at_order = d.command_order;
  deleted_at_order = d.deleted_at_order;
}

-- `int(command.order or index)`
abbrev pub order_or : ℤ → ℕ → ℤ
order_or order index = if eqb_ℤ order (pos 0) then pos index else order

-- `_suite_item_commands`. The payload of a configuration has no `commandId`, so the identifier is
-- the text of the order, and a new one where the order is 0: an empty text stands for that here,
-- since `ensure_command_id` makes one.
abbrev pub text_of_order : (ℤ → String) → ℤ → String
text_of_order show order = if eqb_ℤ order (pos 0) then "" else show order

module _ {C : Type 0} where
  unfoldable pub suite_item_commands : (ℤ → String) → ℕ → List (CommandDto C) → List (RawCommand C)
  suite_item_commands show index [] = []
  suite_item_commands show index (c ∷ cs) =
      record { id = text_of_order show c.order; order = order_or c.order index; cfg = c.cfg }
      ∷ suite_item_commands show (suc index) cs

  -- `_commands_for_item`, of the operations that the database holds for the item
  unfoldable pub commands_for_item : ℕ → List (OperationEntity C) → List (RawCommand C)
  commands_for_item index [] = []
  commands_for_item index (o ∷ os) =
      record { id = o.id; order = order_or o.order index; cfg = o.configuration_json }
      ∷ commands_for_item (suc index) os

  unfoldable pub dto_hooks : List (ItemDto C) → Dict (ItemDto C) → Dict (ItemDto C)
  unfolding strip
  dto_hooks [] d = d
  dto_hooks (item ∷ items) d = dto_hooks items (insert (strip item.hook_phase) item d)

module _ {C : Type 0} where
  -- `show` is `str` of an integer.
  abbrev pub hook_commands : (ℤ → String) → SuiteDto C → String → Option (List (RawCommand C))
  hook_commands show dto phase =
      Option.map (λ (item : ItemDto C). suite_item_commands show 1 item.commands)
        (lookup phase (dto_hooks dto.hooks []))

  abbrev pub test_commands : (ℤ → String) → SuiteDto C → List (List (RawCommand C))
  test_commands show dto =
      map (λ (item : ItemDto C). suite_item_commands show 1 item.commands) dto.tests

  abbrev pub item_commands :
      (String → List (OperationEntity C)) → SuiteItemEntity → List (RawCommand C)
  item_commands operations item = commands_for_item 1 (operations item.id)

-- The loop over the stored items: hooks by phase, the later one of a phase, and the tests.
unfoldable pub stored_hooks : List SuiteItemEntity → Dict SuiteItemEntity → Dict SuiteItemEntity
unfolding strip
stored_hooks [] d = d
stored_hooks (item ∷ items) d =
    stored_hooks items
      (let phase = strip item.hook_phase in if is_empty phase then d else insert phase item d)

unfoldable pub stored_tests : List SuiteItemEntity → List SuiteItemEntity
unfolding strip
stored_tests items = keep (λ (item : SuiteItemEntity). is_empty (strip item.hook_phase)) items

abbrev pub stored_hook : List SuiteItemEntity → String → Option SuiteItemEntity
stored_hook items phase = lookup phase (stored_hooks items [])

module _ (suite_id : String) where
  abbrev pub entities_of : SuiteItemEntity → List PlannedDefinition → List DefinitionEntity
  entities_of item ds =
      map
        (definition_entity (record {
          owner_type = "suite";
          suite_id = some suite_id;
          suite_item_id = some item.id;
          mock_server_api_id = none;
          mock_server_queue_id = none;
        }))
        ds

  abbrev pub hook_entities : Option SuiteItemEntity → List PlannedDefinition → List DefinitionEntity
  hook_entities none ds = []
  hook_entities (some item) ds = entities_of item ds

  unfoldable pub test_entities :
      List SuiteItemEntity → List (List PlannedDefinition) → List DefinitionEntity
  test_entities (item ∷ tests) (ds ∷ planned) = entities_of item ds ++ test_entities tests planned
  test_entities _ _ = []

  abbrev pub is_of_suite : Option String → Bool
  is_of_suite none = false
  is_of_suite (some id) = id == suite_id

  -- `delete_by_suite_id`
  abbrev pub delete_by_suite_id : List DefinitionEntity → List DefinitionEntity
  delete_by_suite_id table = keep (λ (row : DefinitionEntity). not (is_of_suite row.suite_id)) table

abbrev pub has_row : String → List DefinitionEntity → Bool
has_row id table = any (λ (row : DefinitionEntity). row.id == id) table

-- Whether the rows can be inserted: their identifiers, which are the primary keys, are in no row of
-- the table and differ from one another.
unfoldable pub are_new_keys : List DefinitionEntity → List DefinitionEntity → Bool
are_new_keys [] table = true
are_new_keys (row ∷ rows) table = not (has_row row.id table) && are_new_keys rows (row ∷ table)

-- `inserts`, whose flush raises where a key is there already.
unfoldable pub insert_rows : List DefinitionEntity → Exec (List DefinitionEntity) (Unit {0})
unfolding are_new_keys
insert_rows rows table =
    if are_new_keys rows table then (ok tt, table ++ rows) else (err "IntegrityError", table)

abbrev pub persist :
    Outcome (List DefinitionEntity)
    → List DefinitionEntity
    → Outcome (Unit {0}) × List DefinitionEntity
persist (ok entities) table = insert_rows entities table
persist (err message) table = (err message, table)

-- Whether rows that were planned can be inserted.
abbrev pub fits : Outcome (List DefinitionEntity) → List DefinitionEntity → Bool
fits (ok entities) table = are_new_keys entities table
fits (err message) table = false

module _ {C : Type 0} (new_id : ℕ → String) (convert : C → Outcome CommandConfiguration) where
  -- A hook's plan; where there is no such hook, the definitions that were visible stay.
  abbrev pub plan_hook : Option (List (RawCommand C)) → Section → Definitions → Outcome Planned
  plan_hook none section visible = ok ([], visible)
  plan_hook (some commands) section visible =
      plan_definitions_for_commands new_id convert commands section visible

  -- Each test starts from the definitions of the hooks; what it defines itself goes with it.
  unfoldable pub plan_tests :
      List (List (RawCommand C)) → Definitions → Outcome (List (List PlannedDefinition))
  plan_tests [] visible = ok []
  plan_tests (commands ∷ tests) visible =
      and_then (plan_definitions_for_commands new_id convert commands test visible)
        λ (planned, _). and_then (plan_tests tests visible) λ later. ok (planned ∷ later)

  unfoldable pub validate_suite_constant_graph : (ℤ → String) → SuiteDto C → Outcome (Unit {0})
  unfolding plan_tests
  validate_suite_constant_graph show dto =
      and_then (plan_hook (hook_commands show dto "before-all") before_all []) λ (_, global).
        and_then (plan_hook (hook_commands show dto "before-each") before_each global) λ (_, local).
          and_then (plan_tests (test_commands show dto) local) λ _.
            and_then (plan_hook (hook_commands show dto "after-each") after_each local) λ _.
              and_then (plan_hook (hook_commands show dto "after-all") after_all global) λ _. ok tt

  -- What the database holds: the items of a suite, and the operations of an item.
  module _ (suite_id : String) (items : List SuiteItemEntity)
      (operations : String → List (OperationEntity C)) where
    unfoldable pub suite_entities : Outcome (List DefinitionEntity)
    unfolding plan_tests test_entities
    suite_entities =
        let hook = λ (phase : String). stored_hook items phase in
        let commands =
          λ (phase : String). Option.map (item_commands operations) (stored_hook items phase) in
        let tests = stored_tests items in
        and_then (plan_hook (commands "before-all") before_all []) λ (ds1, global).
          and_then (plan_hook (commands "before-each") before_each global) λ (ds2, local).
            and_then (plan_tests (map (item_commands operations) tests) local) λ ds3.
              and_then (plan_hook (commands "after-each") after_each local) λ (ds4, _).
                and_then (plan_hook (commands "after-all") after_all global) λ (ds5, _). ok (
                  hook_entities suite_id (hook "before-all") ds1
                  ++ (hook_entities suite_id (hook "before-each") ds2
                      ++ (test_entities suite_id tests ds3
                          ++ (hook_entities suite_id (hook "after-each") ds4
                              ++ hook_entities suite_id (hook "after-all") ds5))))

    -- The rows of the suite are deleted first; a raise leaves them deleted in the session.
    unfoldable pub rebuild_suite_constant_definitions : Exec (List DefinitionEntity) (Unit {0})
    unfolding suite_entities insert_rows
    rebuild_suite_constant_definitions table =
        persist suite_entities (delete_by_suite_id suite_id table)
