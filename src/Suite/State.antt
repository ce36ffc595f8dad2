-- ===== src/Suite/State.antt =====
-- What an execution works on: the run context, the context variables, the bus of events and the
-- rows of the database.
use qsmith.Prelude.{ℕ, zero, suc, String, Option, none, List, [], ◌∷◌, Outcome}
use qsmith.Context.State.{World}
use qsmith.Policy.{Configuration}
use qsmith.Events.{Bus, publish}

-- The context variables of app/elaborations/services/suite_runs/execution_runtime_context.py.
pub record Variables : Type 0 where
  pub execution_id : Option String
  pub suite_id : Option String
  pub suite_test_id : Option String
  pub suite_execution_id : Option String
  pub suite_test_execution_id : Option String
  pub test_suite_id : Option String
  pub suite_item_id : Option String
  pub test_suite_execution_id : Option String
  pub suite_item_execution_id : Option String

abbrev pub no_variables : Variables
no_variables = record {
  execution_id = none;
  suite_id = none;
  suite_test_id = none;
  suite_execution_id = none;
  suite_test_execution_id = none;
  test_suite_id = none;
  suite_item_id = none;
  test_suite_execution_id = none;
  suite_item_execution_id = none;
}

-- The events that are published, with their names as constructors: `item_started "test"` is the
-- event `test_started`. The texts are the payload's identifiers, the status and the error.
pub data Event : Type 0 where
  suite_started : String → Event
  suite_progress : ℕ → ℕ → Event
  item_started : String → String → ℕ → Event
  item_finished : String → String → String → Option String → Event
  command_finished : String → String → Option String → Event
  suite_finished : String → Option String → Event

-- A command of an item: its identifier, and what `convert_to_config_command_type` makes of its
-- configuration.
pub record Command : Type 0 where
  pub id : String
  pub configuration : Outcome Configuration

pub record SuiteItem : Type 0 where
  pub id : String
  pub kind : String
  pub hook_phase : Option String
  pub on_failure : String
  pub commands : List Command

-- `SuiteItemExecutionEntity`
pub record ItemExecution : Type 0 where
  pub suite_item_id : String
  pub item_kind : String
  pub hook_phase : Option String
  pub position : ℕ
  pub status : String
  pub error_message : Option String

-- `TestOperationExecutionEntity` and `SuiteItemOperationExecutionEntity`
pub record CommandExecution : Type 0 where
  pub command_id : String
  pub status : String
  pub error_message : Option String

-- `TestSuiteExecutionEntity`
pub record SuiteExecution : Type 0 where
  pub test_suite_id : String
  pub status : String
  pub error_message : Option String

-- The rows are those of one execution of a suite, in the order in which they were inserted.
pub record System : Type 0 where
  pub world : World
  pub variables : Variables
  pub bus : Bus Event
  pub suite_executions : List SuiteExecution
  pub item_executions : List ItemExecution
  pub test_command_executions : List CommandExecution
  pub item_command_executions : List CommandExecution

-- `update` of the row with a number
unfoldable pub update_at : {A : Type 0} → (A → A) → ℕ → List A → List A
update_at f n [] = []
update_at f zero (x ∷ xs) = f x ∷ xs
update_at f (suc n) (x ∷ xs) = x ∷ update_at f n xs

abbrev pub finish_item : String → Option String → ItemExecution → ItemExecution
finish_item status error row = record row { status = status; error_message = error }

abbrev pub finish_command : String → Option String → CommandExecution → CommandExecution
finish_command status error row = record row { status = status; error_message = error }

abbrev pub finish_suite : String → Option String → SuiteExecution → SuiteExecution
finish_suite status error row = record row { status = status; error_message = error }

abbrev pub publish_event : String → Event → System → System
publish_event execution_id event s = record s { bus = publish execution_id event s.bus }
