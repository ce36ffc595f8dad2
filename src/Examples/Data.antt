-- ===== src/Examples/Data.antt =====
-- A context, its objects and the values that the examples use.
use mathlib.Core.Bool.{false≢true}
use qsmith.Prelude.{◌≢◌, eq_iff, ◌≡◌, refl, String, none, some, []}
use qsmith.Prelude.Dict.{lookup}
use qsmith.Prelude.Text.{is_space}
use qsmith.Prelude.Text.Strip.{is_solid}
use qsmith.Memory.{Heap, get_key, dict_at}
use qsmith.Context.Path.{to_index}
use qsmith.Context.Path.Plain.{IsPlain}
use qsmith.Context.State.{RunContext, World, create_run_context}
use qsmith.Context.Vars.{constants_dict}

abbrev pub start_pair : RunContext × Heap
start_pair = create_run_context " r1 " none none none []

-- A context in which a hook runs, and its objects.
abbrev pub hook_context : RunContext
hook_context = start_pair.0

abbrev pub test_context : RunContext
test_context = record hook_context { current_item_kind = "test" }

abbrev pub objects : Heap
objects = start_pair.1

abbrev pub in_hook : World
in_hook = record { heap = objects; context = some hook_context }

abbrev pub in_test : World
in_test = record { heap = objects; context = some test_context }

pub id-IsPlain : IsPlain "id"
unfolding is_space is_solid
id-IsPlain = record { filled = refl; solid = refl; dotless = refl; bracketless = refl }

pub rows-IsPlain : IsPlain "rows"
unfolding is_space is_solid
rows-IsPlain = record { filled = refl; solid = refl; dotless = refl; bracketless = refl }

pub seven-IsPlain : IsPlain "7"
unfolding is_space is_solid
seven-IsPlain = record { filled = refl; solid = refl; dotless = refl; bracketless = refl }

pub id-is_word : to_index "id" ≡ none
unfolding to_index is_space
id-is_word = refl

abbrev pub id_name : String
id_name = "id"

pub id-is_other : id_name ≢ "constants"
id-is_other e = false≢true ((eq_iff id_name "constants").1 e)

pub local_constants : constants_dict objects test_context.local_scope ≡ some (5, [])
unfolding create_run_context is_space get_key dict_at lookup
local_constants = refl
