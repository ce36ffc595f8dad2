-- ===== src/Examples/Contexts.antt =====
-- The theorems on run contexts, at a new context.
use qsmith.Prelude.{
  ℕ, ◌≡◌, refl, inl, false, none, some, [], ◌∷◌, ok, err, Exec, set, is_ok, ◌==◌, if◌then◌else◌,
}
use qsmith.Prelude.Dict.{Dict, lookup, insert}
use qsmith.Prelude.Text.{is_space}
use qsmith.Memory.{Value, null, str, ref, dict, get_key, dict_at, key_of}
use qsmith.Context.Path.{path_tokens, extract_context_root, to_index}
use qsmith.Context.Path.Plain.{path_tokens-render, local-IsPlain}
use qsmith.Context.State.{World, create_run_context}
use qsmith.Context.Write.{write_path, write_context_path, remove_context_path}
use qsmith.Context.Write.Guard.{immutable_in_test}
use qsmith.Context.Vars.{
  set_var, set_context_var, enter_item, find_constant, bind_suite_item_context, constants_dict,
}
use qsmith.Context.Vars.Effect.{set_var_auto}
use qsmith.Context.Vars.Lookup.{find_constant-set_var, write_path-global_in_test, set_var-number}
use qsmith.Context.Sound.Vars.{set_var-Extends}
use qsmith.Context.Sound.Binding.{
  bind_suite_item_context-restores, entered, bound_to, kind_and_phase,
}
use qsmith.Examples.Data.{
  id-is_word, id-is_other, local_constants, hook_context, test_context, objects, in_hook, in_test,
  id-IsPlain, rows-IsPlain, seven-IsPlain,
}

seven-is_number : to_index "7" ≡ some 7
unfolding to_index is_space
seven-is_number = refl

global_constants : constants_dict objects hook_context.global_scope ≡ some (3, [])
unfolding create_run_context is_space get_key dict_at lookup
global_constants = refl

free_locally : key_of "id" (constants_dict objects hook_context.local_scope) ≡ none
unfolding create_run_context is_space get_key dict_at lookup
free_locally = refl

global_root : extract_context_root "$.global.id" ≡ ok (some "global")
unfolding extract_context_root is_space
global_root = refl

abbrev local_names : Dict Value
local_names = ("global", ref 4) ∷ ("constants", ref 5) ∷ []

local_dict : dict_at objects (ref test_context.local_scope) ≡ some (6, local_names)
unfolding create_run_context dict_at is_space
local_dict = refl

global_slot : lookup "global" local_names ≡ some (ref test_context.global_scope)
unfolding create_run_context lookup is_space
global_slot = refl

slot : get_key objects (ref hook_context.local_scope) "constants" ≡ some (ref 5)
unfolding create_run_context get_key dict_at lookup is_space
slot = refl

slot_dict : dict_at objects (ref 5) ≡ some (5, [])
unfolding create_run_context dict_at is_space
slot_dict = refl

path_tokens-render_example : path_tokens "$.local.rows" ≡ ok ("local" ∷ "rows" ∷ [])
path_tokens-render_example =
    path_tokens-render "local" ("rows" ∷ []) (local-IsPlain, (rows-IsPlain, tt))

set_var_auto_example :
    set_var test_context "id" (str "v") "auto" objects
    ≡ (ok tt, set objects 5 (dict (insert "id" (str "v") [])))
set_var_auto_example =
    set_var_auto test_context "id" (str "v") objects id-IsPlain id-is_word local_constants

find_constant-set_var_example :
    find_constant hook_context "rows" (set_var hook_context "id" (str "v") "auto" objects).1
    ≡ (if "id" == "rows" then some (str "v") else find_constant hook_context "rows" objects)
unfolding create_run_context is_space
find_constant-set_var_example =
    find_constant-set_var hook_context "id" "rows" (str "v") objects id-IsPlain id-is_word
      id-is_other global_constants (λ hook. free_locally)

immutable_in_test_example :
    (is_ok (write_context_path "$.global.id" null in_test).0 ≡ false)
    × ((write_context_path "$.global.id" null in_test).1 ≡ in_test)
    × (is_ok (remove_context_path "$.global.id" in_test).0 ≡ false)
    × ((remove_context_path "$.global.id" in_test).1 ≡ in_test)
immutable_in_test_example =
    immutable_in_test in_test test_context "$.global.id" "global" null refl refl global_root
      (inl refl)

-- A body that sets a constant and raises.
abbrev failing : Exec World ℕ
failing w = (err "failed", (set_context_var "id" (str "v") "auto" w).1)

ran :
    failing (entered "TEST" none none (bound_to objects hook_context))
    ≡ (err "failed", bound_to (set_var test_context "id" (str "v") "auto" objects).1 test_context)
unfolding create_run_context enter_item set_context_var is_space
ran = refl

bind_suite_item_context-restores_example :
    let (result, w) = bind_suite_item_context "TEST" none none failing in_hook in
    (result ≡ err "failed")
    × (kind_and_phase w.context ≡ some ("hook", none))
    × (get_key w.heap (ref hook_context.local_scope) "constants" ≡ some (ref 5))
unfolding create_run_context is_space
bind_suite_item_context-restores_example =
    bind_suite_item_context-restores "TEST" none none failing objects
      (set_var test_context "id" (str "v") "auto" objects).1 hook_context test_context (ref 5)
      (err "failed") refl slot slot_dict ran refl
      (set_var-Extends test_context "id" (str "v") "auto" objects)

write_path-global_in_test_example :
    write_path test_context "$.local.global.constants.id" (str "v") objects
    ≡ (ok tt, set objects 3 (dict (insert "id" (str "v") [])))
write_path-global_in_test_example =
    write_path-global_in_test test_context "id" (str "v") objects refl id-IsPlain id-is_word
      local_dict global_slot global_constants

set_var-number_example :
    set_var test_context "7" (str "v") "auto" objects
    ≡ (err "Target path expects a list segment.", objects)
set_var-number_example =
    set_var-number test_context "7" (str "v") objects seven-IsPlain seven-is_number local_constants
