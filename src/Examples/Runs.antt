-- ===== src/Examples/Runs.antt =====
-- The run context at concrete data.
use qsmith.Prelude.{◌≡◌, refl, some, [], ◌∷◌, ok, err}
use qsmith.Prelude.Dict.{lookup, insert}
use qsmith.Prelude.Int.{pos}
use qsmith.Prelude.Text.{is_space}
use qsmith.Memory.{num, str, dict_at, list_at, get_key, put_key}
use qsmith.Context.Path.{path_tokens, extract_context_root, to_index, target_tokens}
use qsmith.Context.State.{create_run_context}
use qsmith.Context.Assign.{assign}
use qsmith.Context.Write.{write_context_path, target_from_root}
use qsmith.Context.Vars.{set_context_var, set_var, resolve_constant_value}
use qsmith.Examples.Data.{in_hook}

tokens_run :
    path_tokens " $.local.constants.rows[ 3 ].id"
    ≡ ok ("local" ∷ "constants" ∷ "rows" ∷ "3" ∷ "id" ∷ [])
unfolding path_tokens is_space
tokens_run = refl

index_run : to_index "007" ≡ some 7
unfolding to_index is_space
index_run = refl

write_run :
    (write_context_path "$.local.constants[1]" (num (pos 5)) in_hook).0
    ≡ err "Target path expects a list segment."
unfolding write_context_path create_run_context is_space extract_context_root target_tokens assign
    to_index dict_at target_from_root list_at lookup put_key get_key
write_run = refl

set_run : resolve_constant_value "a" (set_context_var "a" (str "v") "auto" in_hook).1 ≡ str "v"
unfolding resolve_constant_value set_context_var create_run_context is_space get_key dict_at list_at
    write_context_path extract_context_root target_tokens assign to_index target_from_root lookup
    put_key insert set_var
set_run = refl
