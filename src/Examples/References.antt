-- ===== src/Examples/References.antt =====
-- The theorems on references, and `resolve_dynamic_value` at concrete data.
use qsmith.Prelude.{◌≡◌, refl, true, some, [], ◌∷◌, ok, err, is_some}
use qsmith.Prelude.Text.{is_space}
use qsmith.Prelude.Int.{pos}
use qsmith.Json.{Json, end, field, get}
use qsmith.Memory.{num, str, ref, get_key, dict_at}
use qsmith.Context.State.{create_run_context}
use qsmith.Context.Vars.{set_var}
use qsmith.Resolver.Path.{segment_tokens, key, index}
use qsmith.Resolver.Path.Fuel.{segment_tokens-ends}
use qsmith.Resolver.Reference.{resolve_ref}
use qsmith.Resolver.Names.{walk_names, resolve_ref-names}
use qsmith.Resolver.{build_scope, resolve}
use qsmith.Resolver.Scope.{resolve-set_var}
use qsmith.Prelude.Dict.{lookup}
use qsmith.Examples.Data.{
  id-is_word, id-is_other, local_constants, test_context, hook_context, objects, id-IsPlain,
  rows-IsPlain,
}

segments_run : segment_tokens "rows[ 12 ][0]" ≡ some (ok (key "rows" ∷ index 12 ∷ index 0 ∷ []))
unfolding segment_tokens is_space
segments_run = refl

bad_index_run : segment_tokens "rows[x]" ≡ some (err "Invalid list index")
unfolding segment_tokens is_space
bad_index_run = refl

default_run :
    (resolve
      (ref hook_context.global_scope)
      (Json.obj
        (field "$ref" (Json.str "$.constants.id") (field "$default" (Json.num (pos 3)) end)))
      objects).0
    ≡ ok (num (pos 3))
unfolding resolve create_run_context is_space get_key dict_at lookup resolve_ref get
default_run = refl

segment_tokens-ends_example : is_some (segment_tokens "rows[1") ≡ true
segment_tokens-ends_example = segment_tokens-ends "rows[1"

resolve_ref-names_example :
    resolve_ref objects (ref hook_context.local_scope) "$.rows.id"
    ≡ ok (walk_names objects ("rows" ∷ "id" ∷ []) (ref hook_context.local_scope))
resolve_ref-names_example =
    resolve_ref-names objects (ref hook_context.local_scope) "rows" ("id" ∷ [])
      (rows-IsPlain, (id-IsPlain, tt))

resolve-set_var_example :
    let after = (set_var test_context "id" (str "v") "auto" objects).1 in
    resolve
      (build_scope test_context after).0
      (Json.str "$.local.constants.id")
      (build_scope test_context after).1
    ≡ (ok (str "v"), (build_scope test_context after).1)
resolve-set_var_example =
    resolve-set_var test_context "id" (str "v") objects refl id-IsPlain id-is_word id-is_other
      local_constants
