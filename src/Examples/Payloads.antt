-- ===== src/Examples/Payloads.antt =====
-- The theorem on a context that is handed on, at a new context.
use qsmith.Prelude.{String, ◌≡◌, refl, some, [], ◌∷◌}
use qsmith.Prelude.Dict.{lookup}
use qsmith.Prelude.Text.{is_space}
use qsmith.Memory.{Value, null, ref, str, Heap, get_key, dict_at}
use qsmith.Context.State.{create_run_context}
use qsmith.Context.Vars.{constants_dict}
use qsmith.Context.Payload.{serialize_run_context, deserialize_run_context}
use qsmith.Context.Payload.Roundtrip.{Shares, deserialize_run_context-serialize_run_context}
use qsmith.Examples.Data.{hook_context, test_context, objects, local_constants}

abbrev shown : Heap → Value → String
shown h v = "shown"

global_names : constants_dict objects hook_context.global_scope ≡ some (3, [])
unfolding create_run_context is_space get_key dict_at lookup
global_names = refl

result_dict :
    dict_at objects (ref test_context.result_scope)
    ≡ some (10, ("artifacts", ref 7) ∷ ("commands", ref 8) ∷ ("constants", ref 9) ∷ [])
unfolding create_run_context is_space dict_at
result_dict = refl

last_dict :
    dict_at objects (ref test_context.last) ≡ some (11, ("item_id", str "") ∷ ("data", null) ∷ [])
unfolding create_run_context is_space dict_at
last_dict = refl

deserialize_run_context-serialize_run_context_example :
    let (payload, h') = serialize_run_context test_context objects in
    let (c', h'') = deserialize_run_context shown payload h' in Shares test_context c' h'' 3 5
unfolding create_run_context is_space
deserialize_run_context-serialize_run_context_example =
    deserialize_run_context-serialize_run_context shown test_context objects 3 5 [] []
      (("commands", ref 8) ∷ ("constants", ref 9) ∷ []) (("item_id", str "") ∷ ("data", null) ∷ [])
      "artifacts" (ref 7) global_names local_constants result_dict last_dict
