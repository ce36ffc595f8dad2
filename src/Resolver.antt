-- ===== src/Resolver.antt =====
-- app/elaborations/services/suite_runs/run_context_resolver.py: references into the run context.
pub mod Path
pub mod Reference
pub mod Names
pub mod Scope
use qsmith.Prelude.{
  ℕ, String, Bool, true, false, not, ◌&&◌, ◌||◌, Option, none, some, List, [], ◌∷◌, Outcome, ok,
  err, Exec, pure, raise, lift, resume, is_some, eqb, ◌==◌, if◌then◌else◌, ◌>>=◌,
}
use qsmith.Prelude.Dict.{Dict, insert}
use qsmith.Prelude.Int.{ℤ, pos}
use qsmith.Prelude.Text.{strip, is_empty, starts_with}
use qsmith.Json.{Json, Items, nil, cons, Fields, end, field, get}
use qsmith.Memory.{Value, ref, Object, dict, list, Heap, dict_at, fresh, alloc, get_key}
use qsmith.Context.State.{RunContext, push}
use qsmith.Context.Vars.{constants_dict, dict_under}
use Reference.{resolve_ref}

-- `isinstance(x, dict)` of an entry, with a new dict where it is none
abbrev pub dict_or_fresh : Option (ℕ × Dict Value) → Heap → Value × Heap
dict_or_fresh none h = (fresh h, alloc (dict []) h)
dict_or_fresh (some (a, _)) h = (ref a, h)

-- `build_run_context_scope` of a context
unfoldable pub build_scope : RunContext → Heap → Value × Heap
build_scope c h =
    let (vars, h1) = dict_or_fresh (constants_dict h c.global_scope) h in
    let (response, h2) =
      dict_or_fresh (dict_under h1 (get_key h1 (ref c.result_scope) "commands")) h1 in
    let (scope, h3) =
      push
        (dict (
          ("runEnvelope", ref c.run_envelope)
          ∷ ("global", ref c.global_scope)
          ∷ ("local", ref c.local_scope)
          ∷ ("result", ref c.result_scope)
          ∷ ("vars", vars)
          ∷ ("response", response)
          ∷ []))
        h2 in
    (ref scope, h3)

-- Whether Python takes a value for true.
abbrev is_true : Json → Bool
is_true Json.null = false
is_true (Json.bool b) = b
is_true (Json.num (pos n)) = not (eqb n 0)
is_true (Json.num _) = true
is_true (Json.str s) = not (is_empty s)
is_true (Json.arr nil) = false
is_true (Json.arr _) = true
is_true (Json.obj end) = false
is_true (Json.obj _) = true

abbrev is_true_at : Option Json → Bool
is_true_at none = false
is_true_at (some v) = is_true v

abbrev has_field : String → Fields → Bool
has_field k fs = is_some (get k fs)

-- The text of a `$ref`; any value that is no text gives one that is refused.
abbrev ref_text : Option Json → String
ref_text (some (Json.str s)) = s
ref_text _ = ""

abbrev or_text : String → Option Value → Value
or_text s none = Value.str s
or_text s (some v) = v

abbrev resolved_text : String → Outcome (Option Value) → Outcome Value
resolved_text s (err message) = err message
resolved_text s (ok o) = ok (or_text s o)

-- A text that starts as a path is a reference; one that leads nowhere stays as it is.
unfoldable pub resolve_text : Value → String → Exec Heap Value
unfolding strip starts_with
resolve_text scope s h =
    let raw = strip s in
    if (raw == "$") || starts_with raw "$."
    then (resolved_text s (resolve_ref h scope raw), h)
    else (ok (Value.str s), h)

abbrev or_missing : Exec Heap Value → Outcome (Option Value) → Exec Heap Value
or_missing missing (err message) h = (err message, h)
or_missing missing (ok (some v)) h = (ok v, h)
or_missing missing (ok none) h = missing h

abbrev alloc_list : Exec Heap (List Value) → Exec Heap Value
alloc_list items = do vs ← items; λ h. (ok (fresh h), alloc (list vs) h)

abbrev alloc_dict : Exec Heap (Dict Value) → Exec Heap Value
alloc_dict entries = do d ← entries; λ h. (ok (fresh h), alloc (dict d) h)

abbrev resolve_dict :
    Value → Fields → Exec Heap Value → Exec Heap Value → Exec Heap (Dict Value) → Exec Heap Value
resolve_dict scope fs constant default entries h =
    if has_field "$const" fs && not (has_field "$ref" fs)
    then constant h
    else if has_field "$ref" fs
    then or_missing
        (if has_field "$default" fs
          then default
          else if is_true_at (get "$required" fs)
          then raise "Required reference not found"
          else pure Value.null)
        (resolve_ref h scope (ref_text (get "$ref" fs))) h
    else alloc_dict entries h

-- `resolve_dynamic_value`. What is built is new; what a reference leads to is the object itself.
unfoldable mutual
  pub resolve : Value → Json → Exec Heap Value
  resolve scope Json.null = pure Value.null
  resolve scope (Json.bool b) = pure (Value.bool b)
  resolve scope (Json.num n) = pure (Value.num n)
  resolve scope (Json.str s) = resolve_text scope s
  resolve scope (Json.arr xs) = alloc_list (resolve_items scope xs)
  resolve scope (Json.obj fs) =
      resolve_dict scope fs (resolve_at scope "$const" fs) (resolve_at scope "$default" fs)
        (resolve_fields scope fs)

  resolve_items : Value → Items → Exec Heap (List Value)
  resolve_items scope nil = pure []
  resolve_items scope (cons x xs) =
      resolve scope x >>= λ v. resolve_items scope xs >>= λ vs. pure (v ∷ vs)

  -- the value at a key, resolved
  resolve_at : Value → String → Fields → Exec Heap Value
  resolve_at scope k end h = (ok Value.null, h)
  resolve_at scope k (field j v fs) h = elim (j == k) [
    | true ↦ resolve scope v h
    | false ↦ resolve_at scope k fs h
  ]

  resolve_fields : Value → Fields → Exec Heap (Dict Value)
  resolve_fields scope end = pure []
  resolve_fields scope (field k v fs) =
      resolve scope v >>= λ x. resolve_fields scope fs >>= λ d. pure ((k, x) ∷ d)
