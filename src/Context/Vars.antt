-- ===== src/Context/Vars.antt =====
-- The functions that set and read constants, and those that bind a suite item for a while.
pub mod Effect
pub mod Resolve
pub mod Lookup
use qsmith.Prelude.{
  ℕ, String, Bool, true, false, Option, none, some, List, [], ◌∷◌, ◌++◌, Outcome, ok, err, Exec,
  ◌==◌, set, if◌then◌else◌, resume,
}
use qsmith.Prelude.Dict.{Dict, lookup}
use qsmith.Prelude.Text.{strip, is_empty, lower, ◌<>◌}
use qsmith.Memory.{
  Value, null, str, ref, Object, dict, list, Heap, empty_dict, empty_list, dict_at, list_at,
  get_key, put_key, key_of, fresh, alloc,
}
use qsmith.Context.State.{RunContext, World, strip_or_none, empty_last, push}
use qsmith.Context.Write.{is_test, write_path, in_context, write_context_path}

-- the scope that `set_context_var` writes to
unfoldable pub scope_for : RunContext → String → String
unfolding strip
scope_for c scope =
    let normalized = strip (if is_empty scope then "local" else scope) in
    if normalized == "auto" then (if is_test c then "local" else "global") else normalized

unfoldable pub set_var : RunContext → String → Value → String → Exec Heap (Unit {0})
unfolding scope_for strip
set_var c key v scope h =
    let normalized = strip key in
    if is_empty normalized
    then (err "Context variable key is required.", h)
    else write_path c ("$." <> scope_for c scope <> ".constants." <> normalized) v h

unfoldable pub set_context_var : String → Value → String → Exec World (Unit {0})
set_context_var key v scope w = in_context (λ c. set_var c key v scope) w.context w

abbrev pub dict_under : Heap → Option Value → Option (ℕ × Dict Value)
dict_under h none = none
dict_under h (some v) = dict_at h v

-- the dict that a scope's `constants` are, if they are one
abbrev pub constants_dict : Heap → ℕ → Option (ℕ × Dict Value)
constants_dict h scope = dict_under h (get_key h (ref scope) "constants")

abbrev pub first_of_two : Option Value → Option Value → Option Value
first_of_two none later = later
first_of_two (some v) later = some v

abbrev pub found_or_null : Option Value → Value
found_or_null none = null
found_or_null (some v) = v

-- The four dicts in the order in which `resolve_constant_value` looks.
unfoldable pub find_constant : RunContext → String → Heap → Option Value
find_constant c name h = first_of_two (key_of name (constants_dict h c.local_scope)) (
    first_of_two (key_of name (constants_dict h c.global_scope)) (
      first_of_two (key_of name (constants_dict h c.run_envelope))
        (key_of name (constants_dict h c.result_scope))))

unfoldable pub resolve_constant : RunContext → String → Heap → Value
unfolding find_constant strip
resolve_constant c name h =
    let normalized = strip name in
    if is_empty normalized then null else found_or_null (find_constant c normalized h)

unfoldable pub resolve_constant_value : String → World → Value
unfolding resolve_constant
resolve_constant_value name w = elim w.context [
  | none ↦ null
  | some c ↦ resolve_constant c name w.heap
]

abbrev pub with_context :
    (RunContext → Heap → RunContext × Heap) → Option RunContext → World → World
with_context f none w = w
with_context f (some c) w = let (c', h) = f c w.heap in record { heap = h; context = some c' }

unfoldable pub reset_local : RunContext → Heap → RunContext × Heap
reset_local c h =
    let h' = put_key (ref c.local_scope) "constants" (fresh h) (alloc empty_dict h) in
    let (last, h'') = push empty_last h' in (record c { last = last }, h'')

unfoldable pub reset_local_context : World → World
reset_local_context w = with_context reset_local w.context w

unfoldable pub set_last : String → Value → RunContext → Heap → RunContext × Heap
unfolding strip
set_last item_id v c h =
    let (last, h') = push (dict (("item_id", str (strip item_id)) ∷ ("data", v) ∷ [])) h in
    (record c { last = last }, h')

unfoldable pub set_context_last : String → Value → World → World
set_context_last item_id v w = with_context (set_last item_id v) w.context w

abbrev pub dict_or_new : (ℕ → Heap → Heap) → Option (ℕ × Dict Value) → Heap → ℕ × Heap
dict_or_new fill (some (a, _)) h = (a, h)
dict_or_new fill none h = let (a, h') = push empty_dict h in (a, fill a h')

abbrev pub list_or_new : (ℕ → Heap → Heap) → Option (ℕ × List Value) → Heap → ℕ × List Value × Heap
list_or_new fill (some (a, items)) h = (a, items, h)
list_or_new fill none h = let (a, h') = push empty_list h in (a, [], fill a h')

abbrev pub list_under : Heap → Option Value → Option (ℕ × List Value)
list_under h none = none
list_under h (some v) = list_at h v

unfoldable pub append_artifact : Value → RunContext → Heap → Heap
append_artifact artifact c h =
    let result = ref c.result_scope in
    let (artifacts, h1) =
      dict_or_new (λ a. put_key result "artifacts" (ref a))
        (dict_under h (get_key h result "artifacts")) h in
    let (asserts, items, h2) =
      list_or_new (λ a. put_key (ref artifacts) "asserts" (ref a))
        (list_under h1 (get_key h1 (ref artifacts) "asserts")) h1 in
    set h2 asserts (list (items ++ (artifact ∷ [])))

unfoldable pub append_assert_artifact : Value → World → World
append_assert_artifact artifact w =
    with_context (λ c h. (c, append_artifact artifact c h)) w.context w

-- `bind_run_context`: the variable is given back on every way out of the body.
unfoldable pub bind_run_context : {A : Type 0} → RunContext → Exec World A → Exec World A
bind_run_context c body w =
    let (r, w') = body (record w { context = some c }) in (r, record w' { context = w.context })

abbrev pub bound_constants : RunContext → Option Value → Heap → Heap
bound_constants c none h = h
bound_constants c (some vars) h = put_key (ref c.local_scope) "constants" vars h

unfoldable pub enter_item :
    String → Option String → Option Value → RunContext → Heap → RunContext × Heap
unfolding strip lower strip_or_none
enter_item item_kind hook_phase local_vars c h = (
  record c {
    current_item_kind =
        lower (strip (if is_empty item_kind then c.current_item_kind else item_kind));
    current_hook_phase = (elim (strip_or_none hook_phase) [
      | none ↦ none
      | some s ↦ some (lower s)
    ]);
  },
  bound_constants c local_vars h,
)

abbrev pub previous_or_new : Heap → Option Value → Value × Heap
previous_or_new h none = (fresh h, alloc empty_dict h)
previous_or_new h (some v) = elim (dict_at h v) [
  | none ↦ (fresh h, alloc empty_dict h)
  | some _ ↦ (v, h)
]

-- The `finally` block, on the object that was bound at the start.
unfoldable pub leave_item : RunContext → Option Value → RunContext → Heap → RunContext × Heap
leave_item before constants c h =
    let (v, h') = previous_or_new h constants in
    (
      record c {
        current_item_kind = before.current_item_kind;
        current_hook_phase = before.current_hook_phase;
      },
      put_key (ref c.local_scope) "constants" v h',
    )

abbrev pub bind_item :
    {A : Type 0}
    → String
    → Option String
    → Option Value
    → Exec World A
    → Option RunContext
    → Exec World A
bind_item kind phase vars body none w = body w
bind_item kind phase vars body (some c) w =
    let constants = get_key w.heap (ref c.local_scope) "constants" in
    let (r, w') = body (with_context (enter_item kind phase vars) (some c) w) in
    (r, with_context (leave_item c constants) w'.context w')

-- `bind_suite_item_context`, around a body that leaves the same context bound
unfoldable pub bind_suite_item_context :
    {A : Type 0} → String → Option String → Option Value → Exec World A → Exec World A
bind_suite_item_context kind phase vars body w = bind_item kind phase vars body w.context w
