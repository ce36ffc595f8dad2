-- ===== src/Context/Write.antt =====
-- `write_context_path` and `remove_context_path`.
pub mod Guard
pub mod Keeps
use qsmith.Prelude.{
  ℕ, String, Bool, true, false, ◌&&◌, Option, none, some, List, [], ◌∷◌, Outcome, ok, err, Exec,
  set, ◌==◌, if◌then◌else◌,
}
use qsmith.Prelude.Dict.{Dict, update}
use qsmith.Memory.{
  Value, ref, Object, dict, Heap, empty_dict, dict_at, get_key, put_key, fresh, alloc,
}
use qsmith.Context.Path.{path_tokens, extract_context_root, target_tokens}
use qsmith.Context.State.{RunContext, World}
use qsmith.Context.Assign.{assign}
use qsmith.Context.Remove.{remove}

abbrev pub is_test : RunContext → Bool
is_test c = c.current_item_kind == "test"

-- The two tests that both functions make before they touch the context.
abbrev pub guard_root : RunContext → String → Outcome (Unit {0})
guard_root c root =
    if (root == "global") && is_test c
    then err "Global context is immutable during test execution."
    else if (root == "runEnvelope") && is_test c
    then err "RunEnvelope context is immutable during test execution."
    else ok tt

abbrev pub commands_of : RunContext → Option (ℕ × Dict Value) → Heap → Value × Heap
commands_of c (some (a, _)) h = (ref a, h)
commands_of c none h =
    (fresh h, put_key (ref c.result_scope) "commands" (fresh h) (alloc empty_dict h))

abbrev pub dict_of : Heap → Option Value → Option (ℕ × Dict Value)
dict_of h none = none
dict_of h (some v) = dict_at h v

-- `_target_from_root`, for the roots that `extract_context_root` answers
unfoldable pub target_from_root : RunContext → String → Heap → Value × Heap
target_from_root c root h =
    if root == "runEnvelope"
    then (ref c.run_envelope, h)
    else if root == "global"
    then (ref c.global_scope, h)
    else if root == "local"
    then (ref c.local_scope, h)
    else if root == "result"
    then (ref c.result_scope, h)
    else commands_of c (dict_of h (get_key h (ref c.result_scope) "commands")) h

-- `target.clear(); target.update(value)`. The value is read after the target is cleared, so a
-- target that is assigned to itself ends empty.
abbrev pub entries : Option (ℕ × Dict Value) → Dict Value
entries none = []
entries (some (_, d)) = d

abbrev pub replace_entries : Value → Option (ℕ × Dict Value) → Heap → Heap
replace_entries v none h = h
replace_entries v (some (a, _)) h =
    let h' = set h a empty_dict in set h' a (dict (update [] (entries (dict_at h' v))))

abbrev pub replace_root : Value → Option (ℕ × Dict Value) → Value → Exec Heap (Unit {0})
replace_root v none target h = (err "Root assignment requires a JSON object value.", h)
replace_root v (some _) target h = (ok tt, replace_entries v (dict_at h target) h)

abbrev pub write_target : List String → Value → Value → Exec Heap (Unit {0})
write_target [] v target h = replace_root v (dict_at h v) target h
write_target (token ∷ rest) v target h = assign (token ∷ rest) v target h

abbrev pub write_at : RunContext → String → Outcome (List String) → Value → Exec Heap (Unit {0})
write_at c root (err message) v h = (err message, h)
write_at c root (ok tokens) v h =
    let (target, h') = target_from_root c root h in
    write_target (target_tokens root tokens) v target h'

abbrev pub write_guarded :
    RunContext → String → String → Outcome (Unit {0}) → Value → Exec Heap (Unit {0})
write_guarded c path root (err message) v h = (err message, h)
write_guarded c path root (ok _) v h = write_at c root (path_tokens path) v h

abbrev pub write_rooted :
    RunContext → String → Outcome (Option String) → Value → Exec Heap (Unit {0})
write_rooted c path (err message) v h = (err message, h)
write_rooted c path (ok none) v h =
    (err "Unsupported target path. Use $.runEnvelope, $.global, $.local or $.result.", h)
write_rooted c path (ok (some root)) v h = write_guarded c path root (guard_root c root) v h

-- `write_context_path`, behind the test for a bound context
unfoldable pub write_path : RunContext → String → Value → Exec Heap (Unit {0})
write_path c path v h = write_rooted c path (extract_context_root path) v h

abbrev pub in_context :
    (RunContext → Exec Heap (Unit {0})) → Option RunContext → Exec World (Unit {0})
in_context f none w = (ok tt, w)
in_context f (some c) w = let (r, h) = f c w.heap in (r, record w { heap = h })

unfoldable pub write_context_path : String → Value → Exec World (Unit {0})
unfolding write_path
write_context_path path v w = in_context (λ c. write_path c path v) w.context w

abbrev pub remove_at : RunContext → String → Outcome (List String) → Exec Heap (Unit {0})
remove_at c root (err message) h = (err message, h)
remove_at c root (ok tokens) h =
    let (target, h') = target_from_root c root h in
    (ok tt, remove (target_tokens root tokens) target h')

abbrev pub remove_guarded : RunContext → String → String → Outcome (Unit {0}) → Exec Heap (Unit {0})
remove_guarded c path root (err message) h = (err message, h)
remove_guarded c path root (ok _) h = remove_at c root (path_tokens path) h

abbrev pub remove_rooted : RunContext → String → Outcome (Option String) → Exec Heap (Unit {0})
remove_rooted c path (err message) h = (err message, h)
remove_rooted c path (ok none) h = (ok tt, h)
remove_rooted c path (ok (some root)) h = remove_guarded c path root (guard_root c root) h

unfoldable pub remove_path : RunContext → String → Exec Heap (Unit {0})
remove_path c path h = remove_rooted c path (extract_context_root path) h

unfoldable pub remove_context_path : String → Exec World (Unit {0})
unfolding remove_path
remove_context_path path w = in_context (λ c. remove_path c path) w.context w
