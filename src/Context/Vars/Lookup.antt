-- ===== src/Context/Vars/Lookup.antt =====
-- `set_context_var` followed by `resolve_constant_value`, and the names and paths that behave in
-- another way.
use qsmith.Prelude.{
  ℕ, String, ◌≡◌, refl, ◌∙◌, ◌≢◌, true, false, none, some, Bool-cases, inl, inr, [], ◌∷◌, ok, err,
  set, subst, get_elem?, arith, ◌==◌, eq_iff, if◌then◌else◌,
}
use qsmith.Prelude.Dict.{Dict, lookup, insert}
use qsmith.Prelude.Text.{◌<>◌, is_space}
use qsmith.Prelude.Text.Strip.{append-nil}
use qsmith.Memory.{Value, ref, dict, Heap, dict_at, key_of}
use qsmith.Context.Path.{to_index, path_tokens, target_tokens}
use qsmith.Context.Path.Plain.{
  IsPlain, path_tokens-render, local-IsPlain, global-IsPlain, constants-IsPlain,
}
use qsmith.Context.State.{RunContext}
use qsmith.Context.Assign.{assign}
use qsmith.Context.Write.{is_test, write_path, target_from_root}
use qsmith.Context.Vars.{constants_dict, find_constant, set_var}
use qsmith.Context.Vars.Effect.{
  auto_scope, set_var_auto, set_var-assign, assign_last_number, assign_down, assign_constant,
  write_path-steps, root_of_local, Constants-of_eq, to_index-constants,
}
use qsmith.Context.Vars.Resolve.{
  object_of_dict_at, find_constant-after_ne, find_constant-after_local, find_constant-after_global,
}

pub object_of_constants :
    (h : Heap) (scope : ℕ) {a : ℕ} {d : Dict Value}
    → constants_dict h scope ≡ some (a, d)
    → get_elem? h a ≡ some (dict d)
object_of_constants h scope found =
    let c = Constants-of_eq h scope _ _ found in object_of_dict_at h c.slot c.inner

find_after_write_self :
    (c : RunContext) (name : String) (v : Value) (h : Heap) (a : ℕ) (d : Dict Value)
    → name ≢ "constants"
    → constants_dict h (auto_scope c) ≡ some (a, d)
    → (is_test c ≡ false → key_of name (constants_dict h c.local_scope) ≡ none)
    → find_constant c name (set h a (dict (insert name v d))) ≡ some v
find_after_write_self c name v h a d word found free =
    let there = object_of_constants h (auto_scope c) found in
    elim (Bool-cases (is_test c)) [
      | inl test ↦ find_constant-after_local h a d name v there c word (rw test at found)
      | inr hook ↦
          find_constant-after_global h a d name v there c word (rw hook at found) (free hook)
    ]

-- The constant is the one that is looked for, or it is another.
find_after_write :
    (c : RunContext) (name j : String) (v : Value) (h : Heap) (a : ℕ) (d : Dict Value)
    → name ≢ "constants"
    → constants_dict h (auto_scope c) ≡ some (a, d)
    → (is_test c ≡ false → key_of name (constants_dict h c.local_scope) ≡ none)
    → find_constant c j (set h a (dict (insert name v d)))
      ≡ (if name == j then some v else find_constant c j h)
find_after_write c name j v h a d word found free = elim (Bool-cases (name == j)) [
  | inl same ↦ rw same (
      subst (λ k. find_constant c k (set h a (dict (insert name v d))) ≡ some v)
        ((eq_iff name j).0 same) (find_after_write_self c name v h a d word found free))
  | inr other ↦ rw other (
      find_constant-after_ne h a d name v (object_of_constants h (auto_scope c) found) c j word
        (λ e. ground (arith, eq_iff name j)))
]

-- After a constant was set with scope `auto`, its name is found with the value that was set, and
-- any other name is found as before. Its name is plain, no number and not `constants`, the scope
-- holds its constants, and outside a test no local constant has the name.
pub find_constant-set_var :
    (c : RunContext) (name j : String) (v : Value) (h : Heap) {a : ℕ} {d : Dict Value}
    → IsPlain name
    → to_index name ≡ none
    → name ≢ "constants"
    → constants_dict h (auto_scope c) ≡ some (a, d)
    → (is_test c ≡ false → key_of name (constants_dict h c.local_scope) ≡ none)
    → find_constant c j (set_var c name v "auto" h).1
      ≡ (if name == j then some v else find_constant c j h)
find_constant-set_var c name j v h p number word found free =
    rw (set_var_auto c name v h p number found) (find_after_write c name j v h _ _ word found free)

to_index-global : to_index "global" ≡ none
unfolding to_index is_space
to_index-global = refl

write_global_target :
    (c : RunContext) (name : String) (v : Value) (h : Heap) {l a : ℕ} {names d : Dict Value}
    → to_index name ≡ none
    → dict_at h (ref c.local_scope) ≡ some (l, names)
    → lookup "global" names ≡ some (ref c.global_scope)
    → constants_dict h c.global_scope ≡ some (a, d)
    → assign ("global" ∷ "constants" ∷ name ∷ []) v (ref c.local_scope) h
      ≡ (ok tt, set h a (dict (insert name v d)))
write_global_target c name v h word local up found =
    let k = Constants-of_eq h c.global_scope _ _ found in
    assign_down "global" "constants" (name ∷ []) (ref c.global_scope) v (ref c.local_scope) h
      to_index-global local up k.scope_dict
    ∙ assign_constant c.global_scope name v h found word

-- During a test, a path that starts at `$.local.global.constants` writes a global constant: the
-- global scope is an entry of the local scope, and only the first name of a path is checked.
pub write_path-global_in_test :
    (c : RunContext) (name : String) (v : Value) (h : Heap) {l a : ℕ} {names d : Dict Value}
    → is_test c ≡ true
    → IsPlain name
    → to_index name ≡ none
    → dict_at h (ref c.local_scope) ≡ some (l, names)
    → lookup "global" names ≡ some (ref c.global_scope)
    → constants_dict h c.global_scope ≡ some (a, d)
    → write_path c ("$.local.global.constants." <> name) v h
      ≡ (ok tt, set h a (dict (insert name v d)))
unfolding target_from_root target_tokens
write_path-global_in_test c name v h test p word local up found =
    let t : path_tokens ("$.local.global.constants." <> name)
        ≡ ok ("local" ∷ "global" ∷ "constants" ∷ name ∷ []) =
      rw (append-nil name) at (
        path_tokens-render "local" ("global" ∷ "constants" ∷ name ∷ [])
          (local-IsPlain, (global-IsPlain, (constants-IsPlain, (p, tt))))) in
    write_path-steps c _ "local" _ v h (root_of_local _ _ t) refl t
    ∙ write_global_target c name v h word local up found

-- A constant whose name is a number is not set: the write raises and changes nothing. The scope
-- holds its constants.
pub set_var-number :
    (c : RunContext) (name : String) (v : Value) (h : Heap) {i a : ℕ} {d : Dict Value}
    → IsPlain name
    → to_index name ≡ some i
    → constants_dict h (auto_scope c) ≡ some (a, d)
    → set_var c name v "auto" h ≡ (err "Target path expects a list segment.", h)
set_var-number c name v h p number found =
    let k = Constants-of_eq h (auto_scope c) _ _ found in
    set_var-assign c name v h p
    ∙ assign_down "constants" name [] k.slot v (ref (auto_scope c)) h to_index-constants
        k.scope_dict k.found k.inner
    ∙ assign_last_number name v k.slot h number k.inner
