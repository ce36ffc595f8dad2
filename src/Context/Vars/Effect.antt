-- ===== src/Context/Vars/Effect.antt =====
-- What setting a constant does to the objects, exactly.
use qsmith.Prelude.{
  ℕ, String, ◌≡◌, refl, ◌∙◌, false, none, some, Option-cases, Bool-cases, inl, inr, if◌then◌else◌,
  List, [], ◌∷◌, ok, err, set, get_elem?, arith,
}
use qsmith.Prelude.Dict.{Dict, lookup, insert}
use qsmith.Prelude.Text.{is_space, strip, ◌<>◌}
use qsmith.Prelude.Text.Strip.{strip-is_solid}
use qsmith.Memory.{Value, ref, null, dict, Heap, get_key, dict_at, list_at, list, put_key}
use qsmith.Context.Path.{path_tokens, extract_context_root, to_index, target_tokens, root_of_token}
use qsmith.Context.Path.Plain.{IsPlain, path_tokens-constant, local-IsPlain, global-IsPlain}
use qsmith.Context.State.{RunContext}
use qsmith.Context.Assign.{assign}
use qsmith.Context.Write.{is_test, write_path, target_from_root, guard_root, write_target}
use qsmith.Context.Vars.{constants_dict, set_var, scope_for}

-- The last step of a walk, at a name in a dict.
pub assign_last :
    (name : String) (v cur : Value) (h : Heap) {a : ℕ} {d : Dict Value}
    → to_index name ≡ none
    → dict_at h cur ≡ some (a, d)
    → assign (name ∷ []) v cur h ≡ (ok tt, set h a (dict (insert name v d)))
unfolding assign put_key
assign_last name v cur h word found = rw (word, found) (rw found)

list_at-dict :
    (h : Heap) (v : Value) {a : ℕ} {d : Dict Value} → dict_at h v ≡ some (a, d) → list_at h v ≡ none
unfolding dict_at list_at
list_at-dict h (ref b) e = elim (Option-cases (get_elem? h b)) [
  | inl gone ↦ rw gone
  | inr (dict d, there) ↦ rw there
  | inr (list xs, there) ↦ absurd (ground arith)
]
list_at-dict h null e = refl
list_at-dict h _ e = refl

-- The last step of a walk, at a number in a dict.
pub assign_last_number :
    (name : String) (v cur : Value) (h : Heap) {i a : ℕ} {d : Dict Value}
    → to_index name ≡ some i
    → dict_at h cur ≡ some (a, d)
    → assign (name ∷ []) v cur h ≡ (err "Target path expects a list segment.", h)
unfolding assign
assign_last_number name v cur h number found = rw (number) (rw (list_at-dict h cur found))

-- A step of a walk down into a dict that is there.
pub assign_down :
    (name next : String) (rest : List String) (slot v cur : Value) (h : Heap) {a b : ℕ}
    {d e : Dict Value}
    → to_index name ≡ none
    → dict_at h cur ≡ some (a, d)
    → lookup name d ≡ some slot
    → dict_at h slot ≡ some (b, e)
    → assign (name ∷ next ∷ rest) v cur h ≡ assign (next ∷ rest) v slot h
unfolding assign
assign_down name next rest (ref s) v cur h word found there inner = rw (word, found) (rw there)
assign_down name next rest null v cur h word found there inner = unfold dict_at in cc inner
assign_down name next rest _ v cur h word found there inner = rw (word, found) (rw there)

-- What a dict at `constants` means for the walk.
pub record Constants (h : Heap) (scope a : ℕ) (d : Dict Value) : Type 0 where
  pub owner : ℕ
  pub names : Dict Value
  pub slot : Value
  pub scope_dict : dict_at h (ref scope) ≡ some (owner, names)
  pub found : lookup "constants" names ≡ some slot
  pub inner : dict_at h slot ≡ some (a, d)

pub Constants-of_eq :
    (h : Heap) (scope a : ℕ) (d : Dict Value)
    → constants_dict h scope ≡ some (a, d)
    → Constants h scope a d
unfolding get_key
Constants-of_eq h scope a d e = elim (Option-cases (dict_at h (ref scope))) [
  | inl gone ↦ absurd (ground arith)
  | inr ((b, names), at) ↦ elim (Option-cases (lookup "constants" names)) [
    | inl missing ↦ absurd (ground arith)
    | inr (slot, there) ↦ record {
      owner = b;
      names = names;
      slot = slot;
      scope_dict = at;
      found = there;
      inner = (ground arith);
    }
  ]
]

pub to_index-constants : to_index "constants" ≡ none
unfolding to_index is_space
to_index-constants = refl

pub assign_constant :
    (scope : ℕ) (name : String) (v : Value) (h : Heap) {a : ℕ} {d : Dict Value}
    → constants_dict h scope ≡ some (a, d)
    → to_index name ≡ none
    → assign ("constants" ∷ name ∷ []) v (ref scope) h ≡ (ok tt, set h a (dict (insert name v d)))
assign_constant scope name v h found word =
    let c = Constants-of_eq h scope _ _ found in
    assign_down "constants" name [] c.slot v (ref scope) h to_index-constants c.scope_dict c.found
      c.inner
    ∙ assign_last name v c.slot h word c.inner

-- `write_context_path`, once its path is read.
pub write_path-steps :
    (c : RunContext) (path root : String) (tokens : List String) (v : Value) (h : Heap)
    → extract_context_root path ≡ ok (some root)
    → guard_root c root ≡ ok tt
    → path_tokens path ≡ ok tokens
    → write_path c path v h
      ≡ write_target
          (target_tokens root tokens)
          v
          (target_from_root c root h).0
          (target_from_root c root h).1
unfolding write_path
write_path-steps c path root tokens v h e g t = rw (e, g, t)

pub root_of_local :
    (path : String) (rest : List String)
    → path_tokens path ≡ ok ("local" ∷ rest)
    → extract_context_root path ≡ ok (some "local")
unfolding extract_context_root is_space
root_of_local path rest e = rw e

write_local :
    (c : RunContext) (name : String) (v : Value) (h : Heap)
    → IsPlain name
    → write_path c ("$." <> ("local" <> (".constants." <> name))) v h
      ≡ assign ("constants" ∷ name ∷ []) v (ref c.local_scope) h
unfolding target_from_root target_tokens
write_local c name v h p =
    let t = path_tokens-constant "local" name local-IsPlain p in
    write_path-steps c _ "local" _ v h (root_of_local _ _ t) refl t

pub root_of_global :
    (path : String) (rest : List String)
    → path_tokens path ≡ ok ("global" ∷ rest)
    → extract_context_root path ≡ ok (some "global")
unfolding extract_context_root root_of_token strip is_space
root_of_global path rest e = rw e

pub guard_of_hook : (c : RunContext) → is_test c ≡ false → guard_root c "global" ≡ ok tt
guard_of_hook c hook = rw hook

write_global :
    (c : RunContext) (name : String) (v : Value) (h : Heap)
    → is_test c ≡ false
    → IsPlain name
    → write_path c ("$." <> ("global" <> (".constants." <> name))) v h
      ≡ assign ("constants" ∷ name ∷ []) v (ref c.global_scope) h
unfolding target_from_root target_tokens
write_global c name v h hook p =
    let t = path_tokens-constant "global" name global-IsPlain p in
    write_path-steps c _ "global" _ v h (root_of_global _ _ t) (guard_of_hook c hook) t

-- Where `auto` puts a constant.
abbrev pub auto_scope : RunContext → ℕ
auto_scope c = if is_test c then c.local_scope else c.global_scope

pub scope_for_auto :
    (c : RunContext) → scope_for c "auto" ≡ (if is_test c then "local" else "global")
unfolding scope_for is_space
scope_for_auto c = refl

pub set_var-plain :
    (c : RunContext) (name scope : String) (v : Value) (h : Heap)
    → IsPlain name
    → set_var c name v scope h
      ≡ write_path c ("$." <> (scope_for c scope <> (".constants." <> name))) v h
unfolding set_var
set_var-plain c name scope v h p = rw (strip-is_solid name p.solid) (rw p.filled)

pub set_var-assign :
    (c : RunContext) (name : String) (v : Value) (h : Heap)
    → IsPlain name
    → set_var c name v "auto" h ≡ assign ("constants" ∷ name ∷ []) v (ref (auto_scope c)) h
set_var-assign c name v h p = elim (Bool-cases (is_test c)) [
  | inl test ↦
      set_var-plain c name "auto" v h p ∙ rw (scope_for_auto c) (rw test (write_local c name v h p))
  | inr hook ↦
      set_var-plain c name "auto" v h p
      ∙ rw (scope_for_auto c) (rw hook (write_global c name v h hook p))
]

-- Setting a constant with scope `auto` writes the entry into the dict `constants` of the local
-- scope during a test and of the global scope otherwise, and changes no other object. The name is
-- plain and no number, and that scope holds its constants.
pub set_var_auto :
    (c : RunContext) (name : String) (v : Value) (h : Heap) {a : ℕ} {d : Dict Value}
    → IsPlain name
    → to_index name ≡ none
    → constants_dict h (auto_scope c) ≡ some (a, d)
    → set_var c name v "auto" h ≡ (ok tt, set h a (dict (insert name v d)))
set_var_auto c name v h p word found =
    set_var-assign c name v h p ∙ assign_constant (auto_scope c) name v h found word
