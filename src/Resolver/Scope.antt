-- ===== src/Resolver/Scope.antt =====
-- What references into the scope of `build_run_context_scope` lead to.
use qsmith.Prelude.{
  ℕ, String, ◌≡◌, refl, sym, ◌≢◌, true, Option, none, some, List, [], ◌∷◌, ok, set, All,
}
use qsmith.Prelude.Dict.{Dict, lookup, insert, lookup-insert_self}
use qsmith.Prelude.Text.{◌<>◌}
use qsmith.Prelude.Text.Strip.{append-nil, strip-is_solid}
use qsmith.Json.{Json}
use qsmith.Memory.Reads.{get_key-alloc, get_key-fresh}
use qsmith.Memory.{Value, ref, dict, Heap, get_key}
use qsmith.Context.Path.{to_index}
use qsmith.Context.Path.Plain.{
  IsPlain, dotted, render, render-is_solid, local-IsPlain, constants-IsPlain,
}
use qsmith.Context.State.{RunContext}
use qsmith.Context.Write.{is_test}
use qsmith.Context.Vars.{constants_dict, set_var}
use qsmith.Context.Vars.Effect.{auto_scope, set_var_auto, Constants-of_eq}
use qsmith.Context.Vars.Resolve.{dict_at-after_self, get_key-after_ne}
use qsmith.Context.Vars.Lookup.{object_of_constants}
use qsmith.Resolver.{build_scope, resolve, resolve_text, dict_or_fresh}
use qsmith.Resolver.Names.{walk_names, resolve_ref-names, not_dollar}

get_key-dict_or_fresh :
    (found : Option (ℕ × Dict Value)) (h : Heap) (v : Value) (k : String) {w : Value}
    → get_key h v k ≡ some w
    → get_key (dict_or_fresh found h).1 v k ≡ some w
get_key-dict_or_fresh none h v k e = get_key-alloc (dict []) h v k e
get_key-dict_or_fresh (some (a, d)) h v k e = e

get_key-build_scope :
    (c : RunContext) (h : Heap) (v : Value) (k : String) {w : Value}
    → get_key h v k ≡ some w
    → get_key (build_scope c h).1 v k ≡ some w
unfolding build_scope
get_key-build_scope c h v k e = get_key-alloc _ _ v k (
    get_key-dict_or_fresh _ _ v k (get_key-dict_or_fresh (constants_dict h c.global_scope) h v k e))

local_of_scope :
    (c : RunContext) (h : Heap)
    → get_key (build_scope c h).1 (build_scope c h).0 "local" ≡ some (ref c.local_scope)
unfolding build_scope lookup
local_of_scope c h = get_key-fresh _ _ "local"

resolve_text-names :
    (h : Heap) (scope : Value) (name : String) (names : List String) {v : Value}
    → All IsPlain (name ∷ names)
    → walk_names h (name ∷ names) scope ≡ some v
    → resolve_text scope (render (name ∷ names)) h ≡ (ok v, h)
unfolding resolve_text
resolve_text-names h scope name names ps e =
    rw (strip-is_solid (render (name ∷ names)) (render-is_solid (name ∷ names) ps)) (
      rw (resolve_ref-names h scope name names ps) (rw (e, not_dollar (name <> dotted names)) refl))

-- In the scope that is built of a context, the reference to a local constant with a plain name
-- is resolved to the constant's value, and resolving it changes no object.
pub resolve-local_constant :
    (c : RunContext) (name : String) (v : Value) (h : Heap) {a : ℕ} {d : Dict Value}
    → IsPlain name
    → constants_dict h c.local_scope ≡ some (a, d)
    → lookup name d ≡ some v
    → resolve (build_scope c h).0 (Json.str ("$.local.constants." <> name)) (build_scope c h).1
      ≡ (ok v, (build_scope c h).1)
unfolding resolve
resolve-local_constant c name v h p found there =
    let k = Constants-of_eq h c.local_scope _ _ found in
    let slot : get_key h (ref c.local_scope) "constants" ≡ some k.slot =
      unfold get_key in rw k.scope_dict k.found in
    let value : get_key h k.slot name ≡ some v = unfold get_key in rw k.inner there in
    rw (append-nil name) at (
      resolve_text-names (build_scope c h).1 (build_scope c h).0 "local" ("constants" ∷ name ∷ [])
        {v = v} (local-IsPlain, (constants-IsPlain, (p, tt)))
        (rw (local_of_scope c h)
          (rw (get_key-build_scope c h _ _ slot) (rw (get_key-build_scope c h _ _ value) refl))))

constants_dict-after_self :
    (h : Heap) (scope : ℕ) (name : String) (v : Value) {a : ℕ} {d : Dict Value}
    → name ≢ "constants"
    → constants_dict h scope ≡ some (a, d)
    → constants_dict (set h a (dict (insert name v d))) scope ≡ some (a, insert name v d)
constants_dict-after_self h scope name v word found =
    let k = Constants-of_eq h scope _ _ found in
    let there = object_of_constants h scope found in
    let slot : get_key h (ref scope) "constants" ≡ some k.slot =
      unfold get_key in rw k.scope_dict k.found in
    rw (get_key-after_ne h _ _ name v there (ref scope) "constants" (λ e. word (sym e)))
      (rw slot (dict_at-after_self h _ _ name v there k.slot k.inner))

-- After a constant was set with scope `auto` during a test, a reference to it in the scope that is
-- built of the context then is resolved to the value that was set. The name is plain, no
-- number and not `constants`, and the local scope holds its constants.
pub resolve-set_var :
    (c : RunContext) (name : String) (v : Value) (h : Heap) {a : ℕ} {d : Dict Value}
    → is_test c ≡ true
    → IsPlain name
    → to_index name ≡ none
    → name ≢ "constants"
    → constants_dict h c.local_scope ≡ some (a, d)
    → let after = (set_var c name v "auto" h).1 in
      resolve
        (build_scope c after).0
        (Json.str ("$.local.constants." <> name))
        (build_scope c after).1
      ≡ (ok v, (build_scope c after).1)
resolve-set_var c name v h {a} {d} test p number word found =
    let auto : constants_dict h (auto_scope c) ≡ some (a, d) = rw test found in
    rw (set_var_auto c name v h p number auto) (
      resolve-local_constant c name v (set h a (dict (insert name v d))) p
        (constants_dict-after_self h c.local_scope name v word found) (lookup-insert_self name v d))
