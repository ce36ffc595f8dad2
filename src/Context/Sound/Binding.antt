-- ===== src/Context/Sound/Binding.antt =====
-- `bind_suite_item_context` gives back what it found, whatever the body does.
use qsmith.Prelude.{
  ℕ, String, ◌≡◌, refl, sym, ap, ◌∙◌, Option, none, some, Option-cases, inl, inr, Outcome, Exec,
  get_elem?, get_elem?-set, lt_of_get_elem?, arith, eq_refl, subst,
}
use qsmith.Prelude.Dict.{Dict, lookup-insert}
use qsmith.Memory.{Value, null, ref, dict, list, Heap, dict_at, get_key, put_key}
use qsmith.Memory.Kinds.{is_dict, kind_at, Extends, kind_of_dict_at}
use qsmith.Context.State.{RunContext, World}
use qsmith.Context.Vars.{
  bind_suite_item_context, enter_item, leave_item, with_context, previous_or_new,
}

pub get_key-put_key_self :
    (a : ℕ) (k : String) (v : Value) (h : Heap)
    → kind_at h a ≡ some is_dict
    → get_key (put_key (ref a) k v h) (ref a) k ≡ some v
unfolding get_key put_key dict_at
get_key-put_key_self a k v h e = elim (Option-cases (get_elem? h a)) [
  | inl gone ↦ absurd (ground arith)
  | inr (dict d, there) ↦ rw there (
      rw (get_elem?-set h a a _ (lt_of_get_elem? h a there))
        (ground (arith, lookup-insert k k v d, eq_refl k)))
  | inr (list xs, there) ↦ absurd (ground arith)
]

dict_at_of_kind :
    (h : Heap) (a : ℕ)
    → kind_at h a ≡ some is_dict
    → (d : Dict Value) × (dict_at h (ref a) ≡ some (a, d))
unfolding dict_at
dict_at_of_kind h a e = elim (Option-cases (get_elem? h a)) [
  | inl gone ↦ absurd (ground arith)
  | inr (dict d, there) ↦ (d, rw there)
  | inr (list xs, there) ↦ absurd (ground arith)
]

ref_of_dict_at :
    (h : Heap) (v : Value) {a : ℕ} {d : Dict Value} → dict_at h v ≡ some (a, d) → v ≡ ref a
unfolding dict_at
ref_of_dict_at h (ref b) e = elim (Option-cases (get_elem? h b)) [
  | inl gone ↦ absurd (ground arith)
  | inr (dict d, there) ↦ ground arith
  | inr (list xs, there) ↦ absurd (ground arith)
]
ref_of_dict_at h null e = ground arith
ref_of_dict_at h _ e = ground arith

-- A dict is one in every later heap.
dict_at-Extends :
    (h h' : Heap) (v : Value) {a : ℕ} {d : Dict Value}
    → Extends h h'
    → dict_at h v ≡ some (a, d)
    → (d' : Dict Value) × (dict_at h' v ≡ some (a, d'))
dict_at-Extends h h' v {a} e found =
    subst (λ x. (d' : Dict Value) × (dict_at h' x ≡ some (a, d'))) (sym (ref_of_dict_at h v found))
      (dict_at_of_kind h' a (e.keeps a is_dict (kind_of_dict_at h v found)))

previous-held :
    (h : Heap) (v : Value) {a : ℕ} {d : Dict Value}
    → dict_at h v ≡ some (a, d)
    → previous_or_new h (some v) ≡ (v, h)
previous-held h v found = rw (found, previous_or_new)

leave_item-constants :
    (c c' : RunContext) (h : Heap) (v : Value) {a : ℕ} {d : Dict Value}
    → c'.local_scope ≡ c.local_scope
    → kind_at h c.local_scope ≡ some is_dict
    → dict_at h v ≡ some (a, d)
    → get_key (leave_item c (some v) c' h).1 (ref c.local_scope) "constants" ≡ some v
unfolding leave_item
leave_item-constants c c' h v same scope found =
    ap
      (λ (p : Value × Heap).
        get_key (put_key (ref c'.local_scope) "constants" p.0 p.1) (ref c.local_scope) "constants")
      (previous-held h v found)
    ∙ rw same (get_key-put_key_self c.local_scope "constants" v h scope)

-- The world in which the body of the `with` statement runs.
abbrev pub entered : String → Option String → Option Value → World → World
entered kind phase vars w = with_context (enter_item kind phase vars) w.context w

abbrev pub bound_to : Heap → RunContext → World
bound_to h c = record { heap = h; context = some c }

abbrev pub kind_and_phase : Option RunContext → Option (String × Option String)
kind_and_phase none = none
kind_and_phase (some c) = some (c.current_item_kind, c.current_hook_phase)

-- However the body ends, the context has the item kind, the hook phase and the local constants
-- that it had before, and the outcome is the body's. The body leaves a context with the same local
-- scope bound and loses no object, and the local scope held a dict of constants.
pub bind_suite_item_context-restores :
    {A : Type 0} (kind : String) (phase : Option String) (vars : Option Value) (body : Exec World A)
    (h h' : Heap) (c c' : RunContext) (v : Value) (outcome : Outcome A) {a : ℕ} {d : Dict Value}
    → kind_at h c.local_scope ≡ some is_dict
    → get_key h (ref c.local_scope) "constants" ≡ some v
    → dict_at h v ≡ some (a, d)
    → body (entered kind phase vars (bound_to h c)) ≡ (outcome, bound_to h' c')
    → c'.local_scope ≡ c.local_scope
    → Extends h h'
    → let (result, w) = bind_suite_item_context kind phase vars body (bound_to h c) in
      (result ≡ outcome)
      × (kind_and_phase w.context ≡ some (c.current_item_kind, c.current_hook_phase))
      × (get_key w.heap (ref c.local_scope) "constants" ≡ some v)
unfolding bind_suite_item_context
bind_suite_item_context-restores kind phase vars body h h' c c' v outcome scope held found ran same
      keeps =
    let (d', found') = dict_at-Extends h h' v keeps found in
    let kept =
      leave_item-constants c c' h' v same (keeps.keeps c.local_scope is_dict scope) found' in
    rw ran (rw held (refl, (unfold leave_item in refl), kept))
