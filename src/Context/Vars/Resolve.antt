-- ===== src/Context/Vars/Resolve.antt =====
-- What a constant resolves to after another one, or the same one, was set.
use qsmith.Prelude.{
  ℕ, String, ◌≡◌, refl, sym, ◌≢◌, ◌⊎◌, true, Option, none, some, Option-cases, Bool-cases, inl, inr,
  set, get_elem?, get_elem?-set, lt_of_get_elem?, arith, eqb, eq_iff, eq_refl, eq_of_eqb,
}
use qsmith.Prelude.Dict.{Dict, insert, lookup-insert}
use qsmith.Memory.{Value, ref, null, dict, list, Heap, get_key, key_of, dict_at}
use qsmith.Context.State.{RunContext}
use qsmith.Context.Vars.{constants_dict, dict_under, find_constant}

pub object_of_dict_at :
    (h : Heap) (v : Value) {a : ℕ} {d : Dict Value}
    → dict_at h v ≡ some (a, d)
    → get_elem? h a ≡ some (dict d)
unfolding dict_at
object_of_dict_at h (ref b) e = elim (Option-cases (get_elem? h b)) [
  | inl gone ↦ absurd (ground arith)
  | inr (dict d, there) ↦ ground arith
  | inr (list xs, there) ↦ absurd (ground arith)
]
object_of_dict_at h null e = ground arith
object_of_dict_at h _ e = ground arith

-- A heap in which the dict at `a` has one more entry, or a new value for one.
module _ (h : Heap) (a : ℕ) (d : Dict Value) (name : String) (v : Value)
    (there : get_elem? h a ≡ some (dict d)) where
  abbrev pub after : Heap
  after = set h a (dict (insert name v d))

  pub get_key-after_ne : (x : Value) (j : String) → j ≢ name → get_key after x j ≡ get_key h x j
  unfolding get_key dict_at
  get_key-after_ne (ref b) j ne = elim (Bool-cases (eqb a b)) [
    | inl same ↦ rw (get_elem?-set h a b (dict (insert name v d)) (lt_of_get_elem? h a there)) (
        rw same
          (rw (get_elem?-same b same) (ground (arith, lookup-insert j name v d, eq_iff name j))))
    | inr other ↦
        rw (get_elem?-set h a b (dict (insert name v d)) (lt_of_get_elem? h a there)) (rw other)
  ]
    where
      get_elem?-same : (b : ℕ) → eqb a b ≡ true → get_elem? h b ≡ some (dict d)
      get_elem?-same b same = rw (sym (eq_of_eqb a b same)) there
  get_key-after_ne null j ne = refl
  get_key-after_ne _ j ne = refl

  -- the constant `j` of a scope
  abbrev pub constant_in : Heap → ℕ → String → Option Value
  constant_in g scope j = key_of j (constants_dict g scope)

  pub key_under-after_ne :
      (o : Option Value) (j : String)
      → j ≢ name
      → key_of j (dict_under after o) ≡ key_of j (dict_under h o)
  unfolding get_key
  key_under-after_ne none j ne = refl
  key_under-after_ne (some x) j ne = get_key-after_ne x j ne

  pub constant_in-after_ne :
      (scope : ℕ) (j : String)
      → name ≢ "constants"
      → j ≢ name
      → constant_in after scope j ≡ constant_in h scope j
  constant_in-after_ne scope j word ne =
      rw (get_key-after_ne (ref scope) "constants" (λ e. word (sym e)))
        (key_under-after_ne (get_key h (ref scope) "constants") j ne)

  pub find_constant-after_ne :
      (c : RunContext) (j : String)
      → name ≢ "constants"
      → j ≢ name
      → find_constant c j after ≡ find_constant c j h
  unfolding find_constant
  find_constant-after_ne c j word ne = rw (
    constant_in-after_ne c.local_scope j word ne,
    constant_in-after_ne c.global_scope j word ne,
    constant_in-after_ne c.run_envelope j word ne,
    constant_in-after_ne c.result_scope j word ne,
  )

  pub dict_at-after_self :
      (x : Value) → dict_at h x ≡ some (a, d) → dict_at after x ≡ some (a, insert name v d)
  unfolding dict_at
  dict_at-after_self (ref b) e = elim (Option-cases (get_elem? h b)) [
    | inl gone ↦ absurd (ground arith)
    | inr (dict f, at) ↦
        ground (arith, get_elem?-set h a b (dict (insert name v d)), lt_of_get_elem? h a there)
    | inr (list xs, at) ↦ absurd (ground arith)
  ]
  dict_at-after_self null e = ground arith
  dict_at-after_self _ e = ground arith

  pub key_under-after_self :
      (o : Option Value) → dict_under h o ≡ some (a, d) → key_of name (dict_under after o) ≡ some v
  key_under-after_self none e = cc
  key_under-after_self (some x) e = rw (dict_at-after_self x e) (rw lookup-insert (rw eq_refl))

  pub constant_in-after_self :
      (scope : ℕ)
      → name ≢ "constants"
      → constants_dict h scope ≡ some (a, d)
      → constant_in after scope name ≡ some v
  constant_in-after_self scope word found =
      rw (get_key-after_ne (ref scope) "constants" (λ e. word (sym e)))
        (key_under-after_self (get_key h (ref scope) "constants") found)

  pub get_key-after_cases :
      (x : Value) → (get_key after x name ≡ some v) ⊎ (get_key after x name ≡ get_key h x name)
  unfolding get_key dict_at
  get_key-after_cases (ref b) = elim (Bool-cases (eqb a b)) [
    | inl same ↦ inl (
        rw (get_elem?-set h a b (dict (insert name v d)) (lt_of_get_elem? h a there))
          (rw same (rw lookup-insert (rw eq_refl))))
    | inr other ↦
        inr
          (rw (get_elem?-set h a b (dict (insert name v d)) (lt_of_get_elem? h a there)) (rw other))
  ]
  get_key-after_cases null = inr refl
  get_key-after_cases _ = inr refl

  pub key_under-after_cases :
      (o : Option Value)
      → (key_of name (dict_under after o) ≡ some v)
        ⊎ (key_of name (dict_under after o) ≡ key_of name (dict_under h o))
  unfolding get_key
  key_under-after_cases none = inr refl
  key_under-after_cases (some x) = get_key-after_cases x

  pub constant_in-after_cases :
      (scope : ℕ)
      → name ≢ "constants"
      → (constant_in after scope name ≡ some v)
        ⊎ (constant_in after scope name ≡ constant_in h scope name)
  constant_in-after_cases scope word =
      rw (get_key-after_ne (ref scope) "constants" (λ e. word (sym e)))
        (key_under-after_cases (get_key h (ref scope) "constants"))

  -- The name is found once the local scope or, where that lacks it, the global scope has it.
  pub find_constant-after_local :
      (c : RunContext)
      → name ≢ "constants"
      → constants_dict h c.local_scope ≡ some (a, d)
      → find_constant c name after ≡ some v
  unfolding find_constant
  find_constant-after_local c word found = rw (constant_in-after_self c.local_scope word found)

  pub find_constant-after_global :
      (c : RunContext)
      → name ≢ "constants"
      → constants_dict h c.global_scope ≡ some (a, d)
      → constant_in h c.local_scope name ≡ none
      → find_constant c name after ≡ some v
  unfolding find_constant
  find_constant-after_global c word found free = elim (constant_in-after_cases c.local_scope word) [
    | inl here ↦ rw here
    | inr as_before ↦ rw as_before (rw free (rw (constant_in-after_self c.global_scope word found)))
  ]
