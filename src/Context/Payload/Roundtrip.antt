-- ===== src/Context/Payload/Roundtrip.antt =====
-- A context that was serialized and read again shares what it held.
use qsmith.Prelude.{
  ℕ, String, ◌≡◌, refl, ◌∙◌, false, Option, some, [], ◌∷◌, length, length-append, eqb, arith,
}
use qsmith.Prelude.Dict.{Dict, lookup}
use qsmith.Memory.{Value, ref, Object, Heap, alloc, dict_at, get_key}
use qsmith.Memory.Kinds.{is_dict, kind_at, Extends-put_key}
use qsmith.Memory.Reads.{dict_at-alloc, get_key-fresh, get_key-put_key_other}
use qsmith.Context.State.{RunContext, create_run_context}
use qsmith.Context.Vars.{constants_dict, dict_under}
use qsmith.Context.Vars.Effect.{Constants-of_eq}
use qsmith.Context.Sound.Vars.{create_run_context-Scoped}
use qsmith.Context.Sound.Binding.{get_key-put_key_self}
use qsmith.Context.Payload.{
  serialize_run_context, deserialize_run_context, constants_of, give_constants, stripped_text,
}

length-alloc_apart :
    (o p : Object) (h : Heap) → eqb (length (alloc o (alloc p h))) (length h) ≡ false
length-alloc_apart o p h =
    let one = length-append h (p ∷ []) in
    let two = length-append (alloc p h) (o ∷ []) in ground arith

-- A new context's local scope is another object than its global scope.
create_run_context-apart :
    (run_id : String) (event initial_vars : Option ℕ) (invocation_id : Option String) (h : Heap)
    → let c = (create_run_context run_id event initial_vars invocation_id h).0 in
      eqb c.local_scope c.global_scope ≡ false
unfolding create_run_context
create_run_context-apart run_id event initial_vars invocation_id h = length-alloc_apart _ _ _

constants_of-serialize_run_context :
    (c : RunContext) (h : Heap) (k : String) (scope a : ℕ) (d : Dict Value)
    → get_key (serialize_run_context c h).1 (serialize_run_context c h).0 k ≡ some (ref scope)
    → constants_dict h scope ≡ some (a, d)
    → constants_of
        (serialize_run_context c h).1
        (get_key (serialize_run_context c h).1 (serialize_run_context c h).0 k)
      ≡ some (a, d)
unfolding serialize_run_context get_key
constants_of-serialize_run_context c h k scope a d entry e =
    let n = Constants-of_eq h scope a d e in
    rw entry (
      rw (dict_at-alloc _ h (ref scope) n.scope_dict)
        (rw n.found (dict_at-alloc _ h n.slot n.inner)))

serialize_run_context-entries :
    (c : RunContext) (h : Heap)
    → let (v, h') = serialize_run_context c h in
      (get_key h' v "global" ≡ some (ref c.global_scope))
      × (get_key h' v "local" ≡ some (ref c.local_scope))
      × (get_key h' v "result" ≡ some (ref c.result_scope))
      × (get_key h' v "last" ≡ some (ref c.last))
unfolding serialize_run_context lookup
serialize_run_context-entries c h = (
  get_key-fresh _ h "global",
  get_key-fresh _ h "local",
  get_key-fresh _ h "result",
  get_key-fresh _ h "last",
)

dict_under-serialize_run_context :
    (c : RunContext) (h : Heap) (k : String) (a : ℕ) (d : Dict Value)
    → get_key (serialize_run_context c h).1 (serialize_run_context c h).0 k ≡ some (ref a)
    → dict_at h (ref a) ≡ some (a, d)
    → dict_under
        (serialize_run_context c h).1
        (get_key (serialize_run_context c h).1 (serialize_run_context c h).0 k)
      ≡ some (a, d)
unfolding serialize_run_context
dict_under-serialize_run_context c h k a d entry e = rw entry (dict_at-alloc _ h (ref a) e)

-- What a context is read back to shares the objects of the one that was serialized.
pub record Shares (c c' : RunContext) (h : Heap) (a b : ℕ) : Type 0 where
  pub result : c'.result_scope ≡ c.result_scope
  pub last : c'.last ≡ c.last
  pub global : get_key h (ref c'.global_scope) "constants" ≡ some (ref a)
  pub local : get_key h (ref c'.local_scope) "constants" ≡ some (ref b)

-- Each of the two scopes gets its constants, and neither assignment undoes the other.
give_constants-both :
    (h : Heap) (g l a b : ℕ) (d e : Dict Value)
    → kind_at h g ≡ some is_dict
    → kind_at h l ≡ some is_dict
    → eqb l g ≡ false
    → let h' = give_constants l (some (b, e)) (give_constants g (some (a, d)) h) in
      (get_key h' (ref g) "constants" ≡ some (ref a))
      × (get_key h' (ref l) "constants" ≡ some (ref b))
give_constants-both h g l a b d e is_g is_l ne = (
  get_key-put_key_other l g "constants" "constants" (ref b) _ ne
      ∙ get_key-put_key_self g "constants" (ref a) h is_g,
  get_key-put_key_self l "constants" (ref b) _
      ((Extends-put_key (ref g) "constants" (ref a) h).keeps l is_dict is_l),
)

create_run_context-give_constants :
    (run_id : String) (event vars : Option ℕ) (invocation_id : Option String) (h : Heap) (a b : ℕ)
    (d e : Dict Value)
    → let (c, h1) = create_run_context run_id event vars invocation_id h in
      let h' =
        give_constants c.local_scope
          (some (b, e))
          (give_constants c.global_scope (some (a, d)) h1) in
      (get_key h' (ref c.global_scope) "constants" ≡ some (ref a))
      × (get_key h' (ref c.local_scope) "constants" ≡ some (ref b))
create_run_context-give_constants run_id event vars invocation_id h a b d e =
    let s = create_run_context-Scoped run_id event vars invocation_id h in
    give_constants-both _ _ _ a b d e s.global s.local
      (create_run_context-apart run_id event vars invocation_id h)

-- A context that was serialized and read back has the same result scope and the same `last`, and its
-- global and local scopes hold the same two dicts of constants: the objects themselves, not copies.
-- The scopes held dicts of constants, the result scope is a dict that is not empty, and `last` is a
-- dict.
pub deserialize_run_context-serialize_run_context :
    (show : Heap → Value → String) (c : RunContext) (h : Heap) (a b : ℕ) (d e r l : Dict Value)
    (k : String) (v : Value)
    → constants_dict h c.global_scope ≡ some (a, d)
    → constants_dict h c.local_scope ≡ some (b, e)
    → dict_at h (ref c.result_scope) ≡ some (c.result_scope, (k, v) ∷ r)
    → dict_at h (ref c.last) ≡ some (c.last, l)
    → let (payload, h') = serialize_run_context c h in
      let (c', h'') = deserialize_run_context show payload h' in Shares c c' h'' a b
unfolding deserialize_run_context
deserialize_run_context-serialize_run_context show c h a b d e r l k v globals locals result last =
    let (g_entry, l_entry, r_entry, last_entry) = serialize_run_context-entries c h in
    rw (constants_of-serialize_run_context c h "global" c.global_scope a d g_entry globals) (
      rw (constants_of-serialize_run_context c h "local" c.local_scope b e l_entry locals) (
        rw
          (dict_under-serialize_run_context c h "result" c.result_scope ((k, v) ∷ r) r_entry result)
          (rw (dict_under-serialize_run_context c h "last" c.last l last_entry last) (
            let (payload, h') = serialize_run_context c h in
            let invocation_id = stripped_text show h' (get_key h' payload "invocation_id") in
            let given = create_run_context-give_constants _ _ _ (some invocation_id) h' a b d e in
            record { result = refl; last = refl; global = given.0; local = given.1 }))))
