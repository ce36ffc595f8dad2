-- ===== src/Context/Payload.antt =====
-- `serialize_run_context` and `deserialize_run_context`, by which a mock server hands a context on to
-- what runs after its response.
pub mod Roundtrip
use qsmith.Prelude.{
  ℕ, zero, String, Bool, true, false, not, Option, none, some, List, [], ◌∷◌, length, eqb,
  if◌then◌else◌,
}
use qsmith.Prelude.Dict.{Dict}
use qsmith.Prelude.Int.{ℤ, pos}
use qsmith.Prelude.Text.{strip, is_empty}
use qsmith.Memory.{
  Value, null, bool, num, str, ref, Object, dict, list, Heap, empty_dict, dict_at, list_at, get_key,
  key_of, put_key, fresh, alloc,
}
use qsmith.Context.State.{RunContext, create_run_context, strip_or_none, push, empty_last}
use qsmith.Context.Vars.{dict_under}

abbrev pub text_or_null : Option String → Value
text_or_null none = null
text_or_null (some s) = str s

unfoldable pub serialize_run_context : RunContext → Heap → Value × Heap
unfolding strip strip_or_none
serialize_run_context c h =
    let (a, h') =
      push
        (dict (
          ("run_id", str (strip c.run_id))
          ∷ ("runEnvelope", ref c.run_envelope)
          ∷ ("global", ref c.global_scope)
          ∷ ("local", ref c.local_scope)
          ∷ ("result", ref c.result_scope)
          ∷ ("invocation_id", text_or_null (strip_or_none c.invocation_id))
          ∷ ("last", ref c.last)
          ∷ []))
        h in
    (ref a, h')

abbrev pub is_filled_list : Option (ℕ × List Value) → Bool
is_filled_list none = false
is_filled_list (some (_, [])) = false
is_filled_list (some (_, _ ∷ _)) = true

abbrev pub is_filled_object : Option (ℕ × Dict Value) → Option (ℕ × List Value) → Bool
is_filled_object none l = is_filled_list l
is_filled_object (some (_, [])) l = false
is_filled_object (some (_, _ ∷ _)) l = true

-- Whether Python takes a value for true.
abbrev pub is_true : Heap → Value → Bool
is_true h null = false
is_true h (bool b) = b
is_true h (num (pos n)) = not (eqb n 0)
is_true h (num _) = true
is_true h (str s) = not (is_empty s)
is_true h (ref a) = is_filled_object (dict_at h (ref a)) (list_at h (ref a))

-- `v or later`, where `v` may be missing
abbrev pub or_else : Heap → Option Value → Value → Value
or_else h none later = later
or_else h (some v) later = if is_true h v then v else later

abbrev pub address_of : Option (ℕ × Dict Value) → Option ℕ
address_of none = none
address_of (some (a, _)) = some a

-- `x if isinstance(x, dict) else {}`
abbrev pub dict_or_empty : Option (ℕ × Dict Value) → Heap → Value × Heap
dict_or_empty none h = (fresh h, alloc empty_dict h)
dict_or_empty (some (a, _)) h = (ref a, h)

abbrev pub constants_of : Heap → Option Value → Option (ℕ × Dict Value)
constants_of h scope = dict_under h (key_of "constants" (dict_under h scope))

-- `context.scope["constants"] = ...`
abbrev pub give_constants : ℕ → Option (ℕ × Dict Value) → Heap → Heap
give_constants scope found h =
    let (v, h') = dict_or_empty found h in put_key (ref scope) "constants" v h'

abbrev pub new_result : Heap → ℕ × Heap
new_result h =
    let (artifacts, h1) = push empty_dict h in
    let (commands, h2) = push empty_dict h1 in
    let (constants, h3) = push empty_dict h2 in
    push
      (dict (
        ("artifacts", ref artifacts)
        ∷ ("commands", ref commands)
        ∷ ("constants", ref constants)
        ∷ []))
      h3

-- An empty result scope counts as a missing one.
abbrev pub result_or_new : Option (ℕ × Dict Value) → Heap → ℕ × Heap
result_or_new (some (a, _ ∷ _)) h = (a, h)
result_or_new _ h = new_result h

abbrev pub last_or_new : Option (ℕ × Dict Value) → Heap → ℕ × Heap
last_or_new (some (a, _)) h = (a, h)
last_or_new none h = push empty_last h

-- `show` is `str` of a value; that of a text is the text.
module _ (show : Heap → Value → String) where
  abbrev pub text_of : Heap → Value → String
  text_of h (str s) = s
  text_of h v = show h v

  -- `str(v or "").strip()`
  abbrev pub stripped_text : Heap → Option Value → String
  stripped_text h v = strip (text_of h (or_else h v (str "")))

  -- The payload's parts are read on the heap as it was: nothing that they are made of is changed.
  unfoldable pub deserialize_run_context : Value → Heap → RunContext × Heap
  unfolding create_run_context strip
  deserialize_run_context payload h =
      let envelope = dict_under h (get_key h payload "runEnvelope") in
      let run_id = strip (
        text_of h (
          or_else h (get_key h payload "run_id")
            (or_else h (key_of "run_id" envelope) (str "")))) in
      let (c, h1) =
        create_run_context run_id (address_of (dict_under h (key_of "event" envelope)))
          (address_of (dict_under h (key_of "constants" envelope)))
          (some (stripped_text h (get_key h payload "invocation_id"))) h in
      let h2 = give_constants c.global_scope (constants_of h (get_key h payload "global")) h1 in
      let h3 = give_constants c.local_scope (constants_of h (get_key h payload "local")) h2 in
      let (result, h4) = result_or_new (dict_under h (get_key h payload "result")) h3 in
      let (last, h5) = last_or_new (dict_under h (get_key h payload "last")) h4 in
      (record c { result_scope = result; last = last }, h5)
