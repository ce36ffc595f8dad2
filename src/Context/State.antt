-- ===== src/Context/State.antt =====
-- `RunContext` and its constructor, `create_run_context`.
use qsmith.Prelude.{ℕ, String, Option, none, some, [], ◌∷◌, length, if◌then◌else◌}
use qsmith.Prelude.Text.{strip, is_empty}
use qsmith.Memory.{Value, null, str, ref, Object, dict, Heap, empty_dict, fresh, alloc}

-- The four scopes are dicts, `last` is one too. `ℕ` is a dict's address.
pub record RunContext : Type 0 where
  pub run_id : String
  pub run_envelope : ℕ
  pub global_scope : ℕ
  pub local_scope : ℕ
  pub result_scope : ℕ
  pub invocation_id : Option String
  pub current_item_kind : String
  pub current_hook_phase : Option String
  pub last : ℕ

-- The objects, and the context that the `ContextVar` holds in this thread.
pub record World : Type 0 where
  pub heap : Heap
  pub context : Option RunContext

-- `str(text or "").strip() or None`
unfoldable pub strip_or_none : Option String → Option String
unfolding strip
strip_or_none none = none
strip_or_none (some s) = let t = strip s in if is_empty t then none else some t

abbrev pub optional_dict : Option ℕ → Heap → Value × Heap
optional_dict none h = (fresh h, alloc empty_dict h)
optional_dict (some a) h = (ref a, h)

abbrev pub push : Object → Heap → ℕ × Heap
push o h = (length h, alloc o h)

abbrev pub empty_last : Object
empty_last = dict (("item_id", str "") ∷ ("data", null) ∷ [])

-- `_build_run_context_payload` and `create_run_context`. The envelope is an entry of the global
-- scope, and the global scope one of the local scope: the same objects, not copies.
unfoldable pub create_run_context :
    String → Option ℕ → Option ℕ → Option String → Heap → RunContext × Heap
unfolding strip strip_or_none
create_run_context run_id event initial_vars invocation_id h0 =
    let (event_value, h1) = optional_dict event h0 in
    let (vars_value, h2) = optional_dict initial_vars h1 in
    let (envelope, h3) =
      push
        (dict (
          ("run_id", str (strip run_id)) ∷ ("event", event_value) ∷ ("constants", vars_value) ∷ []))
        h2 in
    let (global_constants, h4) = push empty_dict h3 in
    let (global, h5) =
      push (dict (("runEnvelope", ref envelope) ∷ ("constants", ref global_constants) ∷ [])) h4 in
    let (local_constants, h6) = push empty_dict h5 in
    let (local, h7) =
      push (dict (("global", ref global) ∷ ("constants", ref local_constants) ∷ [])) h6 in
    let (artifacts, h8) = push empty_dict h7 in
    let (commands, h9) = push empty_dict h8 in
    let (result_constants, h10) = push empty_dict h9 in
    let (result, h11) =
      push
        (dict (
          ("artifacts", ref artifacts)
          ∷ ("commands", ref commands)
          ∷ ("constants", ref result_constants)
          ∷ []))
        h10 in
    let (last, h12) = push empty_last h11 in
    (
      record {
        run_id = strip run_id;
        run_envelope = envelope;
        global_scope = global;
        local_scope = local;
        result_scope = result;
        invocation_id = strip_or_none invocation_id;
        current_item_kind = "hook";
        current_hook_phase = none;
        last = last;
      },
      h12,
    )
