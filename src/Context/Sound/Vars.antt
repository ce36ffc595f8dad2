-- ===== src/Context/Sound/Vars.antt =====
-- The scopes of a new context, and what setting a variable keeps.
use qsmith.Prelude.{ℕ, String, ◌≡◌, Option, some}
use qsmith.Prelude.Text.{strip, is_empty}
use qsmith.Memory.{Value, Heap}
use qsmith.Memory.Kinds.{is_dict, kind_at, Extends, Extends-refl, kind_at-push, kind_at-alloc}
use qsmith.Context.State.{RunContext, create_run_context}
use qsmith.Context.Write.Keeps.{write_path-Extends, if-Extends}
use qsmith.Context.Vars.{set_var}

pub record Scoped (h : Heap) (c : RunContext) : Type 0 where
  pub envelope : kind_at h c.run_envelope ≡ some is_dict
  pub global : kind_at h c.global_scope ≡ some is_dict
  pub local : kind_at h c.local_scope ≡ some is_dict
  pub result : kind_at h c.result_scope ≡ some is_dict
  pub last : kind_at h c.last ≡ some is_dict

pub set_var-Extends :
    (c : RunContext) (key : String) (v : Value) (scope : String) (h : Heap)
    → Extends h (set_var c key v scope h).1
unfolding set_var
set_var-Extends c key v scope h =
    if-Extends (is_empty (strip key)) _ _ h (Extends-refl h) (write_path-Extends c _ v h)

-- The four scopes and `last` of a new context are dicts, whatever objects there were before.
pub create_run_context-Scoped :
    (run_id : String) (event initial_vars : Option ℕ) (invocation_id : Option String) (h : Heap)
    → let (c, h') = create_run_context run_id event initial_vars invocation_id h in Scoped h' c
unfolding create_run_context
create_run_context-Scoped run_id event initial_vars invocation_id h = record {
  envelope = search (kind_at-push, kind_at-alloc) depth 12;
  global = search (kind_at-push, kind_at-alloc) depth 12;
  local = search (kind_at-push, kind_at-alloc) depth 12;
  result = search (kind_at-push, kind_at-alloc) depth 12;
  last = search (kind_at-push, kind_at-alloc) depth 12;
}
