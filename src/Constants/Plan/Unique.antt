-- ===== src/Constants/Plan/Unique.antt =====
-- A whole section's plan keeps the names of constants apart.
use qsmith.Prelude.{
  String, ◌≡◌, refl, sym, Option, none, some, arith, subst, All, All-append, ok, and_then-ok,
  ok-injective,
}
use qsmith.Prelude.Dict.{lookup}
use qsmith.Prelude.Int.{ℤ, ◌≤ℤ◌, suc_ℤ}
use qsmith.Constants.Tables.{Section, all_scopes}
use qsmith.Constants.Plan.{
  PlannedDefinition, Definitions, CommandConfiguration, Kind, init_constant, delete_constant,
  run_suite, other, ResultConstant, Planned, planned_declarations, init_declaration,
  result_declaration, active_definitions, validate_declarations, check_declarations,
  add_definitions, declare, plan_kind, plan_command, delete_definition, validate_ref_visibility,
}
use qsmith.Constants.Plan.Names.{
  IsPlan, IsPlan-le, insert-IsPlan, IsNew, active_definitions-Covers, add_definitions-IsPlan,
}

init_declaration-IsNew :
    (id : String) (k : ℤ) (section : Section) (kind : Kind)
    → All (IsNew k) (init_declaration id k section kind)
init_declaration-IsNew id k section (init_constant _ _ _ _) = ((refl, refl), tt)
init_declaration-IsNew id k section (delete_constant _) = tt
init_declaration-IsNew id k section _ = tt

result_declaration-IsNew :
    (code id : String) (k : ℤ) (section : Section) (r : Option ResultConstant)
    → All (IsNew k) (result_declaration code id k section r)
result_declaration-IsNew code id k section none = tt
result_declaration-IsNew code id k section (some r) = ((refl, refl), tt)

planned_declarations-IsNew :
    (cfg : CommandConfiguration) (id : String) (k : ℤ) (section : Section)
    → All (IsNew k) (planned_declarations cfg id k section)
unfolding planned_declarations
planned_declarations-IsNew cfg id k section =
    All-append (IsNew k) _ _ (init_declaration-IsNew id k section cfg.kind)
      (result_declaration-IsNew cfg.command_code id k section cfg.result_constant)

-- What a command that declares gives: its declarations, each of them checked.
pub declare-ok :
    (cfg : CommandConfiguration) (section : Section) (k : ℤ) (id : String) (ds : Definitions)
    (p : Planned)
    → declare cfg section k id ds ≡ ok p
    → let new = planned_declarations cfg id k section in
      (check_declarations section (active_definitions all_scopes (suc_ℤ k) ds) new ≡ ok tt)
      × ((new, add_definitions new ds) ≡ p)
unfolding validate_declarations
declare-ok cfg section k id ds p h =
    let (new, e, last) = and_then-ok (validate_declarations cfg section k ds id) _ h in
    let (_, checked, same) =
      and_then-ok
        (check_declarations section (active_definitions all_scopes (suc_ℤ k) ds)
          (planned_declarations cfg id k section))
        _ e in
    (
      checked,
      subst (λ x. (x, add_definitions x ds) ≡ p) (sym (ok-injective _ _ same))
          (ok-injective _ _ last),
    )

declare-IsPlan :
    (cfg : CommandConfiguration) (section : Section) (k : ℤ) (id : String) (ds : Definitions)
    (p : Planned)
    → declare cfg section k id ds ≡ ok p
    → IsPlan ds k
    → IsPlan p.1 k
declare-IsPlan cfg section k id ds p h plan =
    let (checked, same) = declare-ok cfg section k id ds p h in
    subst (λ (x : Planned). IsPlan x.1 k) same
      (add_definitions-IsPlan section _ ds _ k checked (planned_declarations-IsNew cfg id k section)
        (active_definitions-Covers ds k plan) plan)

delete_definition-IsPlan :
    (id : String) (k : ℤ) (ds : Definitions) (o : Option PlannedDefinition) (p : Planned)
    → lookup id ds ≡ o
    → delete_definition id k ds o ≡ ok p
    → IsPlan ds k
    → IsPlan p.1 k
delete_definition-IsPlan id k ds none p e h plan = absurd (ground arith)
delete_definition-IsPlan id k ds (some d) p e h plan =
    subst (λ (x : Planned). IsPlan x.1 k) (ok-injective _ _ h)
      (insert-IsPlan id (record d { deleted_at_order = some k }) ds k plan
        ((plan.settled id d e).0, ground arith) (λ j x n f live. absurd (ground arith)))

plan_kind-IsPlan :
    (kind : Kind) (cfg : CommandConfiguration) (section : Section) (k : ℤ) (id : String)
    (ds : Definitions) (p : Planned)
    → plan_kind kind cfg section k id ds ≡ ok p
    → IsPlan ds k
    → IsPlan p.1 k
plan_kind-IsPlan (delete_constant t) cfg section k id ds p h plan =
    delete_definition-IsPlan t k ds (lookup t ds) p refl h plan
plan_kind-IsPlan (init_constant _ _ _ _) cfg section k id ds p h plan =
    declare-IsPlan cfg section k id ds p h plan
plan_kind-IsPlan (run_suite _) cfg section k id ds p h plan =
    declare-IsPlan cfg section k id ds p h plan
plan_kind-IsPlan other cfg section k id ds p h plan = declare-IsPlan cfg section k id ds p h plan

pub plan_command-IsPlan :
    (cfg : CommandConfiguration) (section : Section) (k k' : ℤ) (id : String) (ds : Definitions)
    (p : Planned)
    → plan_command cfg section k' id ds ≡ ok p
    → k ≤ℤ k'
    → IsPlan ds k
    → IsPlan p.1 k'
unfolding plan_command
plan_command-IsPlan cfg section k k' id ds p h le plan =
    let (_, _, rest) = and_then-ok (validate_ref_visibility cfg section k' ds) _ h in
    plan_kind-IsPlan cfg.kind cfg section k' id ds p rest (IsPlan-le k k' le plan)
