-- ===== src/Constants/Plan/Erase.antt =====
-- The identifiers of commands play no part in what the planner accepts.
use mathlib.Core.Option
use qsmith.Prelude.{
  String, ◌≡◌, refl, ◌∙◌, ap, Option, none, some, is_some, Bool-cases, inl, inr, List, [], ◌∷◌,
  ◌++◌, map, Outcome, ok, err, and_then, ◌==◌,
}
use qsmith.Prelude.Dict.{lookup, insert}
use qsmith.Prelude.Int.{ℤ, pos, suc_ℤ}
use qsmith.Constants.Tables.{Section, all_scopes, readable_scopes}
use qsmith.Constants.Plan.{
  PlannedDefinition, Definitions, CommandConfiguration, Kind, init_constant, delete_constant,
  run_suite, other, ResultConstant, Role, CommandInput, Planned, is_active, active_definitions,
  carry_over_visible_map, validate_duplicate_name, check_definition, check_refs, init_declaration,
  result_declaration, validate_ref_visibility, planned_declarations, check_declarations,
  validate_declarations, add_definitions, declare, delete_definition, plan_kind, plan_command,
  plan_sorted,
}

abbrev pub erased : PlannedDefinition → PlannedDefinition
erased d = record d { command_id = "" }

unfoldable pub erase_all : Definitions → Definitions
erase_all [] = []
erase_all ((k, d) ∷ ds) = (k, erased d) ∷ erase_all ds

abbrev pub erase_plan : Planned → Planned
erase_plan (new, ds) = (map erased new, erase_all ds)

abbrev pub map_ok {ℓ κ} : {A : Type ℓ} {B : Type κ} → (A → B) → Outcome A → Outcome B
map_ok f (ok a) = ok (f a)
map_ok f (err message) = err message

pub carry_over-erase_all :
    (ds : Definitions)
    → carry_over_visible_map (erase_all ds) ≡ erase_all (carry_over_visible_map ds)
unfolding carry_over_visible_map erase_all
carry_over-erase_all [] = refl
carry_over-erase_all ((k, d) ∷ ds) = elim (Bool-cases (is_some d.deleted_at_order)) [
  | inl gone ↦ rw gone (carry_over-erase_all ds)
  | inr live ↦ rw live (
      ap (λ (x : Definitions). (k, record d { command_order = pos 0; command_id = "" }) ∷ x)
        (carry_over-erase_all ds))
]

active_definitions-erase_all :
    (readable : List String) (k : ℤ) (ds : Definitions)
    → active_definitions readable k (erase_all ds) ≡ erase_all (active_definitions readable k ds)
unfolding active_definitions erase_all
active_definitions-erase_all readable k [] = refl
active_definitions-erase_all readable k ((i, d) ∷ ds) = elim (Bool-cases (is_active readable k d)) [
  | inl on ↦
      rw on
        (ap (λ (x : Definitions). (i, erased d) ∷ x) (active_definitions-erase_all readable k ds))
  | inr off ↦ rw off (active_definitions-erase_all readable k ds)
]

lookup-erase_all :
    (id : String) (ds : Definitions) → lookup id (erase_all ds) ≡ Option.map erased (lookup id ds)
unfolding lookup erase_all
lookup-erase_all id [] = refl
lookup-erase_all id ((k, d) ∷ ds) = elim (Bool-cases (k == id)) [
  | inl same ↦ rw same refl
  | inr ne ↦ rw ne (lookup-erase_all id ds)
]

insert-erase_all :
    (id : String) (d : PlannedDefinition) (ds : Definitions)
    → insert id (erased d) (erase_all ds) ≡ erase_all (insert id d ds)
unfolding insert erase_all
insert-erase_all id d [] = refl
insert-erase_all id d ((k, e) ∷ ds) = elim (Bool-cases (k == id)) [
  | inl same ↦ rw same refl
  | inr ne ↦ rw ne (ap (λ (x : Definitions). (k, erased e) ∷ x) (insert-erase_all id d ds))
]

check_definition-erased :
    (cfg : CommandConfiguration) (section : Section) (role : Role) (id : String)
    (o : Option PlannedDefinition)
    → check_definition cfg section (role, id) (Option.map erased o)
      ≡ check_definition cfg section (role, id) o
check_definition-erased cfg section role id none = refl
check_definition-erased cfg section role id (some d) = refl

check_refs-erase_all :
    (cfg : CommandConfiguration) (section : Section) (active : Definitions)
    (refs : List (Role × String))
    → check_refs cfg section (erase_all active) refs ≡ check_refs cfg section active refs
unfolding check_refs
check_refs-erase_all cfg section active [] = refl
check_refs-erase_all cfg section active ((role, id) ∷ refs) = rw (lookup-erase_all id active) (
    rw (check_definition-erased cfg section role id (lookup id active)) (
      ap (λ x. and_then (check_definition cfg section (role, id) (lookup id active)) (λ _. x))
        (check_refs-erase_all cfg section active refs)))

validate_ref_visibility-erase_all :
    (cfg : CommandConfiguration) (section : Section) (k : ℤ) (ds : Definitions)
    → validate_ref_visibility cfg section k (erase_all ds)
      ≡ validate_ref_visibility cfg section k ds
unfolding validate_ref_visibility
validate_ref_visibility-erase_all cfg section k ds =
    rw (active_definitions-erase_all (readable_scopes section) k ds)
      (check_refs-erase_all cfg section _ _)

validate_duplicate_name-erase_all :
    (ds : Definitions) (name scope : String)
    → validate_duplicate_name (erase_all ds) name scope ≡ validate_duplicate_name ds name scope
unfolding validate_duplicate_name erase_all
validate_duplicate_name-erase_all [] name scope = refl
validate_duplicate_name-erase_all ((k, d) ∷ ds) name scope =
    rw (validate_duplicate_name-erase_all ds name scope) refl

check_declarations-erase_all :
    (section : Section) (active : Definitions) (ds : List PlannedDefinition)
    → check_declarations section (erase_all active) (map erased ds)
      ≡ check_declarations section active ds
unfolding check_declarations
check_declarations-erase_all section active [] = refl
check_declarations-erase_all section active (d ∷ ds) =
    rw (validate_duplicate_name-erase_all active d.name d.context_scope) (
      rw (insert-erase_all d.definition_id d active)
        (rw (check_declarations-erase_all section (insert d.definition_id d active) ds) refl))

add_definitions-erase_all :
    (new : List PlannedDefinition) (ds : Definitions)
    → add_definitions (map erased new) (erase_all ds) ≡ erase_all (add_definitions new ds)
unfolding add_definitions
add_definitions-erase_all [] ds = refl
add_definitions-erase_all (d ∷ new) ds =
    ap (add_definitions (map erased new)) (insert-erase_all d.definition_id d ds)
    ∙ add_definitions-erase_all new (insert d.definition_id d ds)

declarations-erased :
    (kind : Kind) (r : Option ResultConstant) (code id : String) (k : ℤ) (section : Section)
    → init_declaration "" k section kind ++ result_declaration code "" k section r
      ≡ map erased (init_declaration id k section kind ++ result_declaration code id k section r)
declarations-erased (init_constant _ _ _ _) none code id k section = refl
declarations-erased (init_constant _ _ _ _) (some r) code id k section = refl
declarations-erased (delete_constant _) none code id k section = refl
declarations-erased (delete_constant _) (some r) code id k section = refl
declarations-erased _ none code id k section = refl
declarations-erased _ (some r) code id k section = refl

validate_declarations-erase_all :
    (cfg : CommandConfiguration) (section : Section) (k : ℤ) (id : String) (ds : Definitions)
    → validate_declarations cfg section k (erase_all ds) ""
      ≡ map_ok (map erased) (validate_declarations cfg section k ds id)
unfolding validate_declarations planned_declarations
validate_declarations-erase_all cfg section k id ds =
    rw (active_definitions-erase_all all_scopes (suc_ℤ k) ds) (
      rw (declarations-erased cfg.kind cfg.result_constant cfg.command_code id k section) (
        rw (check_declarations-erase_all section (active_definitions all_scopes (suc_ℤ k) ds) _)
          (both _ _)))
  where
    both :
        (o : Outcome (Unit {0})) (ds : List PlannedDefinition)
        → and_then o (λ _. ok (map erased ds)) ≡ map_ok (map erased) (and_then o (λ _. ok ds))
    both (ok _) ds = refl
    both (err _) ds = refl

declare-erase_all :
    (cfg : CommandConfiguration) (section : Section) (k : ℤ) (id : String) (ds : Definitions)
    → declare cfg section k "" (erase_all ds) ≡ map_ok erase_plan (declare cfg section k id ds)
declare-erase_all cfg section k id ds =
    rw (validate_declarations-erase_all cfg section k id ds)
      (both (validate_declarations cfg section k ds id))
  where
    both :
        (o : Outcome (List PlannedDefinition))
        → and_then (map_ok (map erased) o) (λ new. ok (new, add_definitions new (erase_all ds)))
          ≡ map_ok erase_plan (and_then o (λ new. ok (new, add_definitions new ds)))
    both (ok new) =
        ap (λ (x : Definitions). ok (map erased new, x)) (add_definitions-erase_all new ds)
    both (err _) = refl

delete_definition-erase_all :
    (t : String) (k : ℤ) (ds : Definitions) (o : Option PlannedDefinition)
    → delete_definition t k (erase_all ds) (Option.map erased o)
      ≡ map_ok erase_plan (delete_definition t k ds o)
delete_definition-erase_all t k ds none = refl
delete_definition-erase_all t k ds (some d) =
    ap (λ (x : Definitions). ok ([], x))
      (insert-erase_all t (record d { deleted_at_order = some k }) ds)

plan_kind-erase_all :
    (kind : Kind) (cfg : CommandConfiguration) (section : Section) (k : ℤ) (id : String)
    (ds : Definitions)
    → plan_kind kind cfg section k "" (erase_all ds)
      ≡ map_ok erase_plan (plan_kind kind cfg section k id ds)
plan_kind-erase_all (delete_constant t) cfg section k id ds =
    rw (lookup-erase_all t ds) (delete_definition-erase_all t k ds (lookup t ds))
plan_kind-erase_all (init_constant _ _ _ _) cfg section k id ds =
    declare-erase_all cfg section k id ds
plan_kind-erase_all (run_suite _) cfg section k id ds = declare-erase_all cfg section k id ds
plan_kind-erase_all other cfg section k id ds = declare-erase_all cfg section k id ds

plan_command-erase_all :
    (cfg : CommandConfiguration) (section : Section) (k : ℤ) (id : String) (ds : Definitions)
    → plan_command cfg section k "" (erase_all ds)
      ≡ map_ok erase_plan (plan_command cfg section k id ds)
unfolding plan_command
plan_command-erase_all cfg section k id ds =
    rw (validate_ref_visibility-erase_all cfg section k ds) (
      rw (plan_kind-erase_all cfg.kind cfg section k id ds)
        (both (validate_ref_visibility cfg section k ds) (plan_kind cfg.kind cfg section k id ds)))
  where
    both :
        (o : Outcome (Unit {0})) (r : Outcome Planned)
        → and_then o (λ _. map_ok erase_plan r) ≡ map_ok erase_plan (and_then o (λ _. r))
    both (ok _) r = refl
    both (err _) r = refl

abbrev pub nameless : {C : Type 0} → CommandInput C → CommandInput C
nameless c = record c { command_id = "" }

module _ {C : Type 0} (convert : C → Outcome CommandConfiguration) where
  abbrev then_plan : Section → List (CommandInput C) → Planned → Outcome Planned
  then_plan section cs (new, ds) =
      and_then (plan_sorted convert section cs ds) λ (later, final). ok (new ++ later, final)

  map-append_erased :
      (xs ys : List PlannedDefinition) → map erased xs ++ map erased ys ≡ map erased (xs ++ ys)
  map-append_erased [] ys = refl
  map-append_erased (x ∷ xs) ys = ap (λ zs. erased x ∷ zs) (map-append_erased xs ys)

  append_erased :
      (new : List PlannedDefinition) (o : Outcome Planned)
      → and_then (map_ok erase_plan o) (λ (l, final). ok (map erased new ++ l, final))
        ≡ map_ok erase_plan (and_then o (λ (l, final). ok (new ++ l, final)))
  append_erased new (ok (l, final)) = ap (λ x. ok (x, erase_all final)) (map-append_erased new l)
  append_erased new (err _) = refl

  module _ (section : Section) (cs : List (CommandInput C))
      (rest : (ds : Definitions)
        → plan_sorted convert section (map nameless cs) (erase_all ds)
          ≡ map_ok erase_plan (plan_sorted convert section cs ds)) where
    then_plan-erased :
        (o : Outcome Planned)
        → and_then (map_ok erase_plan o) (then_plan section (map nameless cs))
          ≡ map_ok erase_plan (and_then o (then_plan section cs))
    then_plan-erased (ok (new, ds)) =
        rw (rest ds) (append_erased new (plan_sorted convert section cs ds))
    then_plan-erased (err _) = refl

    step-erased :
        (k : ℤ) (id : String) (ds : Definitions) (o : Outcome CommandConfiguration)
        → and_then o (λ cfg.
          and_then
            (plan_command cfg section k "" (erase_all ds))
            (then_plan section (map nameless cs)))
          ≡ map_ok erase_plan (
              and_then o
                (λ cfg. and_then (plan_command cfg section k id ds) (then_plan section cs)))
    step-erased k id ds (ok cfg) =
        rw (plan_command-erase_all cfg section k id ds)
          (then_plan-erased (plan_command cfg section k id ds))
    step-erased k id ds (err _) = refl

  pub plan_sorted-erase_all :
      (section : Section) (cs : List (CommandInput C)) (ds : Definitions)
      → plan_sorted convert section (map nameless cs) (erase_all ds)
        ≡ map_ok erase_plan (plan_sorted convert section cs ds)
  unfolding plan_sorted
  plan_sorted-erase_all section [] ds = refl
  plan_sorted-erase_all section (c ∷ cs) ds =
      step-erased section cs (λ ds'. plan_sorted-erase_all section cs ds') c.command_order
        c.command_id ds (convert c.cfg)
