-- ===== src/Constants/Plan/Scopes.antt =====
-- The scopes that a section's definitions are in.
use qsmith.Prelude.{
  ℕ, String, ◌≡◌, refl, true, Option, none, some, Bool-cases, inl, inr, List, [], ◌∷◌, arith, subst,
  All, All-append, elem, Outcome, ok, and_then-ok, ok-injective, eq_iff, ◌==◌,
}
use qsmith.Prelude.Dict.{lookup, insert}
use qsmith.Prelude.Int.{ℤ, suc_ℤ}
use qsmith.Context.State.{RunContext}
use qsmith.Context.Write.{guard_root}
use qsmith.Constants.Tables.{Section, writable_scopes, test, all_scopes}
use qsmith.Constants.Plan.{
  PlannedDefinition, Definitions, CommandConfiguration, Kind, init_constant, delete_constant,
  run_suite, other, CommandInput, RawCommand, Planned, active_definitions, check_declarations,
  planned_declarations, declare, delete_definition, plan_kind, plan_command, plan_sorted,
  plan_definitions_for_commands, validate_ref_visibility,
}
use qsmith.Constants.Plan.Names.{check_declarations-cons}
use qsmith.Constants.Plan.Unique.{declare-ok}
use qsmith.Constants.Plan.Sorted.{plan_sorted-cons}

abbrev pub IsWritable : Section → PlannedDefinition → Type 0
IsWritable section d = elem d.context_scope (writable_scopes section) ≡ true

module _ (section : Section) where
  check_declarations-IsWritable :
      (active : Definitions) (ds : List PlannedDefinition)
      → check_declarations section active ds ≡ ok tt
      → All (IsWritable section) ds
  check_declarations-IsWritable active [] h = tt
  check_declarations-IsWritable active (d ∷ ds) h =
      let (allowed, _, rest) = check_declarations-cons section active d ds h in
      (allowed, check_declarations-IsWritable (insert d.definition_id d active) ds rest)

  declare-IsWritable :
      (cfg : CommandConfiguration) (k : ℤ) (id : String) (ds : Definitions) (q : Planned)
      → declare cfg section k id ds ≡ ok q
      → All (IsWritable section) q.0
  declare-IsWritable cfg k id ds q h =
      let (checked, same) = declare-ok cfg section k id ds q h in
      subst (λ (x : Planned). All (IsWritable section) x.0) same
        (check_declarations-IsWritable (active_definitions all_scopes (suc_ℤ k) ds)
          (planned_declarations cfg id k section) checked)

  delete_definition-IsWritable :
      (t : String) (k : ℤ) (ds : Definitions) (o : Option PlannedDefinition) (q : Planned)
      → delete_definition t k ds o ≡ ok q
      → All (IsWritable section) q.0
  delete_definition-IsWritable t k ds none q h = absurd (ground arith)
  delete_definition-IsWritable t k ds (some d) q h =
      subst (λ (x : Planned). All (IsWritable section) x.0) (ok-injective _ _ h) tt

  plan_kind-IsWritable :
      (kind : Kind) (cfg : CommandConfiguration) (k : ℤ) (id : String) (ds : Definitions)
      (q : Planned)
      → plan_kind kind cfg section k id ds ≡ ok q
      → All (IsWritable section) q.0
  plan_kind-IsWritable (delete_constant t) cfg k id ds q h =
      delete_definition-IsWritable t k ds (lookup t ds) q h
  plan_kind-IsWritable (init_constant _ _ _ _) cfg k id ds q h = declare-IsWritable cfg k id ds q h
  plan_kind-IsWritable (run_suite _) cfg k id ds q h = declare-IsWritable cfg k id ds q h
  plan_kind-IsWritable other cfg k id ds q h = declare-IsWritable cfg k id ds q h

  plan_command-IsWritable :
      (cfg : CommandConfiguration) (k : ℤ) (id : String) (ds : Definitions) (q : Planned)
      → plan_command cfg section k id ds ≡ ok q
      → All (IsWritable section) q.0
  unfolding plan_command
  plan_command-IsWritable cfg k id ds q h =
      let (_, _, rest) = and_then-ok (validate_ref_visibility cfg section k ds) _ h in
      plan_kind-IsWritable cfg.kind cfg k id ds q rest

  module _ {C : Type 0} (convert : C → Outcome CommandConfiguration) where
    pub plan_sorted-IsWritable :
        (cs : List (CommandInput C)) (ds : Definitions) (q : Planned)
        → plan_sorted convert section cs ds ≡ ok q
        → All (IsWritable section) q.0
    unfolding plan_sorted
    plan_sorted-IsWritable [] ds q h =
        subst (λ (x : Planned). All (IsWritable section) x.0) (ok-injective _ _ h) tt
    plan_sorted-IsWritable (c ∷ cs) ds q h =
        let (cfg, q1, q2, _, step, rest, same) = plan_sorted-cons convert section c cs ds q h in
        subst (λ (x : Planned). All (IsWritable section) x.0) same
          (All-append (IsWritable section) q1.0 q2.0
            (plan_command-IsWritable cfg c.command_order c.command_id ds q1 step)
            (plan_sorted-IsWritable cs q1.1 q2 rest))

guard_root-test :
    (c : RunContext) (scope : String)
    → elem scope (writable_scopes test) ≡ true
    → guard_root c scope ≡ ok tt
guard_root-test c scope h = elim (Bool-cases ("local" == scope)) [
  | inl e ↦ subst (λ x. guard_root c x ≡ ok tt) ((eq_iff "local" scope).0 e) refl
  | inr ne ↦ elim (Bool-cases ("result" == scope)) [
    | inl e ↦ subst (λ x. guard_root c x ≡ ok tt) ((eq_iff "result" scope).0 e) refl
    | inr ne' ↦ absurd (ground arith)
  ]
]

guard_root-All :
    (c : RunContext) (ds : List PlannedDefinition)
    → All (IsWritable test) ds
    → All (λ (d : PlannedDefinition). guard_root c d.context_scope ≡ ok tt) ds
guard_root-All c [] h = tt
guard_root-All c (d ∷ ds) h = (guard_root-test c d.context_scope h.0, guard_root-All c ds h.1)

module _ {C : Type 0} (new_id : ℕ → String) (convert : C → Outcome CommandConfiguration) where
  -- Every constant that the planner lets a test define is in a scope that the run context lets a
  -- test write: the planner's table of scopes and the context's guard agree.
  pub plan_definitions_for_commands-guard_root :
      (cs : List (RawCommand C)) (initial : Definitions) (q : Planned) (c : RunContext)
      → plan_definitions_for_commands new_id convert cs test initial ≡ ok q
      → All (λ (d : PlannedDefinition). guard_root c d.context_scope ≡ ok tt) q.0
  unfolding plan_definitions_for_commands
  plan_definitions_for_commands-guard_root cs initial q c h =
      guard_root-All c q.0 (plan_sorted-IsWritable test convert _ _ q h)
