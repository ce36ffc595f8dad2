-- ===== src/Policy/Laws.antt =====
-- What the validator lets through, and that it agrees with the guards of the run context.
use qsmith.Prelude.{
  String, ◌≡◌, refl, sym, ap, ok-injective, ◌∙◌, Bool, true, false, not, ◌&&◌, ◌||◌, subst,
  and_left, and_right, eq_iff, ◌↔◌, Option, none, some, Bool-cases, inl, inr, List, [], ◌∷◌,
  Outcome, ok, err, is_ok, elem, All, arith, ◌==◌,
}
use mathlib.Core.Option.{some-injective}
use qsmith.Prelude.Dict.{Dict, lookup}
use qsmith.Prelude.Text.{strip, is_empty}
use qsmith.Context.Path.{extract_context_root}
use qsmith.Context.State.{RunContext}
use qsmith.Context.Write.{guard_root, is_test}
use qsmith.Policy.Contracts.{
  OperationContract, contracts, get_operation_contract, scope_value, mock_pre_response,
}
use qsmith.Policy.{
  Configuration, collect_target_paths, validate_scope_rules, validate_target_roots,
  validate_operation_policy, check_root, both, accepted, code_or_empty, validate_contract,
}

-- A contract that a mock's pre-response commands may use has no side effects.
abbrev pub is_pre_response_safe : OperationContract → Bool
is_pre_response_safe k =
    not (elem (scope_value mock_pre_response) k.supported_scopes)
    || (not k.side_effects && not k.async_allowed)

all_values : {V : Type 0} → (V → Bool) → Dict V → Bool
all_values p [] = true
all_values p ((k, v) ∷ d) = p v && all_values p d

lookup-all_values :
    {V : Type 0} (p : V → Bool) (k : String) (d : Dict V) (v : V)
    → all_values p d ≡ true
    → lookup k d ≡ some v
    → p v ≡ true
unfolding all_values lookup
lookup-all_values p k [] v h e = cc
lookup-all_values p k ((j, w) ∷ d) v h e = elim (Bool-cases (j == k)) [
  | inl same ↦
      subst (λ x. p x ≡ true) (some-injective w v (rw same at e))
        (and_left (p w) (all_values p d) h)
  | inr other ↦ lookup-all_values p k d v (and_right (p w) (all_values p d) h) (rw other at e)
]

contracts_safe : all_values is_pre_response_safe contracts ≡ true
unfolding all_values
contracts_safe = refl

get_operation_contract-safe :
    (code : String) {k : OperationContract}
    → get_operation_contract code ≡ some k
    → is_pre_response_safe k ≡ true
unfolding get_operation_contract
get_operation_contract-safe code e =
    lookup-all_values is_pre_response_safe (strip code) contracts _ contracts_safe e

-- For a contract of the registry the rules of a scope come down to its list of scopes: the two
-- rules about side effects and asynchronous commands refuse nothing more.
pub validate_scope_rules-registry :
    (code scope : String) {k : OperationContract}
    → get_operation_contract code ≡ some k
    → is_empty scope ≡ false
    → is_ok (validate_scope_rules k (some scope)) ≡ elem scope k.supported_scopes
unfolding validate_scope_rules
validate_scope_rules-registry code scope {k} e given =
    rw given (elim (Bool-cases (scope == "mock.preResponse")) [
      | inl pre ↦
          rw ((eq_iff scope "mock.preResponse").0 pre)
            (ground (arith, get_operation_contract-safe code e))
      | inr other ↦ ground arith
    ])

-- The path has a root, and the context's guard on roots lets it through.
abbrev pub PassesGuard : RunContext → String → Type 0
PassesGuard c target =
    (root : String) × (extract_context_root target ≡ ok (some root)) × (guard_root c root ≡ ok tt)

check_root-PassesGuard :
    (c : RunContext) (target : String) (r : Outcome (Option String))
    → is_test c ≡ true
    → check_root true target r ≡ ok tt
    → (root : String) × (r ≡ ok (some root)) × (guard_root c root ≡ ok tt)
check_root-PassesGuard c target (err _) t h = cc
check_root-PassesGuard c target (ok none) t h = cc
check_root-PassesGuard c target (ok (some root)) t h = (root, refl, ground arith)

PassesGuard-check_root :
    (c : RunContext) (target : String)
    → is_test c ≡ true
    → PassesGuard c target
    → check_root true target (extract_context_root target) ≡ ok tt
PassesGuard-check_root c target t (root, e, g) = rw e (ground arith)

both-ok : (a b : Outcome (Unit {0})) → both a b ≡ ok tt → (a ≡ ok tt) × (b ≡ ok tt)
both-ok (ok _) b h = (refl, h)
both-ok (err _) b h = cc

-- For a test, the validator accepts a command's target paths exactly when each of them has a root
-- that the guard of a context in which a test runs lets through.
pub validate_target_roots-PassesGuard :
    (targets : List String) (c : RunContext)
    → is_test c ≡ true
    → (validate_target_roots targets (some "test") ≡ ok tt) ↔ All (PassesGuard c) targets
unfolding validate_target_roots
validate_target_roots-PassesGuard [] c t = (λ h. tt, λ h. refl)
validate_target_roots-PassesGuard (target ∷ targets) c t =
    let later = validate_target_roots-PassesGuard targets c t in
    (
      λ h.
          let (first, rest) = both-ok _ _ h in
          (check_root-PassesGuard c target (extract_context_root target) t first, later.0 rest),
      λ (w, ws). rw (PassesGuard-check_root c target t w) (later.1 ws),
    )

accepted-ok :
    (k k' : OperationContract) (a b : Outcome (Unit {0}))
    → accepted k a b ≡ ok k'
    → (k ≡ k') × (a ≡ ok tt) × (b ≡ ok tt)
accepted-ok k k' (ok _) (ok _) h = (ok-injective k k' h, refl, refl)
accepted-ok k k' (ok _) (err _) h = cc
accepted-ok k k' (err _) b h = cc

is_ok-eq : (r : Outcome (Unit {0})) → is_ok r ≡ true → r ≡ ok tt
is_ok-eq (ok _) h = refl
is_ok-eq (err _) h = cc

-- For a test the validator answers a contract exactly when it is the contract that the registry
-- holds for the command's code, the contract allows tests, and each of the command's target paths
-- has a root that the guard of a context in which a test runs lets through. Of the paths only the
-- roots matter.
pub validate_operation_policy-test :
    (cfg : Configuration) (c : RunContext) (k : OperationContract)
    → is_test c ≡ true
    → (validate_operation_policy cfg (some "test") ≡ ok k) ↔ (
        (get_operation_contract (strip (code_or_empty cfg.command_code)) ≡ some k)
        × (elem "test" k.supported_scopes ≡ true)
        × All (PassesGuard c) (collect_target_paths cfg))
unfolding validate_operation_policy
validate_operation_policy-test cfg c k t = (forward _ refl, backward)
  where
    code : String
    code = strip (code_or_empty cfg.command_code)

    roots :
        (validate_target_roots (collect_target_paths cfg) (some "test") ≡ ok tt)
        ↔ All (PassesGuard c) (collect_target_paths cfg)
    roots = validate_target_roots-PassesGuard (collect_target_paths cfg) c t

    forward :
        (o : Option OperationContract)
        → get_operation_contract code ≡ o
        → validate_contract cfg (some "test") o ≡ ok k
        → (o ≡ some k)
          × (elem "test" k.supported_scopes ≡ true)
          × All (PassesGuard c) (collect_target_paths cfg)
    forward none e h = cc
    forward (some k') e h =
        let (same, rules, targets) = accepted-ok k' k _ _ h in
        (
          ap some same,
          subst (λ x. elem "test" x.supported_scopes ≡ true) same
              (sym (validate_scope_rules-registry code "test" e refl) ∙ rw rules),
          roots.0 targets,
        )

    backward :
        (get_operation_contract code ≡ some k)
          × (elem "test" k.supported_scopes ≡ true)
          × All (PassesGuard c) (collect_target_paths cfg)
        → validate_contract cfg (some "test") (get_operation_contract code) ≡ ok k
    backward (e, allowed, ws) =
        let rules = is_ok-eq _ (validate_scope_rules-registry code "test" e refl ∙ allowed) in
        rw e (rw (rules, roots.1 ws))

-- A command that the validator accepts before a mock's response has a contract without side
-- effects that is not asynchronous.
pub validate_operation_policy-pre_response :
    (cfg : Configuration) (k : OperationContract)
    → validate_operation_policy cfg (some "mock.preResponse") ≡ ok k
    → (k.side_effects ≡ false) × (k.async_allowed ≡ false)
unfolding validate_operation_policy
validate_operation_policy-pre_response cfg k = forward (get_operation_contract code) refl
  where
    code : String
    code = strip (code_or_empty cfg.command_code)

    forward :
        (o : Option OperationContract)
        → get_operation_contract code ≡ o
        → validate_contract cfg (some "mock.preResponse") o ≡ ok k
        → (k.side_effects ≡ false) × (k.async_allowed ≡ false)
    forward none e h = cc
    forward (some k') e h =
        let (same, rules, targets) = accepted-ok k' k _ _ h in
        let listed : elem "mock.preResponse" k'.supported_scopes ≡ true =
          sym (validate_scope_rules-registry code "mock.preResponse" e refl) ∙ rw rules in
        subst (λ x. (x.side_effects ≡ false) × (x.async_allowed ≡ false)) same
          (ground (arith, get_operation_contract-safe code e))
