-- ===== src/Policy.antt =====
-- app/elaborations/services/operations/command_policy_validator.py: what a command may do where.
pub mod Contracts
pub mod Laws
use qsmith.Prelude.{
  String, Bool, true, false, not, ◌&&◌, Option, none, some, List, [], ◌∷◌, ◌++◌, Outcome, ok, err,
  elem, ◌==◌, if◌then◌else◌,
}
use qsmith.Prelude.Text.{strip, is_empty, ◌<>◌}
use qsmith.Context.Path.{extract_context_root}
use Contracts.{OperationContract, get_operation_contract, scope_value, test, mock_pre_response}

-- The attributes that the validator reads of a command's configuration; one that is missing, or
-- that is no text, is `none`. `result_constant` is the `name` of `resultConstant`.
pub record Configuration : Type 0 where
  pub command_code : Option String
  pub target : Option String
  pub context : Option String
  pub name : Option String
  pub result_target : Option String
  pub result_constant : Option String

-- a text that is not blank
abbrev filled : Option String → Option String
filled none = none
filled (some s) = if is_empty (strip s) then none else some s

abbrev path_of : Option String → List String
path_of none = []
path_of (some s) = s ∷ []

abbrev constant_path : Option String → Option String → List String
constant_path none name = []
constant_path (some context) none = []
constant_path (some context) (some name) = ("$." <> (context <> (".constants." <> name))) ∷ []

abbrev result_path : Option String → List String
result_path none = []
result_path (some name) = if is_empty name then [] else ("$.result.constants." <> name) ∷ []

unfoldable pub collect_target_paths : Configuration → List String
unfolding strip
collect_target_paths cfg =
    path_of (filled cfg.target)
    ++ (constant_path (filled cfg.context) (filled cfg.name)
        ++ (path_of (filled cfg.result_target) ++ result_path cfg.result_constant))

-- `if not execution_scope: return`
abbrev pub given_scope : Option String → Option String
given_scope none = none
given_scope (some s) = if is_empty s then none else some s

abbrev check_scope : OperationContract → String → Outcome (Unit {0})
check_scope contract scope =
    if not (elem scope contract.supported_scopes)
    then err
        ("Operation '" <> (contract.name <> ("' is not allowed in scope '" <> (scope <> "'."))))
    else if (scope == scope_value mock_pre_response) && contract.side_effects
    then err (
        "Operation '"
        <> (contract.name <> "' has side effects and cannot run in mock.preResponse."))
    else if (scope == scope_value mock_pre_response) && contract.async_allowed
    then err (
        "Operation '"
        <> (contract.name <> "' is async-enabled and cannot run in mock.preResponse."))
    else ok tt

abbrev scope_rules : OperationContract → Option String → Outcome (Unit {0})
scope_rules contract none = ok tt
scope_rules contract (some scope) = check_scope contract scope

unfoldable pub validate_scope_rules : OperationContract → Option String → Outcome (Unit {0})
validate_scope_rules contract execution_scope = scope_rules contract (given_scope execution_scope)

abbrev pub is_test_scope : Option String → Bool
is_test_scope none = false
is_test_scope (some s) = s == scope_value test

abbrev pub check_root : Bool → String → Outcome (Option String) → Outcome (Unit {0})
check_root in_test target (err message) = err message
check_root in_test target (ok none) = err (
    "Unsupported target path '"
    <> (target <> "'. Use $.runEnvelope, $.global, $.local or $.result."))
check_root in_test target (ok (some root)) =
    if in_test && (root == "global")
    then err "Global context is immutable during test execution."
    else if in_test && (root == "runEnvelope")
    then err "RunEnvelope context is immutable during test execution."
    else ok tt

abbrev pub both : Outcome (Unit {0}) → Outcome (Unit {0}) → Outcome (Unit {0})
both (ok _) later = later
both (err message) later = err message

unfoldable pub validate_target_roots : List String → Option String → Outcome (Unit {0})
validate_target_roots [] scope = ok tt
validate_target_roots (target ∷ targets) scope =
    both (check_root (is_test_scope scope) target (extract_context_root target))
      (validate_target_roots targets scope)

abbrev pub accepted :
    OperationContract → Outcome (Unit {0}) → Outcome (Unit {0}) → Outcome OperationContract
accepted contract (err message) roots = err message
accepted contract (ok _) (err message) = err message
accepted contract (ok _) (ok _) = ok contract

abbrev pub code_or_empty : Option String → String
code_or_empty none = ""
code_or_empty (some s) = s

abbrev pub validate_contract :
    Configuration → Option String → Option OperationContract → Outcome OperationContract
validate_contract cfg scope none = err (
    "No command contract found for commandCode '"
    <> (strip (code_or_empty cfg.command_code) <> "'."))
validate_contract cfg scope (some contract) =
    accepted contract (validate_scope_rules contract scope)
      (validate_target_roots (collect_target_paths cfg) scope)

unfoldable pub validate_operation_policy : Configuration → Option String → Outcome OperationContract
unfolding strip
validate_operation_policy cfg scope =
    validate_contract cfg scope (get_operation_contract (strip (code_or_empty cfg.command_code)))
