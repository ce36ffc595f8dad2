-- ===== src/Examples/Policies.antt =====
-- The theorems on the policy of commands, at commands of the registry.
use qsmith.Prelude.{◌≡◌, refl, ◌↔◌, true, false, none, some, [], ◌∷◌, ok, is_ok, elem, All}
use qsmith.Prelude.Dict.{lookup}
use qsmith.Prelude.Text.{is_space, strip}
use qsmith.Context.Path.{extract_context_root}
use qsmith.Policy.Contracts.{OperationContract, get_operation_contract}
use qsmith.Policy.{
  Configuration, collect_target_paths, validate_scope_rules, validate_target_roots,
  validate_operation_policy, code_or_empty,
}
use qsmith.Policy.Laws.{
  validate_scope_rules-registry, validate_operation_policy-test,
  validate_operation_policy-pre_response, PassesGuard,
}
use qsmith.Examples.Data.{test_context}

abbrev contract : OperationContract
contract = record {
  family = "context";
  name = "initConstant";
  supported_scopes =
      "test" ∷ "hook.beforeAll" ∷ "hook.beforeEach" ∷ "hook.afterEach" ∷ "hook.afterAll"
      ∷ "mock.preResponse" ∷ [];
  reads_from = "runEnvelope" ∷ "global" ∷ "local" ∷ [];
  writes_to = "runEnvelope" ∷ "global" ∷ "local" ∷ "result" ∷ [];
  produces_result = true;
  side_effects = false;
  async_allowed = false;
  failure_mode = "fail-fast";
}

abbrev command : Configuration
command = record {
  command_code = some " initConstant ";
  target = none;
  context = some "local";
  name = some "id";
  result_target = none;
  result_constant = none;
}

contract_found : get_operation_contract "initConstant" ≡ some contract
unfolding get_operation_contract lookup is_space
contract_found = refl

validate_scope_rules-registry_example :
    is_ok (validate_scope_rules contract (some "mock.response"))
    ≡ elem "mock.response" contract.supported_scopes
validate_scope_rules-registry_example =
    validate_scope_rules-registry "initConstant" "mock.response" contract_found refl

validate_operation_policy-test_example :
    (validate_operation_policy command (some "test") ≡ ok contract) ↔ (
      (get_operation_contract (strip (code_or_empty command.command_code)) ≡ some contract)
      × (elem "test" contract.supported_scopes ≡ true)
      × All (PassesGuard test_context) (collect_target_paths command))
validate_operation_policy-test_example =
    validate_operation_policy-test command test_context contract refl

accepted_run : validate_operation_policy command (some "mock.preResponse") ≡ ok contract
unfolding validate_operation_policy get_operation_contract lookup is_space validate_scope_rules
    validate_target_roots collect_target_paths extract_context_root
accepted_run = refl

validate_operation_policy-pre_response_example :
    (contract.side_effects ≡ false) × (contract.async_allowed ≡ false)
validate_operation_policy-pre_response_example =
    validate_operation_policy-pre_response command contract accepted_run
