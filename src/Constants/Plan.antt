-- ===== src/Constants/Plan.antt =====
-- `plan_definitions_for_commands` and what it calls.
pub mod Active
pub mod Names
pub mod Unique
pub mod Carried
pub mod Sorted
pub mod Scopes
pub mod Erase
use qsmith.Prelude.{
  ℕ, suc, String, Bool, true, false, not, ◌&&◌, ◌||◌, Option, none, some, is_some, List, [], ◌∷◌,
  ◌++◌, Outcome, ok, err, and_then, elem, map, ◌==◌, if◌then◌else◌,
}
use qsmith.Prelude.Dict.{Dict, lookup, insert}
use qsmith.Prelude.Int.{ℤ, pos, eqb_ℤ, leb_ℤ, ltb_ℤ, suc_ℤ}
use qsmith.Prelude.Sort.{sort}
use qsmith.Prelude.Text.{strip, is_empty, ◌<>◌}
use qsmith.Constants.Tables.{
  Section, section_value, all_scopes, readable_scopes, writable_scopes, type_compatibility,
  result_type_by_command, context_value, local, result, source_value, raw, json,
}
use Prim.Native.String as Text
use Prim.Native.Nat.{Ordering}

pub record ResultConstant : Type 0 where
  pub definition_id : String
  pub name : String
  pub value_type : String

-- The class of a configuration, with the fields that only that class has.
pub data Kind : Type 0 where
  init_constant : (definition_id name context source_type : String) → Kind
  delete_constant : (target : String) → Kind
  run_suite : (constants : List String) → Kind
  other : Kind

-- What the planner reads of a configuration; a reference is the identifier of a definition, and
-- an attribute that a class lacks is `none`.
pub record CommandConfiguration : Type 0 where
  pub command_code : String
  pub kind : Kind
  pub source_constant_ref : Option String
  pub actual_constant_ref : Option String
  pub result_constant : Option ResultConstant

-- A command as a section holds it: `id` and `order` are empty and 0 where they are missing.
pub record RawCommand (C : Type 0) : Type 0 where
  pub id : String
  pub order : ℤ
  pub cfg : C

pub record CommandInput (C : Type 0) : Type 0 where
  pub command_id : String
  pub command_order : ℤ
  pub cfg : C

pub record PlannedDefinition : Type 0 where
  pub definition_id : String
  pub command_id : String
  pub command_order : ℤ
  pub section_type : Section
  pub name : String
  pub context_scope : String
  pub value_type : String
  pub deleted_at_order : Option ℤ

abbrev pub Definitions : Type 0
Definitions = Dict PlannedDefinition

-- `_carry_over_visible_map`
unfoldable pub carry_over_visible_map : Definitions → Definitions
carry_over_visible_map [] = []
carry_over_visible_map ((k, d) ∷ ds) =
    let rest = carry_over_visible_map ds in
    if is_some d.deleted_at_order then rest else (k, record d { command_order = pos 0 }) ∷ rest

abbrev pub is_deleted_by : ℤ → Option ℤ → Bool
is_deleted_by order none = false
is_deleted_by order (some at) = leb_ℤ at order

-- Whether a definition can be read at an order: its scope is readable, it was made before, and it
-- was not deleted up to then.
abbrev pub is_active : List String → ℤ → PlannedDefinition → Bool
is_active readable order d =
    elem d.context_scope readable
    && not (leb_ℤ order d.command_order)
    && not (is_deleted_by order d.deleted_at_order)

-- `_active_definitions`
unfoldable pub active_definitions : List String → ℤ → Definitions → Definitions
active_definitions readable order [] = []
active_definitions readable order ((k, d) ∷ ds) =
    let rest = active_definitions readable order ds in
    if is_active readable order d then (k, d) ∷ rest else rest

-- `_validate_duplicate_name`
unfoldable pub validate_duplicate_name : Definitions → String → String → Outcome (Unit {0})
validate_duplicate_name [] name scope = ok tt
validate_duplicate_name ((k, d) ∷ ds) name scope =
    if (d.name == name) && (d.context_scope == scope)
    then err ("Constant '" <> (name <> ("' is already defined in scope '" <> (scope <> "'."))))
    else validate_duplicate_name ds name scope

pub data Role : Type 0 where
  source actual target constant : Role

abbrev pub is_target : Role → Bool
is_target target = true
is_target _ = false

abbrev pub ref_of : Role → Option String → List (Role × String)
ref_of role none = []
ref_of role (some id) = (role, id) ∷ []

abbrev pub refs_of_kind : CommandConfiguration → Kind → List (Role × String)
refs_of_kind cfg (delete_constant id) = (target, id) ∷ []
refs_of_kind cfg (run_suite ids) =
    ref_of source cfg.source_constant_ref
    ++ (ref_of actual cfg.actual_constant_ref ++ map (λ (id : String). (constant, id)) ids)
refs_of_kind cfg _ = ref_of source cfg.source_constant_ref ++ ref_of actual cfg.actual_constant_ref

-- `_definition_refs`
unfoldable pub definition_refs : CommandConfiguration → List (Role × String)
definition_refs cfg = refs_of_kind cfg cfg.kind

abbrev pub compatible_types : String → List String
compatible_types code = elim (lookup code type_compatibility) [ none ↦ [] | some types ↦ types ]

-- `if compatible_types and value_type not in compatible_types`
abbrev pub is_incompatible : String → List String → Bool
is_incompatible value_type [] = false
is_incompatible value_type (t ∷ ts) = not (elem value_type (t ∷ ts))

abbrev pub check_definition :
    CommandConfiguration → Section → Role × String → Option PlannedDefinition → Outcome (Unit {0})
check_definition cfg section (role, id) none = err (
    "Constant reference '"
    <> (id <> ("' is not visible for command '" <> (cfg.command_code <> "'."))))
check_definition cfg section (role, id) (some d) =
    if is_incompatible d.value_type (compatible_types cfg.command_code)
    then err (
        "Constant '"
        <> (d.name
            <> ("' has incompatible type '"
                <> (d.value_type <> ("' for command '" <> (cfg.command_code <> "'."))))))
    else if is_target role && not (elem d.context_scope (writable_scopes section))
    then err (
        "Constant '"
        <> (d.name
            <> ("' in scope '"
                <> (d.context_scope
                    <> ("' cannot be deleted in section '" <> (section_value section <> "'."))))))
    else ok tt

unfoldable pub check_refs :
    CommandConfiguration → Section → Definitions → List (Role × String) → Outcome (Unit {0})
check_refs cfg section active [] = ok tt
check_refs cfg section active ((role, id) ∷ refs) =
    and_then (check_definition cfg section (role, id) (lookup id active))
      λ _. check_refs cfg section active refs

-- `_validate_ref_visibility`
unfoldable pub validate_ref_visibility :
    CommandConfiguration → Section → ℤ → Definitions → Outcome (Unit {0})
validate_ref_visibility cfg section order definitions =
    check_refs cfg section (active_definitions (readable_scopes section) order definitions)
      (definition_refs cfg)

-- `a or b` of two texts
abbrev pub text_or : String → String → String
text_or a b = if is_empty a then b else a

abbrev pub init_declaration : String → ℤ → Section → Kind → List PlannedDefinition
init_declaration command_id order section (init_constant id name context source_type) =
    record {
      definition_id = id;
      command_id = command_id;
      command_order = order;
      section_type = section;
      name = name;
      context_scope = text_or context (context_value local);
      value_type = text_or source_type (source_value raw);
      deleted_at_order = none;
    }
    ∷ []
init_declaration command_id order section _ = []

abbrev pub found_or : String → Option String → String
found_or default none = default
found_or default (some s) = s

abbrev pub result_declaration :
    String → String → ℤ → Section → Option ResultConstant → List PlannedDefinition
result_declaration code command_id order section none = []
result_declaration code command_id order section (some r) =
    record {
      definition_id = r.definition_id;
      command_id = command_id;
      command_order = order;
      section_type = section;
      name = r.name;
      context_scope = context_value result;
      value_type =
          text_or r.value_type (found_or (source_value json) (lookup code result_type_by_command));
      deleted_at_order = none;
    }
    ∷ []

-- `_planned_declarations`
unfoldable pub planned_declarations :
    CommandConfiguration → String → ℤ → Section → List PlannedDefinition
planned_declarations cfg command_id order section =
    init_declaration command_id order section cfg.kind
    ++ result_declaration cfg.command_code command_id order section cfg.result_constant

unfoldable pub check_declarations :
    Section → Definitions → List PlannedDefinition → Outcome (Unit {0})
check_declarations section active [] = ok tt
check_declarations section active (d ∷ ds) =
    if not (elem d.context_scope (writable_scopes section))
    then err (
        "Scope '"
        <> (d.context_scope
            <> ("' is not writable in section '" <> (section_value section <> "'."))))
    else and_then (validate_duplicate_name active d.name d.context_scope)
        λ _. check_declarations section (insert d.definition_id d active) ds

-- `_validate_declarations`
unfoldable pub validate_declarations :
    CommandConfiguration → Section → ℤ → Definitions → String → Outcome (List PlannedDefinition)
validate_declarations cfg section order definitions command_id =
    let declarations = planned_declarations cfg command_id order section in
    and_then
      (check_declarations section (active_definitions all_scopes (suc_ℤ order) definitions)
        declarations)
      λ _. ok declarations

-- `for definition in new_definitions: definitions[definition.definition_id] = definition`
unfoldable pub add_definitions : List PlannedDefinition → Definitions → Definitions
add_definitions [] ds = ds
add_definitions (d ∷ more) ds = add_definitions more (insert d.definition_id d ds)

-- What one command adds to the plan, and the definitions after it.
abbrev pub Planned : Type 0
Planned = List PlannedDefinition × Definitions

abbrev pub delete_definition : String → ℤ → Definitions → Option PlannedDefinition → Outcome Planned
delete_definition id order definitions none =
    err ("Constant reference '" <> (id <> "' is not visible for deleteConstant."))
delete_definition id order definitions (some existing) =
    ok ([], insert id (record existing { deleted_at_order = some order }) definitions)

abbrev pub declare : CommandConfiguration → Section → ℤ → String → Definitions → Outcome Planned
declare cfg section order command_id definitions =
    and_then (validate_declarations cfg section order definitions command_id)
      λ new. ok (new, add_definitions new definitions)

abbrev pub plan_kind :
    Kind → CommandConfiguration → Section → ℤ → String → Definitions → Outcome Planned
plan_kind (delete_constant id) cfg section order command_id definitions =
    delete_definition id order definitions (lookup id definitions)
plan_kind _ cfg section order command_id definitions =
    declare cfg section order command_id definitions

unfoldable pub plan_command :
    CommandConfiguration → Section → ℤ → String → Definitions → Outcome Planned
plan_command cfg section order command_id definitions =
    and_then (validate_ref_visibility cfg section order definitions)
      λ _. plan_kind cfg.kind cfg section order command_id definitions

-- The sort's key is the pair of the order and the identifier.
abbrev pub comes_before : {C : Type 0} → CommandInput C → CommandInput C → Bool
comes_before a b =
    ltb_ℤ a.command_order b.command_order
    || (eqb_ℤ a.command_order b.command_order
        && elim (Text.compare a.command_id b.command_id) [ Ordering.lt ↦ true | _ ↦ false ])

abbrev pub id_or_new : String → String → String
id_or_new new id = if is_empty id then new else id

-- `new_id` gives the identifier that is made for the command at a position.
module _ {C : Type 0} (new_id : ℕ → String) where
  -- `_command_input`
  unfoldable pub command_input : ℕ → RawCommand C → CommandInput C
  unfolding strip
  command_input n c = record {
    command_id = id_or_new (new_id n) (strip c.id);
    command_order = if eqb_ℤ c.order (pos 0) then pos n else c.order;
    cfg = c.cfg;
  }

  unfoldable pub command_inputs : ℕ → List (RawCommand C) → List (CommandInput C)
  unfolding command_input
  command_inputs n [] = []
  command_inputs n (c ∷ cs) = command_input n c ∷ command_inputs (suc n) cs

-- `convert` is `convert_to_config_command_type`, as far as the planner reads its result.
module _ {C : Type 0} (convert : C → Outcome CommandConfiguration) where
  unfoldable pub plan_sorted : Section → List (CommandInput C) → Definitions → Outcome Planned
  unfolding plan_command
  plan_sorted section [] definitions = ok ([], definitions)
  plan_sorted section (c ∷ cs) definitions = and_then (convert c.cfg) λ cfg.
      and_then (plan_command cfg section c.command_order c.command_id definitions)
        λ (new, definitions').
          and_then (plan_sorted section cs definitions') λ (later, final). ok (new ++ later, final)

module _ {C : Type 0} (new_id : ℕ → String) (convert : C → Outcome CommandConfiguration) where
  unfoldable pub plan_definitions_for_commands :
      List (RawCommand C) → Section → Definitions → Outcome Planned
  unfolding command_inputs plan_sorted
  plan_definitions_for_commands commands section initial_visible =
      plan_sorted convert section (sort comes_before (command_inputs new_id 1 commands))
        (carry_over_visible_map initial_visible)
