-- ===== src/Perimeter.antt =====
-- The perimeter of a dataset: app/data_sources/services/dataset_perimeter_compiler.py, and what it
-- calls of dataset_parameter_resolver.py beside it.
pub mod Reading
pub mod Conditions
pub mod Compile
pub mod Sound
pub mod Filters
pub mod Operators
pub mod Compiles
pub mod Accepted
pub mod Resolve
use qsmith.Prelude.{
  ℕ, String, Bool, true, false, not, ◌&&◌, ◌||◌, Option, none, some, is_some, List, [], ◌∷◌, map,
  elem, Outcome, ok, err, and_then, eqb, ◌==◌, if◌then◌else◌,
}
use qsmith.Prelude.Dict.{Dict, lookup, has, insert}
use qsmith.Prelude.Int.{ℤ, pos, eqb_ℤ}
use qsmith.Prelude.Text.{strip, lower, upper, is_empty}
use qsmith.Json.{Json, null, bool, num, str, arr, obj, Items, nil, cons, Fields, end, field, get}
use qsmith.Perimeter.Reading.{
  demand, each, items_of, member, is_dict, is_text, is_full_list, has_items, is_truthy,
  is_json_null, raw_list, raw_list_or_empty, json_text, json_text_or,
}
use qsmith.Perimeter.Conditions.{
  supported_operators, string_operators, parameter_types, built_in_resolvers,
  is_operator_compatible, ParameterDefinition, Condition, FilterItem, Filter, SortItem, Perimeter,
  ParameterTable, is_parameter, name_of, parameter_reference, check_reference, check_literal,
  normalize_filter_value, is_null_operator, value_at, normalize_filter_condition, read_logic,
  normalize_group, normalize_filter_item, one_group, read_items, filter_of, normalize_filter,
  condition, group,
}

-- `show` is `str` of a value that is no text.
module _ (show : Json → String) where
  -- The loop over the selected columns: each is a text that is not blank, and none comes twice.
  unfoldable pub normalize_columns : List String → List Json → Outcome (List String)
  unfolding strip
  normalize_columns before [] = ok []
  normalize_columns before (v ∷ vs) =
      let name = strip (json_text_or show "" (some v)) in
      and_then (demand (not (is_empty name)) "selected_columns items must be non-empty strings.")
        λ _.
          and_then (demand (not (elem name before)) "Duplicate selected column")
            λ _. and_then (normalize_columns (name ∷ before) vs) λ names. ok (name ∷ names)

  unfoldable pub normalize_sort_item : Json → Outcome SortItem
  unfolding strip lower
  normalize_sort_item raw =
      let column = strip (json_text_or show "" (member "field" raw)) in
      let direction = lower (strip (json_text_or show "asc" (member "direction" raw))) in
      and_then (demand (is_dict raw) "sort item must be an object.") λ _.
        and_then (demand (not (is_empty column)) "field is required.") λ _.
          and_then
            (demand (elem direction ("asc" ∷ "desc" ∷ [])) "direction must be 'asc' or 'desc'.")
            λ _. ok (record { column = column; direction = direction })

  -- `raw.get("default_binding")` where it is not null: the resolver.
  unfoldable pub normalize_binding : Option Json → Outcome (Option String)
  unfolding strip lower
  normalize_binding none = ok none
  normalize_binding (some null) = ok none
  normalize_binding (some raw) =
      let resolver = strip (json_text_or show "" (member "resolver" raw)) in
      and_then (demand (is_dict raw) "must be an object.") λ _.
        and_then
          (demand (lower (strip (json_text_or show "" (member "kind" raw))) == "built_in")
            "kind must be 'built_in'.")
          λ _.
            and_then
              (demand (elem resolver built_in_resolvers) "resolver must be one of: $now, $today.")
              λ _. ok (some resolver)

  abbrev pub given_value : Option Json → Bool
  given_value none = false
  given_value (some v) = not (is_json_null v)

  -- `coerce` is `DatasetParameterResolver.coerce_value`, and then the text of a date.
  module _ (coerce : String → Json → Outcome Json) where
    abbrev pub coerce_default : String → Option Json → Outcome (Option Json)
    coerce_default type none = ok none
    coerce_default type (some null) = ok (some null)
    coerce_default type (some v) = and_then (coerce type v) λ v'. ok (some v')

    unfoldable pub normalize_parameter_definition : Json → Outcome ParameterDefinition
    unfolding normalize_binding strip lower
    normalize_parameter_definition raw =
        let name = strip (json_text_or show "" (member "name" raw)) in
        let type = lower (strip (json_text_or show "" (member "type" raw))) in
        let description = strip (json_text_or show "" (member "description" raw)) in
        and_then (demand (is_dict raw) "must be an object.") λ _.
          and_then (demand (not (is_empty name)) "name is required.") λ _.
            and_then (demand (elem type parameter_types) "type is not supported.") λ _.
              and_then
                (demand
                  (not (
                    is_some (member "default_value" raw)
                    && given_value (member "default_binding" raw)))
                  "cannot declare both default_value and default_binding.")
                λ _. and_then (coerce_default type (member "default_value" raw)) λ default.
                  and_then (normalize_binding (member "default_binding" raw)) λ binding.
                    ok (record {
                      name = name;
                      parameter_type = type;
                      description = if is_empty description then none else some description;
                      default_value = default;
                      default_binding = binding;
                    })

    -- The loop over the parameters, with those that are defined so far.
    unfoldable pub normalize_parameters :
        ParameterTable → List Json → Outcome (List ParameterDefinition × ParameterTable)
    unfolding normalize_parameter_definition
    normalize_parameters definitions [] = ok ([], definitions)
    normalize_parameters definitions (raw ∷ raws) =
        and_then (normalize_parameter_definition raw) λ p.
          and_then (demand (not (has p.name definitions)) "Duplicate dataset parameter") λ _.
            and_then (normalize_parameters (insert p.name p definitions) raws)
              λ (ps, final). ok (p ∷ ps, final)

    abbrev pub or_no_parameters :
        Option (List Json) → Outcome (List ParameterDefinition × ParameterTable)
    or_no_parameters none = ok ([], [])
    or_no_parameters (some raws) = normalize_parameters [] raws

    abbrev pub each_if_given :
        {A : Type 0} → (List Json → Outcome A) → Option (List Json) → Outcome (Option A)
    each_if_given f none = ok none
    each_if_given f (some raws) = and_then (f raws) λ a. ok (some a)

    -- `normalized or None`
    abbrev pub perimeter_or_none : Perimeter → Option Perimeter
    perimeter_or_none p =
        if has_items p.parameters
          || is_some p.selected_columns
          || is_some p.filter
          || is_some p.sort
        then some p
        else none

    abbrev pub normalize_dict : Json → Outcome (Option Perimeter)
    normalize_dict raw =
        and_then (raw_list "parameters must be an array." (member "parameters" raw))
          λ raw_parameters. and_then (or_no_parameters raw_parameters) λ (parameters, definitions).
            and_then (raw_list "selected_columns must be an array." (member "selected_columns" raw))
              λ raw_columns. and_then (each_if_given (normalize_columns []) raw_columns) λ columns.
                and_then (normalize_filter show definitions (member "filter" raw)) λ filter.
                  and_then (raw_list "sort must be an array." (member "sort" raw)) λ raw_sort.
                    and_then (each_if_given (each normalize_sort_item) raw_sort) λ sort. ok (
                      perimeter_or_none (record {
                        parameters = parameters;
                        selected_columns = columns;
                        filter = filter;
                        sort = sort;
                      }))

    unfoldable pub normalize : Json → Outcome (Option Perimeter)
    unfolding normalize_parameters normalize_columns normalize_filter normalize_sort_item each
    normalize null = ok none
    normalize (obj end) = ok none
    normalize (obj (field k v fs)) = normalize_dict (obj (field k v fs))
    normalize _ = err "perimeter must be an object."
