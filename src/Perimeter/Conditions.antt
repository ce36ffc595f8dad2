-- ===== src/Perimeter/Conditions.antt =====
-- The filter of a perimeter: conditions and groups of them.
use qsmith.Prelude.{
  String, Bool, false, not, ◌&&◌, ◌||◌, Option, none, some, List, [], ◌∷◌, elem, Outcome, ok, err,
  and_then, ◌==◌, if◌then◌else◌,
}
use qsmith.Prelude.Dict.{Dict, lookup}
use qsmith.Prelude.Text.{strip, lower, upper, is_empty}
use qsmith.Json.{Json, null, str, obj, end, field}
use qsmith.Perimeter.Reading.{
  demand, each, member, is_dict, is_text, is_full_list, has_items, raw_list_or_empty, json_text_or,
}

abbrev pub supported_operators : List String
supported_operators =
    "eq" ∷ "neq" ∷ "gt" ∷ "gte" ∷ "lt" ∷ "lte" ∷ "contains" ∷ "starts_with" ∷ "ends_with" ∷ "in"
    ∷ "not_in" ∷ "is_null" ∷ "is_not_null" ∷ []

abbrev pub string_operators : List String
string_operators = "contains" ∷ "starts_with" ∷ "ends_with" ∷ []

abbrev pub parameter_types : List String
parameter_types = "string" ∷ "integer" ∷ "number" ∷ "boolean" ∷ "date" ∷ "datetime" ∷ []

abbrev pub built_in_resolvers : List String
built_in_resolvers = "$now" ∷ "$today" ∷ []

-- `DatasetParameterResolver.is_operator_compatible`
unfoldable pub is_operator_compatible : String → String → Bool
unfolding strip lower
is_operator_compatible parameter_type operator =
    let type = lower (strip parameter_type) in
    let name = lower (strip operator) in
    if elem name ("eq" ∷ "neq" ∷ [])
    then elem type parameter_types
    else if elem name ("gt" ∷ "gte" ∷ "lt" ∷ "lte" ∷ [])
    then elem type ("integer" ∷ "number" ∷ "date" ∷ "datetime" ∷ [])
    else if elem name string_operators
    then type == "string"
    else false

-- The normalized perimeter. A key that is missing is `none`.
pub record ParameterDefinition : Type 0 where
  pub name : String
  pub parameter_type : String
  pub description : Option String
  pub default_value : Option Json
  pub default_binding : Option String

pub record Condition : Type 0 where
  pub column : String
  pub operator : String
  pub value : Option Json

pub data FilterItem : Type 0 where
  condition : Condition → FilterItem
  group : String → List Condition → FilterItem

pub record Filter : Type 0 where
  pub logic : String
  pub items : List FilterItem

pub record SortItem : Type 0 where
  pub column : String
  pub direction : String

pub record Perimeter : Type 0 where
  pub parameters : List ParameterDefinition
  pub selected_columns : Option (List String)
  pub filter : Option Filter
  pub sort : Option (List SortItem)

abbrev pub ParameterTable : Type 0
ParameterTable = Dict ParameterDefinition

-- `show` is `str` of a value that is no text.
module _ (show : Json → String) where
  -- A dict whose `kind` is `parameter`.
  unfoldable pub is_parameter : Json → Bool
  unfolding strip lower
  is_parameter v =
      is_dict v && (lower (strip (json_text_or show "" (member "kind" v))) == "parameter")

  unfoldable pub name_of : Json → String
  unfolding strip
  name_of v = strip (json_text_or show "" (member "name" v))

  abbrev pub parameter_reference : String → Json
  parameter_reference name = obj (field "kind" (str "parameter") (field "name" (str name) end))

  abbrev pub check_reference : String → String → Option ParameterDefinition → Outcome Json
  check_reference operator name none = err "references unknown dataset parameter"
  check_reference operator name (some definition) =
      and_then
        (demand (not (elem operator ("in" ∷ "not_in" ∷ [])))
          "does not support parameter references")
        λ _.
          and_then
            (demand (is_operator_compatible definition.parameter_type operator)
              "is not compatible with operator")
            λ _. ok (parameter_reference name)

  abbrev pub check_literal : String → Json → Outcome Json
  check_literal operator v =
      and_then
        (demand (not (elem operator ("in" ∷ "not_in" ∷ [])) || is_full_list v)
          "must be a non-empty array")
        λ _.
          and_then (demand (not (elem operator string_operators) || is_text v) "must be a string")
            λ _. ok v

  unfoldable pub normalize_filter_value : ParameterTable → String → Json → Outcome Json
  unfolding is_parameter name_of is_operator_compatible
  normalize_filter_value definitions operator v =
      if is_parameter v
      then (and_then
          (demand (not (is_empty (name_of v))) "name is required for parameter references")
          λ _. check_reference operator (name_of v) (lookup (name_of v) definitions))
      else check_literal operator v

  abbrev pub is_null_operator : String → Bool
  is_null_operator operator = elem operator ("is_null" ∷ "is_not_null" ∷ [])

  abbrev pub value_at : ParameterTable → String → Option Json → Outcome (Option Json)
  value_at definitions operator none =
      if is_null_operator operator then ok none else err "value is required"
  value_at definitions operator (some v) =
      if is_null_operator operator
      then ok none
      else and_then (normalize_filter_value definitions operator v) λ v'. ok (some v')

  unfoldable pub normalize_filter_condition : ParameterTable → Json → Outcome Condition
  unfolding normalize_filter_value strip lower
  normalize_filter_condition definitions raw =
      let column = strip (json_text_or show "" (member "field" raw)) in
      let operator = lower (strip (json_text_or show "" (member "operator" raw))) in
      and_then (demand (is_dict raw) "must be an object.") λ _.
        and_then (demand (not (is_empty column)) "field is required.") λ _.
          and_then (demand (elem operator supported_operators) "is not supported.") λ _.
            and_then (value_at definitions operator (member "value" raw))
              λ value. ok (record { column = column; operator = operator; value = value })

  abbrev pub read_logic : Option Json → Outcome String
  read_logic raw =
      let logic = upper (strip (json_text_or show "AND" raw)) in
      and_then (demand (elem logic ("AND" ∷ "OR" ∷ [])) "logic must be AND or OR.") λ _. ok logic

  abbrev pub normalize_group : ParameterTable → Json → Outcome FilterItem
  normalize_group definitions raw = and_then (read_logic (member "logic" raw)) λ logic.
      and_then (raw_list_or_empty "conditions must be an array." (member "conditions" raw)) λ raws.
        and_then (each (normalize_filter_condition definitions) raws) λ conditions.
          and_then (demand (has_items conditions) "conditions must contain at least one condition.")
            λ _. ok (group logic conditions)

  unfoldable pub normalize_filter_item : ParameterTable → Json → Outcome FilterItem
  unfolding normalize_filter_condition each strip lower upper
  normalize_filter_item definitions raw =
      let kind = lower (strip (json_text_or show "condition" (member "kind" raw))) in
      and_then (demand (is_dict raw) "must be an object.") λ _.
        if kind == "group"
        then normalize_group definitions raw
        else and_then (demand (kind == "condition") "kind must be 'condition' or 'group'.")
            λ _. and_then (normalize_filter_condition definitions raw) λ c. ok (condition c)

  -- `filter.items`, or one group of `filter.conditions` where there are no items.
  abbrev pub one_group : String → List Condition → List FilterItem
  one_group logic [] = []
  one_group logic (c ∷ cs) = group logic (c ∷ cs) ∷ []

  abbrev pub read_items : ParameterTable → String → Json → Option Json → Outcome (List FilterItem)
  read_items definitions logic raw none =
      and_then (raw_list_or_empty "filter.conditions must be an array." (member "conditions" raw))
        λ raws.
          and_then (each (normalize_filter_condition definitions) raws)
            λ cs. ok (one_group logic cs)
  read_items definitions logic raw (some null) =
      and_then (raw_list_or_empty "filter.conditions must be an array." (member "conditions" raw))
        λ raws.
          and_then (each (normalize_filter_condition definitions) raws)
            λ cs. ok (one_group logic cs)
  read_items definitions logic raw (some items) =
      and_then (raw_list_or_empty "filter.items must be an array." (some items))
        λ raws. each (normalize_filter_item definitions) raws

  abbrev pub filter_of : String → List FilterItem → Option Filter
  filter_of logic [] = none
  filter_of logic (i ∷ is) = some (record { logic = logic; items = i ∷ is })

  unfoldable pub normalize_filter : ParameterTable → Option Json → Outcome (Option Filter)
  unfolding normalize_filter_item normalize_filter_condition each strip upper
  normalize_filter definitions none = ok none
  normalize_filter definitions (some null) = ok none
  normalize_filter definitions (some raw) =
      and_then (demand (is_dict raw) "filter must be an object.") λ _.
        and_then (read_logic (member "logic" raw)) λ logic.
          and_then (read_items definitions logic raw (member "items" raw))
            λ items. ok (filter_of logic items)
