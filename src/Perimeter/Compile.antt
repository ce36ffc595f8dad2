-- ===== src/Perimeter/Compile.antt =====
-- `DatasetPerimeterCompiler.compile`: from a normalized perimeter to a query.
use qsmith.Prelude.{
  ℕ, String, Bool, Option, none, some, List, [], ◌∷◌, elem, Outcome, ok, err, and_then, ◌==◌,
  if◌then◌else◌,
}
use qsmith.Prelude.Dict.{Dict, lookup}
use qsmith.Json.{Json}
use qsmith.Perimeter.Reading.{demand, each}
use qsmith.Perimeter.Conditions.{
  is_parameter, name_of, Condition, FilterItem, condition, group, Filter, SortItem, Perimeter,
}
use qsmith.Perimeter.{normalize}

-- What SQLAlchemy is asked to build: a comparison by its operator, a column and a value, and tests
-- for null; their conjunctions and disjunctions; and a conjunction or disjunction of those.
pub data Clause (V : Type 0) : Type 0 where
  compare : String → String → V → Clause V
  null_test : String → Clause V
  not_null_test : String → Clause V

pub data ItemClause (V : Type 0) : Type 0 where
  single : Clause V → ItemClause V
  all_of any_of : List (Clause V) → ItemClause V

pub data WhereClause (V : Type 0) : Type 0 where
  all_items any_item : List (ItemClause V) → WhereClause V

pub record Query (V : Type 0) : Type 0 where
  pub columns : List String
  pub where_clause : Option (WhereClause V)
  -- A column, and whether its order is descending.
  pub order_by : List (String × Bool)
  pub limit : Option ℕ

-- Values of parameters are of any type; `literal` is the value of a JSON value, `is_none` tests for
-- None, and `is_constant` for None and the Booleans, which SQLAlchemy compares for equality only.
module _ {V : Type 0} (show : Json → String) (literal : Json → V) (none_value : V)
    (is_none is_constant : V → Bool) where
  abbrev pub unless_none : (String → V → Clause V) → (String → Clause V) → String → V → Clause V
  unless_none f g column v = if is_none v then g column else f column v

  abbrev pub builds : (String → V → Clause V) → String → V → Outcome (Clause V)
  builds f column v = ok (f column v)

  -- An ordering, which raises `ArgumentError` against None or a Boolean.
  abbrev pub ordered : String → String → V → Outcome (Clause V)
  ordered name column v = if is_constant v then err "ArgumentError" else ok (compare name column v)

  -- The branches of `_compile_condition`, by operator.
  abbrev pub operator_clauses : Dict (String → V → Outcome (Clause V))
  operator_clauses =
      ("eq", builds (unless_none (compare "eq") null_test))
      ∷ ("neq", builds (unless_none (compare "neq") not_null_test))
      ∷ ("gt", ordered "gt")
      ∷ ("gte", ordered "gte")
      ∷ ("lt", ordered "lt")
      ∷ ("lte", ordered "lte")
      ∷ ("contains", builds (compare "contains"))
      ∷ ("starts_with", builds (compare "starts_with"))
      ∷ ("ends_with", builds (compare "ends_with"))
      ∷ ("in", builds (compare "in"))
      ∷ ("not_in", builds (compare "not_in"))
      ∷ ("is_null", builds (λ column v. null_test column))
      ∷ ("is_not_null", builds (λ column v. not_null_test column))
      ∷ []

  abbrev pub resolved_or : Option V → Outcome V
  resolved_or none = err "Resolved dataset parameter is missing."
  resolved_or (some v) = ok v

  unfoldable pub condition_value : Dict V → Option Json → Outcome V
  unfolding is_parameter name_of
  condition_value resolved none = ok none_value
  condition_value resolved (some v) =
      if is_parameter show v then resolved_or (lookup (name_of show v) resolved) else ok (literal v)

  abbrev pub clause_or : Option (String → V → Outcome (Clause V)) → String → V → Outcome (Clause V)
  clause_or none column v = err "Unsupported operator"
  clause_or (some f) column v = f column v

  unfoldable pub compile_condition : List String → Dict V → Condition → Outcome (Clause V)
  unfolding condition_value
  compile_condition columns resolved c =
      and_then (demand (elem c.column columns) "Filter field does not exist.") λ _.
        and_then (condition_value resolved c.value)
          λ v. clause_or (lookup c.operator operator_clauses) c.column v

  abbrev pub join : String → List (Clause V) → ItemClause V
  join logic clauses = if logic == "OR" then any_of clauses else all_of clauses

  unfoldable pub compile_filter_item : List String → Dict V → FilterItem → Outcome (ItemClause V)
  unfolding compile_condition each
  compile_filter_item columns resolved (condition c) =
      and_then (compile_condition columns resolved c) λ clause. ok (single clause)
  compile_filter_item columns resolved (group logic cs) =
      and_then (each (compile_condition columns resolved) cs) λ clauses. ok (join logic clauses)

  abbrev pub compile_filter :
      List String → Dict V → Option Filter → Outcome (Option (WhereClause V))
  compile_filter columns resolved none = ok none
  compile_filter columns resolved (some f) =
      and_then (each (compile_filter_item columns resolved) f.items)
        λ clauses. ok (some (if f.logic == "OR" then any_item clauses else all_items clauses))

  abbrev pub compile_sort_item : List String → SortItem → Outcome (String × Bool)
  compile_sort_item columns s =
      and_then (demand (elem s.column columns) "Sort field does not exist.")
        λ _. ok (s.column, s.direction == "desc")

  abbrev pub compile_sort : List String → Option (List SortItem) → Outcome (List (String × Bool))
  compile_sort columns none = ok []
  compile_sort columns (some items) = each (compile_sort_item columns) items

  abbrev pub compile_column : List String → String → Outcome String
  compile_column columns name =
      and_then (demand (elem name columns) "Selected column does not exist.") λ _. ok name

  -- Every column, where none is selected.
  abbrev pub compile_columns : List String → Option (List String) → Outcome (List String)
  compile_columns columns none = ok columns
  compile_columns columns (some []) = ok columns
  compile_columns columns (some (name ∷ names)) = each (compile_column columns) (name ∷ names)

  abbrev pub compile_normalized :
      List String → Option ℕ → Dict V → Option Perimeter → Outcome (Query V)
  compile_normalized columns limit resolved none =
      ok (record { columns = columns; where_clause = none; order_by = []; limit = limit })
  compile_normalized columns limit resolved (some p) =
      and_then (compile_columns columns p.selected_columns) λ selected.
        and_then (compile_filter columns resolved p.filter) λ clause.
          and_then (compile_sort columns p.sort) λ order_by. ok (record {
            columns = selected;
            where_clause = clause;
            order_by = order_by;
            limit = limit;
          })

  -- `columns` are the names of the table's columns.
  unfoldable pub compile :
      (String → Json → Outcome Json) → List String → Option ℕ → Dict V → Json → Outcome (Query V)
  unfolding normalize compile_filter_item each
  compile coerce columns limit resolved raw =
      and_then (normalize show coerce raw) (compile_normalized columns limit resolved)
