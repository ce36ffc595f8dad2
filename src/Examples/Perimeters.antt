-- ===== src/Examples/Perimeters.antt =====
-- The theorem on perimeters, at a filter with a parameter.
use qsmith.Prelude.{String, none, some, List, [], ◌∷◌, err, Outcome, ok}
use qsmith.Json.{Json, str, arr, obj, nil, cons, end, field}
use qsmith.Perimeter.Conditions.{Perimeter, Condition, condition}

abbrev no_text : Json → String
no_text v = ""

abbrev as_given : String → Json → Outcome Json
as_given type v = ok v

-- Orders of a customer, by their date.
abbrev raw_perimeter : Json
raw_perimeter = obj (
    field "parameters"
      (arr (cons (obj (field "name" (str "customer") (field "type" (str "String") end))) nil))
      (field "filter"
        (obj (
          field "items"
            (arr (
              cons
                (obj (
                  field "field" (str "name") (
                    field "operator" (str "EQ") (
                      field "value"
                        (obj (field "kind" (str "parameter") (field "name" (str " customer ") end)))
                        end))))
                nil))
            end))
        (field "sort" (arr (cons (obj (field "field" (str "date") end)) nil)) end)))

abbrev by_customer : Condition
by_customer = record {
  column = "name";
  operator = "eq";
  value = some (obj (field "kind" (str "parameter") (field "name" (str "customer") end)));
}

abbrev normal_perimeter : Perimeter
normal_perimeter = record {
  parameters =
      record {
        name = "customer";
        parameter_type = "string";
        description = none;
        default_value = none;
        default_binding = none;
      }
      ∷ [];
  selected_columns = none;
  filter = some (record { logic = "AND"; items = condition by_customer ∷ [] });
  sort = some (record { column = "date"; direction = "asc" } ∷ []);
}

abbrev overrides : List (String × Json)
overrides = ("customer", str "c1") ∷ []

abbrev given_as_it_is : String → Json → Outcome Json
given_as_it_is type v = ok v

abbrev no_built_in : String → String → Outcome Json
no_built_in type resolver = err "Unsupported dataset built-in resolver"
