-- ===== src/Perimeter/Compiles.antt =====
-- What normalizing accepts, compiling does not refuse.
use qsmith.Prelude.{
  String, ◌≡◌, refl, Bool, true, Bool-cases, inl, inr, Option, none, some, List, [], ◌∷◌, elem, All,
  is_ok, Outcome, ok, err, and_then,
}
use qsmith.Prelude.Dict.{Dict, has}
use qsmith.Json.{Json}
use qsmith.Perimeter.Reading.{each}
use qsmith.Perimeter.Conditions.{
  is_parameter, name_of, Condition, FilterItem, condition, group, Filter, SortItem, Perimeter,
  ParameterTable,
}
use qsmith.Perimeter.Sound.{then_is_ok, each-is_ok, IsDefined, IsSound, IsSoundItem, IsSoundFilter}
use qsmith.Perimeter.Operators.{lookup-has, HasOrder, clause_of_supported}
use qsmith.Perimeter.Compile.{
  condition_value, compile_condition, compile_filter_item, compile_filter, compile_sort_item,
  compile_sort, compile_column, compile_columns,
}

-- Every column that a perimeter names is one of the table's.
abbrev pub HasColumns : List String → FilterItem → Type 0
HasColumns columns (condition c) = elem c.column columns ≡ true
HasColumns columns (group logic cs) = All (λ (c : Condition). elem c.column columns ≡ true) cs

abbrev pub FilterHasColumns : List String → Option Filter → Type 0
FilterHasColumns columns none = Unit
FilterHasColumns columns (some f) = All (HasColumns columns) f.items

abbrev pub SortHasColumns : List String → Option (List SortItem) → Type 0
SortHasColumns columns none = Unit
SortHasColumns columns (some items) = All (λ (s : SortItem). elem s.column columns ≡ true) items

abbrev pub SelectsColumns : List String → Option (List String) → Type 0
SelectsColumns columns none = Unit
SelectsColumns columns (some names) = All (λ name. elem name columns ≡ true) names

abbrev pub IsOver : List String → Perimeter → Type 0
IsOver columns p =
    SelectsColumns columns p.selected_columns
    × FilterHasColumns columns p.filter
    × SortHasColumns columns p.sort

-- The parameters that are defined have values.
abbrev pub HasValues : {V : Type 0} → Dict V → ParameterTable → Type 0
HasValues resolved ds = (name : String) → has name ds ≡ true → has name resolved ≡ true

then_is_ok_at :
    {A B : Type 0} (o : Outcome A) (f : A → Outcome B)
    → is_ok o ≡ true
    → ((a : A) → o ≡ ok a → is_ok (f a) ≡ true)
    → is_ok (and_then o f) ≡ true
then_is_ok_at (ok a) f h k = k a refl
then_is_ok_at (err message) f h k = h

module _ {V : Type 0} (show : Json → String) (literal : Json → V) (none_value : V)
    (is_none is_constant : V → Bool) where
  -- No condition that orders has None or a Boolean as its value.
  abbrev pub IsOrdered : Dict V → Condition → Type 0
  IsOrdered resolved c =
      (v : V)
      → condition_value show literal none_value is_none is_constant resolved c.value ≡ ok v
      → HasOrder show literal none_value is_none is_constant c.operator v

  abbrev pub ItemIsOrdered : Dict V → FilterItem → Type 0
  ItemIsOrdered resolved (condition c) = IsOrdered resolved c
  ItemIsOrdered resolved (group logic cs) = All (IsOrdered resolved) cs

  abbrev pub FilterIsOrdered : Dict V → Option Filter → Type 0
  FilterIsOrdered resolved none = Unit
  FilterIsOrdered resolved (some f) = All (ItemIsOrdered resolved) f.items

  condition_value-is_ok :
      (resolved : Dict V) (ds : ParameterTable) (o : Option Json)
      → HasValues resolved ds
      → IsDefined show ds o
      → is_ok (condition_value show literal none_value is_none is_constant resolved o) ≡ true
  unfolding condition_value
  condition_value-is_ok resolved ds none given sound = refl
  condition_value-is_ok resolved ds (some v) given sound = elim (Bool-cases (is_parameter show v)) [
    | inl ref ↦
        let (x, found) =
          lookup-has (name_of show v) resolved (given (name_of show v) (sound ref)) in
        rw (ref, found) refl
    | inr other ↦ rw other refl
  ]

  compile_condition-is_ok :
      (columns : List String) (resolved : Dict V) (ds : ParameterTable) (c : Condition)
      → HasValues resolved ds
      → elem c.column columns ≡ true
      → IsSound show ds c
      → IsOrdered resolved c
      → is_ok (compile_condition show literal none_value is_none is_constant columns resolved c)
        ≡ true
  unfolding compile_condition
  compile_condition-is_ok columns resolved ds c given column (operator, value) order = rw column (
      then_is_ok_at (condition_value show literal none_value is_none is_constant resolved c.value) _
        (condition_value-is_ok resolved ds c.value given value)
        (λ v e.
          clause_of_supported show literal none_value is_none is_constant c.operator c.column v
            operator (order v e)))

  conditions-is_ok :
      (columns : List String) (resolved : Dict V) (ds : ParameterTable) (cs : List Condition)
      → HasValues resolved ds
      → All (λ (c : Condition). elem c.column columns ≡ true) cs
      → All (IsSound show ds) cs
      → All (IsOrdered resolved) cs
      → All
          (λ c.
            is_ok (compile_condition show literal none_value is_none is_constant columns resolved c)
            ≡ true)
          cs
  conditions-is_ok columns resolved ds [] given h sound order = tt
  conditions-is_ok columns resolved ds (c ∷ cs) given (column, h) (sound, sounds) (order, orders) =
      (
        compile_condition-is_ok columns resolved ds c given column sound order,
        conditions-is_ok columns resolved ds cs given h sounds orders,
      )

  compile_filter_item-is_ok :
      (columns : List String) (resolved : Dict V) (ds : ParameterTable) (i : FilterItem)
      → HasValues resolved ds
      → HasColumns columns i
      → IsSoundItem show ds i
      → ItemIsOrdered resolved i
      → is_ok (compile_filter_item show literal none_value is_none is_constant columns resolved i)
        ≡ true
  unfolding compile_filter_item
  compile_filter_item-is_ok columns resolved ds (condition c) given column sound order =
      then_is_ok (compile_condition show literal none_value is_none is_constant columns resolved c)
        _ (compile_condition-is_ok columns resolved ds c given column sound order) (λ _. refl)
  compile_filter_item-is_ok columns resolved ds (group logic cs) given h sound order =
      then_is_ok
        (each (compile_condition show literal none_value is_none is_constant columns resolved) cs) _
        (each-is_ok _ cs (conditions-is_ok columns resolved ds cs given h sound order)) (λ _. refl)

  items-is_ok :
      (columns : List String) (resolved : Dict V) (ds : ParameterTable) (is : List FilterItem)
      → HasValues resolved ds
      → All (HasColumns columns) is
      → All (IsSoundItem show ds) is
      → All (ItemIsOrdered resolved) is
      → All
          (λ i.
            is_ok
              (compile_filter_item show literal none_value is_none is_constant columns resolved i)
            ≡ true)
          is
  items-is_ok columns resolved ds [] given h sound order = tt
  items-is_ok columns resolved ds (i ∷ is) given (column, h) (sound, sounds) (order, orders) = (
    compile_filter_item-is_ok columns resolved ds i given column sound order,
    items-is_ok columns resolved ds is given h sounds orders,
  )

  pub compile_filter-is_ok :
      (columns : List String) (resolved : Dict V) (ds : ParameterTable) (f : Option Filter)
      → HasValues resolved ds
      → FilterHasColumns columns f
      → IsSoundFilter show ds f
      → FilterIsOrdered resolved f
      → is_ok (compile_filter show literal none_value is_none is_constant columns resolved f) ≡ true
  compile_filter-is_ok columns resolved ds none given h sound order = refl
  compile_filter-is_ok columns resolved ds (some f) given h sound order =
      then_is_ok
        (each (compile_filter_item show literal none_value is_none is_constant columns resolved)
          f.items)
        _ (each-is_ok _ f.items (items-is_ok columns resolved ds f.items given h sound order))
        (λ _. refl)

  sort_items-is_ok :
      (columns : List String) (items : List SortItem)
      → All (λ (s : SortItem). elem s.column columns ≡ true) items
      → All
          (λ s.
            is_ok (compile_sort_item show literal none_value is_none is_constant columns s) ≡ true)
          items
  sort_items-is_ok columns [] h = tt
  sort_items-is_ok columns (s ∷ items) (column, h) =
      (rw column refl, sort_items-is_ok columns items h)

  pub compile_sort-is_ok :
      (columns : List String) (o : Option (List SortItem))
      → SortHasColumns columns o
      → is_ok (compile_sort show literal none_value is_none is_constant columns o) ≡ true
  compile_sort-is_ok columns none h = refl
  compile_sort-is_ok columns (some items) h = each-is_ok _ items (sort_items-is_ok columns items h)

  names-is_ok :
      (columns names : List String)
      → All (λ name. elem name columns ≡ true) names
      → All
          (λ name.
            is_ok (compile_column show literal none_value is_none is_constant columns name) ≡ true)
          names
  names-is_ok columns [] h = tt
  names-is_ok columns (name ∷ names) (column, h) = (rw column refl, names-is_ok columns names h)

  pub compile_columns-is_ok :
      (columns : List String) (o : Option (List String))
      → SelectsColumns columns o
      → is_ok (compile_columns show literal none_value is_none is_constant columns o) ≡ true
  compile_columns-is_ok columns none h = refl
  compile_columns-is_ok columns (some []) h = refl
  compile_columns-is_ok columns (some (name ∷ names)) h =
      each-is_ok _ (name ∷ names) (names-is_ok columns (name ∷ names) h)
