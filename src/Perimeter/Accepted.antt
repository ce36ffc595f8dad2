-- ===== src/Perimeter/Accepted.antt =====
-- A perimeter that normalizing accepts is compiled, given its columns and its parameters' values.
use qsmith.Prelude.{
  ℕ, String, ◌≡◌, refl, sym, ap, subst, Bool, true, false, not, ◌||◌, Bool-cases, inl, inr, Option,
  none, some, is_some, List, [], ◌∷◌, All, eq_iff, Outcome, ok, is_ok, and_then, and_then-ok,
  ok-injective, err-ne-ok, ◌==◌, if◌then◌else◌,
}
use mathlib.Core.Bool.{false≢true}
use mathlib.Core.Option.{some-injective, none-ne-some}
use qsmith.Prelude.Dict.{Dict, has, insert, lookup-insert, lookup-nil}
use qsmith.Json.{Json, null, bool, num, str, arr, obj, field, end}
use qsmith.Perimeter.Reading.{each, raw_list, member, has_items}
use qsmith.Perimeter.Conditions.{Perimeter, ParameterTable, ParameterDefinition, normalize_filter}
use qsmith.Perimeter.{
  normalize, normalize_dict, normalize_parameter_definition, normalize_parameters, or_no_parameters,
  each_if_given, normalize_columns, normalize_sort_item, perimeter_or_none,
}
use qsmith.Perimeter.Sound.{demand-then, then_is_ok, IsSoundFilter}
use qsmith.Perimeter.Filters.{normalize_filter-IsSound}
use qsmith.Perimeter.Compile.{
  compile_filter, compile_sort, compile_columns, compile_normalized, compile,
}
use qsmith.Perimeter.Compiles.{
  IsOver, HasValues, FilterIsOrdered, compile_filter-is_ok, compile_sort-is_ok,
  compile_columns-is_ok,
}

-- Every parameter of a list has a value.
abbrev pub HasParameters : {V : Type 0} → Dict V → List ParameterDefinition → Type 0
HasParameters resolved ps = All (λ (p : ParameterDefinition). has p.name resolved ≡ true) ps

HasValues-insert :
    {V : Type 0} (resolved : Dict V) (ds : ParameterTable) (p : ParameterDefinition)
    → has p.name resolved ≡ true
    → HasValues resolved ds
    → HasValues resolved (insert p.name p ds)
HasValues-insert resolved ds p given h name e = elim (Bool-cases (p.name == name)) [
  | inl same ↦ subst (λ x. has x resolved ≡ true) ((eq_iff p.name name).0 same) given
  | inr ne ↦ h name (rw (lookup-insert name p.name p ds, ne) at e)
]

HasValues-nil : {V : Type 0} (resolved : Dict V) → HasValues resolved []
HasValues-nil resolved name e =
    absurd (false≢true (rw (lookup-nil {V = ParameterDefinition} name) at e))

perimeter_or_none-same :
    (show : Json → String) (coerce : String → Json → Outcome Json) (p n : Perimeter)
    → perimeter_or_none show coerce p ≡ some n
    → p ≡ n
perimeter_or_none-same show coerce p n e =
    same
      (has_items p.parameters || is_some p.selected_columns || is_some p.filter || is_some p.sort) e
  where
    same : (b : Bool) → (if b then some p else none) ≡ some n → p ≡ n
    same true e = some-injective p n e
    same false e = absurd (none-ne-some n e)

module _ {V : Type 0} (show : Json → String) (coerce : String → Json → Outcome Json) where
  normalize_parameters-HasValues :
      (resolved : Dict V) (ds : ParameterTable) (raws : List Json) (ps : List ParameterDefinition)
      (final : ParameterTable)
      → normalize_parameters show coerce ds raws ≡ ok (ps, final)
      → HasParameters resolved ps
      → HasValues resolved ds
      → HasValues resolved final
  unfolding normalize_parameters
  normalize_parameters-HasValues resolved ds [] ps final e given h =
      subst (HasValues resolved) (ap (λ x. x.1) (ok-injective ([], ds) (ps, final) e)) h
  normalize_parameters-HasValues resolved ds (raw ∷ raws) ps final e given h =
      let (p, _, e1) = and_then-ok (normalize_parameter_definition show coerce raw) _ e in
      let (_, e2) = demand-then (not (has p.name ds)) _ _ e1 in
      let ((ps', final'), later, same) =
        and_then-ok (normalize_parameters show coerce (insert p.name p ds) raws) _ e2 in
      let both = ok-injective (p ∷ ps', final') (ps, final) same in
      let given' = subst (HasParameters resolved) (sym (ap (λ x. x.0) both)) given in
      subst (HasValues resolved) (ap (λ x. x.1) both) (
        normalize_parameters-HasValues resolved (insert p.name p ds) raws ps' final' later given'.1
          (HasValues-insert resolved ds p given'.0 h))

  or_no_parameters-HasValues :
      (resolved : Dict V) (o : Option (List Json)) (ps : List ParameterDefinition)
      (ds : ParameterTable)
      → or_no_parameters show coerce o ≡ ok (ps, ds)
      → HasParameters resolved ps
      → HasValues resolved ds
  or_no_parameters-HasValues resolved none ps ds e given =
      subst (HasValues resolved) (ap (λ x. x.1) (ok-injective ([], []) (ps, ds) e))
        (HasValues-nil resolved)
  or_no_parameters-HasValues resolved (some raws) ps ds e given =
      normalize_parameters-HasValues resolved [] raws ps ds e given (HasValues-nil resolved)

  -- The definitions that a normalized filter refers to are the perimeter's parameters.
  normalize_dict-IsSound :
      (raw : Json) (n : Perimeter) (resolved : Dict V)
      → normalize_dict show coerce raw ≡ ok (some n)
      → HasParameters resolved n.parameters
      → (ds : ParameterTable) × HasValues resolved ds × IsSoundFilter show ds n.filter
  normalize_dict-IsSound raw n resolved e given =
      let (raws, _, e1) =
        and_then-ok (raw_list "parameters must be an array." (member "parameters" raw)) _ e in
      let ((ps, ds), defined, e2) = and_then-ok (or_no_parameters show coerce raws) _ e1 in
      let (raw_columns, _, e3) =
        and_then-ok (raw_list "selected_columns must be an array." (member "selected_columns" raw))
          _ e2 in
      let (columns, _, e4) =
        and_then-ok (each_if_given show coerce (normalize_columns show []) raw_columns) _ e3 in
      let (filter, normal, e5) =
        and_then-ok (normalize_filter show ds (member "filter" raw)) _ e4 in
      let (raw_sort, _, e6) =
        and_then-ok (raw_list "sort must be an array." (member "sort" raw)) _ e5 in
      let (sort, _, e7) =
        and_then-ok (each_if_given show coerce (each (normalize_sort_item show)) raw_sort) _ e6 in
      let p : Perimeter = record {
        parameters = ps;
        selected_columns = columns;
        filter = filter;
        sort = sort;
      } in
      let same = perimeter_or_none-same show coerce p n (ok-injective _ _ e7) in
      (
        ds,
        or_no_parameters-HasValues resolved raws ps ds defined (
            subst (HasParameters resolved) (sym (ap (λ (x : Perimeter). x.parameters) same)) given),
        subst (λ (x : Perimeter). IsSoundFilter show ds x.filter) same
            (normalize_filter-IsSound show ds (member "filter" raw) filter normal),
      )

  normalize-IsSound :
      (raw : Json) (n : Perimeter) (resolved : Dict V)
      → normalize show coerce raw ≡ ok (some n)
      → HasParameters resolved n.parameters
      → (ds : ParameterTable) × HasValues resolved ds × IsSoundFilter show ds n.filter
  unfolding normalize
  normalize-IsSound null n resolved e given = absurd (none-ne-some n (ok-injective none (some n) e))
  normalize-IsSound (obj end) n resolved e given =
      absurd (none-ne-some n (ok-injective none (some n) e))
  normalize-IsSound (obj (field k v fs)) n resolved e given =
      normalize_dict-IsSound (obj (field k v fs)) n resolved e given
  normalize-IsSound (bool b) n resolved e given = absurd (err-ne-ok _ _ e)
  normalize-IsSound (num k) n resolved e given = absurd (err-ne-ok _ _ e)
  normalize-IsSound (str s) n resolved e given = absurd (err-ne-ok _ _ e)
  normalize-IsSound (arr vs) n resolved e given = absurd (err-ne-ok _ _ e)

  -- A perimeter that is accepted when it is stored is never refused when it is compiled, whatever
  -- its filter, provided that the table still has the columns that it names, that each of its
  -- parameters has a value, and that no condition orders by None or a Boolean: no operator is unknown and no reference dangles.
  pub compile_accepted :
      (literal : Json → V) (none_value : V) (is_none is_constant : V → Bool) (columns : List String)
      (limit : Option ℕ) (resolved : Dict V) (raw : Json) (n : Perimeter)
      → normalize show coerce raw ≡ ok (some n)
      → IsOver columns n
      → HasParameters resolved n.parameters
      → FilterIsOrdered show literal none_value is_none is_constant resolved n.filter
      → is_ok
          (compile show literal none_value is_none is_constant coerce columns limit resolved raw)
        ≡ true
  unfolding compile
  compile_accepted literal none_value is_none is_constant columns limit resolved raw n e
        (selects, filters, sorts) given order =
      let (ds, values, sound) = normalize-IsSound raw n resolved e given in
      subst
        (λ o.
          is_ok (
            and_then o (
              compile_normalized show literal none_value is_none is_constant columns limit
                resolved))
          ≡ true)
        (sym e)
        (then_is_ok
          (compile_columns show literal none_value is_none is_constant columns n.selected_columns) _
          (compile_columns-is_ok show literal none_value is_none is_constant columns
            n.selected_columns selects)
          (λ _.
            then_is_ok
              (compile_filter show literal none_value is_none is_constant columns resolved n.filter)
              _
              (compile_filter-is_ok show literal none_value is_none is_constant columns resolved ds
                n.filter values filters sound order)
              (λ _.
                then_is_ok (compile_sort show literal none_value is_none is_constant columns n.sort)
                  _
                  (compile_sort-is_ok show literal none_value is_none is_constant columns n.sort
                    sorts)
                  (λ _. refl))))
