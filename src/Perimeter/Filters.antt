-- ===== src/Perimeter/Filters.antt =====
-- The filter of a normalized perimeter: groups and items of sound conditions.
use qsmith.Prelude.{
  String, ◌≡◌, subst, Bool-cases, inl, inr, Option, none, some, List, [], ◌∷◌, All, ok, and_then,
  and_then-ok, ok-injective, ◌==◌,
}
use qsmith.Prelude.Text.{strip, lower}
use qsmith.Json.{Json, null, bool, num, str, arr, obj}
use qsmith.Perimeter.Reading.{
  demand, each, raw_list_or_empty, has_items, member, json_text_or, is_dict,
}
use qsmith.Perimeter.Conditions.{
  Condition, FilterItem, condition, group, Filter, ParameterTable, normalize_filter_condition,
  normalize_group, normalize_filter_item, one_group, read_items, normalize_filter, filter_of,
  read_logic,
}
use qsmith.Perimeter.Sound.{
  demand-then, each-ok, IsSound, IsSoundItem, IsSoundFilter, normalize_filter_condition-IsSound,
}

module _ (show : Json → String) where
  conditions-IsSound :
      (ds : ParameterTable) (raws : List Json) (cs : List Condition)
      → each (normalize_filter_condition show ds) raws ≡ ok cs
      → All (IsSound show ds) cs
  conditions-IsSound ds raws cs e =
      each-ok (IsSound show ds) (normalize_filter_condition show ds) raws cs
        (λ raw c h. normalize_filter_condition-IsSound show ds raw c h) e

  normalize_group-IsSound :
      (ds : ParameterTable) (raw : Json) (i : FilterItem)
      → normalize_group show ds raw ≡ ok i
      → IsSoundItem show ds i
  normalize_group-IsSound ds raw i e =
      let (logic, _, e1) = and_then-ok (read_logic show (member "logic" raw)) _ e in
      let (raws, _, e2) =
        and_then-ok (raw_list_or_empty "conditions must be an array." (member "conditions" raw)) _
          e1 in
      let (cs, normal, e3) = and_then-ok (each (normalize_filter_condition show ds) raws) _ e2 in
      let (_, same) = demand-then (has_items cs) _ _ e3 in
      subst (IsSoundItem show ds) (ok-injective (group logic cs) i same)
        (conditions-IsSound ds raws cs normal)

  normalize_filter_item-IsSound :
      (ds : ParameterTable) (raw : Json) (i : FilterItem)
      → normalize_filter_item show ds raw ≡ ok i
      → IsSoundItem show ds i
  unfolding normalize_filter_item
  normalize_filter_item-IsSound ds raw i e =
      let kind = lower (strip (json_text_or show "condition" (member "kind" raw))) in
      let (_, e1) = demand-then (is_dict raw) _ _ e in
      elim (Bool-cases (kind == "group")) [
        | inl g ↦ normalize_group-IsSound ds raw i (rw g at e1)
        | inr n ↦
            let (_, e2) = demand-then (kind == "condition") _ _ (rw n at e1) in
            let (c, normal, same) = and_then-ok (normalize_filter_condition show ds raw) _ e2 in
            subst (IsSoundItem show ds) (ok-injective (condition c) i same)
              (normalize_filter_condition-IsSound show ds raw c normal)
      ]

  one_group-IsSound :
      (ds : ParameterTable) (logic : String) (cs : List Condition)
      → All (IsSound show ds) cs
      → All (IsSoundItem show ds) (one_group show logic cs)
  one_group-IsSound ds logic [] h = tt
  one_group-IsSound ds logic (c ∷ cs) h = (h, tt)

  conditions_or_none :
      (ds : ParameterTable) (logic : String) (raw : Json) (is : List FilterItem)
      → (and_then
          (raw_list_or_empty "filter.conditions must be an array." (member "conditions" raw))
          λ raws.
            and_then
              (each (normalize_filter_condition show ds) raws)
              λ cs. ok (one_group show logic cs))
        ≡ ok is
      → All (IsSoundItem show ds) is
  conditions_or_none ds logic raw is e =
      let (raws, _, e1) =
        and_then-ok
          (raw_list_or_empty "filter.conditions must be an array." (member "conditions" raw)) _ e in
      let (cs, normal, same) = and_then-ok (each (normalize_filter_condition show ds) raws) _ e1 in
      subst (All (IsSoundItem show ds)) (ok-injective (one_group show logic cs) is same)
        (one_group-IsSound ds logic cs (conditions-IsSound ds raws cs normal))

  items_given :
      (ds : ParameterTable) (v : Json) (is : List FilterItem)
      → and_then
          (raw_list_or_empty "filter.items must be an array." (some v))
          (each (normalize_filter_item show ds))
        ≡ ok is
      → All (IsSoundItem show ds) is
  items_given ds v is e =
      let (raws, _, e1) =
        and_then-ok (raw_list_or_empty "filter.items must be an array." (some v)) _ e in
      each-ok (IsSoundItem show ds) (normalize_filter_item show ds) raws is
        (λ raw i h. normalize_filter_item-IsSound ds raw i h) e1

  read_items-IsSound :
      (ds : ParameterTable) (logic : String) (raw : Json) (o : Option Json) (is : List FilterItem)
      → read_items show ds logic raw o ≡ ok is
      → All (IsSoundItem show ds) is
  read_items-IsSound ds logic raw none is e = conditions_or_none ds logic raw is e
  read_items-IsSound ds logic raw (some null) is e = conditions_or_none ds logic raw is e
  read_items-IsSound ds logic raw (some (bool b)) is e = items_given ds (bool b) is e
  read_items-IsSound ds logic raw (some (num n)) is e = items_given ds (num n) is e
  read_items-IsSound ds logic raw (some (str s)) is e = items_given ds (str s) is e
  read_items-IsSound ds logic raw (some (arr vs)) is e = items_given ds (arr vs) is e
  read_items-IsSound ds logic raw (some (obj fs)) is e = items_given ds (obj fs) is e

  filter_of-IsSound :
      (ds : ParameterTable) (logic : String) (is : List FilterItem)
      → All (IsSoundItem show ds) is
      → IsSoundFilter show ds (filter_of show logic is)
  filter_of-IsSound ds logic [] h = tt
  filter_of-IsSound ds logic (i ∷ is) h = h

  dict_filter-IsSound :
      (ds : ParameterTable) (raw : Json) (f : Option Filter)
      → (and_then (demand (is_dict raw) "filter must be an object.") λ _.
          and_then (read_logic show (member "logic" raw)) λ logic.
            and_then
              (read_items show ds logic raw (member "items" raw))
              λ is. ok (filter_of show logic is))
        ≡ ok f
      → IsSoundFilter show ds f
  dict_filter-IsSound ds raw f e =
      let (_, e1) = demand-then (is_dict raw) _ _ e in
      let (logic, _, e2) = and_then-ok (read_logic show (member "logic" raw)) _ e1 in
      let (is, normal, same) =
        and_then-ok (read_items show ds logic raw (member "items" raw)) _ e2 in
      subst (IsSoundFilter show ds) (ok-injective (filter_of show logic is) f same) (
        filter_of-IsSound ds logic is
          (read_items-IsSound ds logic raw (member "items" raw) is normal))

  pub normalize_filter-IsSound :
      (ds : ParameterTable) (o : Option Json) (f : Option Filter)
      → normalize_filter show ds o ≡ ok f
      → IsSoundFilter show ds f
  unfolding normalize_filter
  normalize_filter-IsSound ds none f e = subst (IsSoundFilter show ds) (ok-injective none f e) tt
  normalize_filter-IsSound ds (some null) f e =
      subst (IsSoundFilter show ds) (ok-injective none f e) tt
  normalize_filter-IsSound ds (some (bool b)) f e = dict_filter-IsSound ds (bool b) f e
  normalize_filter-IsSound ds (some (num n)) f e = dict_filter-IsSound ds (num n) f e
  normalize_filter-IsSound ds (some (str s)) f e = dict_filter-IsSound ds (str s) f e
  normalize_filter-IsSound ds (some (arr vs)) f e = dict_filter-IsSound ds (arr vs) f e
  normalize_filter-IsSound ds (some (obj fs)) f e = dict_filter-IsSound ds (obj fs) f e
