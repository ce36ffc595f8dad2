-- ===== src/Perimeter/Sound.antt =====
-- The conditions of a normalized filter: their operators and the parameters that they refer to.
use mathlib.Core.Bool.{false≢true}
use qsmith.Prelude.{
  String, ◌≡◌, refl, ◌∙◌, sym, ap, subst, Bool, true, false, not, ◌||◌, Bool-cases, inl, inr,
  Option, none, some, List, [], ◌∷◌, elem, arith, All, Outcome, ok, err, is_ok, and_then,
  and_then-ok, ok-injective, err-ne-ok, if◌then◌else◌,
}
use qsmith.Prelude.Dict.{lookup, has}
use qsmith.Prelude.Text.{strip, lower, is_empty}
use qsmith.Prelude.Text.Strip.{strip-strip}
use qsmith.Json.{Json, get}
use qsmith.Perimeter.Reading.{demand, each, member, json_text_or, is_dict, is_text, is_full_list}
use qsmith.Perimeter.Conditions.{
  is_parameter, name_of, Condition, FilterItem, condition, group, Filter, ParameterTable,
  ParameterDefinition, supported_operators, parameter_reference, check_reference,
  normalize_filter_value, is_null_operator, value_at, normalize_filter_condition,
  is_operator_compatible, string_operators,
}

pub demand-then :
    {B : Type 0} (b : Bool) (message : String) (f : Unit {0} → Outcome B) {y : B}
    → and_then (demand b message) f ≡ ok y
    → (b ≡ true) × (f tt ≡ ok y)
demand-then true message f e = (refl, e)
demand-then false message f e = absurd (err-ne-ok message _ e)

pub each-ok :
    {A B : Type 0} (P : B → Type 0) (f : A → Outcome B) (xs : List A) (ys : List B)
    → ((x : A) (y : B) → f x ≡ ok y → P y)
    → each f xs ≡ ok ys
    → All P ys
unfolding each
each-ok P f [] ys h e = subst (All P) (ok-injective _ _ e) tt
each-ok P f (x ∷ xs) ys h e =
    let (y, first, rest) = and_then-ok (f x) _ e in
    let (zs, later, same) = and_then-ok (each f xs) _ rest in
    subst (All P) (ok-injective _ _ same) (h x y first, each-ok P f xs zs h later)

pub then_is_ok :
    {A B : Type 0} (o : Outcome A) (f : A → Outcome B)
    → is_ok o ≡ true
    → ((a : A) → is_ok (f a) ≡ true)
    → is_ok (and_then o f) ≡ true
then_is_ok (ok a) f h k = k a
then_is_ok (err message) f h k = h

pub each-is_ok :
    {A B : Type 0} (f : A → Outcome B) (xs : List A)
    → All (λ x. is_ok (f x) ≡ true) xs
    → is_ok (each f xs) ≡ true
unfolding each
each-is_ok f [] h = refl
each-is_ok f (x ∷ xs) (h, hs) =
    then_is_ok (f x) _ h (λ y. then_is_ok (each f xs) _ (each-is_ok f xs hs) (λ ys. refl))

module _ (show : Json → String) where
  -- A reference is to a parameter that is defined.
  abbrev pub IsDefined : ParameterTable → Option Json → Type 0
  IsDefined ds none = Unit
  IsDefined ds (some v) = is_parameter show v ≡ true → has (name_of show v) ds ≡ true

  abbrev pub IsSound : ParameterTable → Condition → Type 0
  IsSound ds c = (elem c.operator supported_operators ≡ true) × IsDefined ds c.value

  abbrev pub IsSoundItem : ParameterTable → FilterItem → Type 0
  IsSoundItem ds (condition c) = IsSound ds c
  IsSoundItem ds (group logic cs) = All (IsSound ds) cs

  abbrev pub IsSoundFilter : ParameterTable → Option Filter → Type 0
  IsSoundFilter ds none = Unit
  IsSoundFilter ds (some f) = All (IsSoundItem ds) f.items

  name_of-reference :
      (v : Json)
      → is_empty (name_of show v) ≡ false
      → name_of show (parameter_reference show (name_of show v)) ≡ name_of show v
  unfolding name_of get
  name_of-reference v filled =
      ap strip (stays (name_of show v) filled)
      ∙ strip-strip (json_text_or show "" (member "name" v))
    where
      stays : (s : String) → is_empty s ≡ false → (if not (is_empty s) then s else "") ≡ s
      stays s h = rw h refl

  check_reference-IsDefined :
      (ds : ParameterTable) (operator : String) (v v' : Json) (o : Option ParameterDefinition)
      → is_empty (name_of show v) ≡ false
      → lookup (name_of show v) ds ≡ o
      → check_reference show operator (name_of show v) o ≡ ok v'
      → IsDefined ds (some v')
  check_reference-IsDefined ds operator v v' none filled found e = absurd (err-ne-ok _ _ e)
  check_reference-IsDefined ds operator v v' (some d) filled found e =
      let (_, e1) = demand-then (not (elem operator ("in" ∷ "not_in" ∷ []))) _ _ e in
      let (_, e2) = demand-then (is_operator_compatible d.parameter_type operator) _ _ e1 in
      subst (λ (x : Json). IsDefined ds (some x))
        (ok-injective (parameter_reference show (name_of show v)) v' e2)
        (λ _. subst (λ x. has x ds ≡ true) (sym (name_of-reference v filled)) (rw found refl))

  normalize_filter_value-IsDefined :
      (ds : ParameterTable) (operator : String) (v v' : Json)
      → normalize_filter_value show ds operator v ≡ ok v'
      → IsDefined ds (some v')
  unfolding normalize_filter_value
  normalize_filter_value-IsDefined ds operator v v' e = elim (Bool-cases (is_parameter show v)) [
    | inl ref ↦
        let (named, rest) = demand-then (not (is_empty (name_of show v))) _ _ (rw ref at e) in
        check_reference-IsDefined ds operator v v' (lookup (name_of show v) ds) (ground arith) refl
          rest
    | inr other ↦
        let (_, e1) =
          demand-then (not (elem operator ("in" ∷ "not_in" ∷ [])) || is_full_list v) _ _
            (rw other at e) in
        let (_, e2) = demand-then (not (elem operator string_operators) || is_text v) _ _ e1 in
        λ ref. absurd (
          false≢true
            (sym other ∙ subst (λ x. is_parameter show x ≡ true) (sym (ok-injective v v' e2)) ref))
  ]

  value_at-IsDefined :
      (ds : ParameterTable) (operator : String) (raw value : Option Json)
      → value_at show ds operator raw ≡ ok value
      → IsDefined ds value
  value_at-IsDefined ds operator none value e = elim (Bool-cases (is_null_operator show operator)) [
    | inl n ↦ subst (IsDefined ds) (ok-injective none value (rw n at e)) tt
    | inr n ↦ absurd (err-ne-ok "value is required" value (rw n at e))
  ]
  value_at-IsDefined ds operator (some v) value e =
      elim (Bool-cases (is_null_operator show operator)) [
        | inl n ↦ subst (IsDefined ds) (ok-injective none value (rw n at e)) tt
        | inr n ↦
            let (v', normal, same) =
              and_then-ok (normalize_filter_value show ds operator v) _ (rw n at e) in
            subst (IsDefined ds) (ok-injective (some v') value same)
              (normalize_filter_value-IsDefined ds operator v v' normal)
      ]

  pub normalize_filter_condition-IsSound :
      (ds : ParameterTable) (raw : Json) (c : Condition)
      → normalize_filter_condition show ds raw ≡ ok c
      → IsSound ds c
  unfolding normalize_filter_condition
  normalize_filter_condition-IsSound ds raw c e =
      let column = strip (json_text_or show "" (member "field" raw)) in
      let operator = lower (strip (json_text_or show "" (member "operator" raw))) in
      let (_, e1) = demand-then (is_dict raw) _ _ e in
      let (_, e2) = demand-then (not (is_empty column)) _ _ e1 in
      let (known, e3) = demand-then (elem operator supported_operators) _ _ e2 in
      let (value, normal, same) =
        and_then-ok (value_at show ds operator (member "value" raw)) _ e3 in
      subst (IsSound ds)
        (ok-injective (record { column = column; operator = operator; value = value }) c same)
        (known, value_at-IsDefined ds operator (member "value" raw) value normal)
