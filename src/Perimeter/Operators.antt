-- ===== src/Perimeter/Operators.antt =====
-- The operators of conditions: each that is supported builds a clause.
use mathlib.Core.Bool.{false≢true}
use mathlib.Core.Option.{none-ne-some, some-injective}
use qsmith.Prelude.{
  String, ◌≡◌, refl, Bool, true, Bool-cases, inl, inr, some, Option-cases, List, [], ◌∷◌, map, elem,
  All, is_ok, ◌==◌, false, Outcome, subst, eq_iff,
}
use qsmith.Prelude.Dict.{Dict, lookup, has}
use qsmith.Json.{Json}
use qsmith.Perimeter.Conditions.{supported_operators}
use qsmith.Perimeter.Compile.{Clause, ordered, operator_clauses, clause_or}

abbrev ordering_operators : List String
ordering_operators = "gt" ∷ "gte" ∷ "lt" ∷ "lte" ∷ []

pub lookup-has :
    {A : Type 0} (k : String) (d : Dict A) → has k d ≡ true → (v : A) × (lookup k d ≡ some v)
lookup-has k d h = elim (Option-cases (lookup k d)) [
  | inl gone ↦ absurd (false≢true (rw gone at h))
  | inr found ↦ found
]

has-keys :
    {A : Type 0} (k : String) (d : Dict A)
    → elem k (map (λ (x : String × A). x.0) d) ≡ true
    → has k d ≡ true
unfolding lookup
has-keys k [] h = absurd (false≢true h)
has-keys k ((j, v) ∷ d) h = elim (Bool-cases (j == k)) [
  | inl same ↦ rw same refl
  | inr ne ↦ rw ne (has-keys k d (rw ne at h))
]

lookup-All :
    {A : Type 0} (P : String → A → Type 0) (k : String) (d : Dict A)
    → All (λ (entry : String × A). P entry.0 entry.1) d
    → (v : A) → lookup k d ≡ some v
    → P k v
unfolding lookup
lookup-All P k [] h v e = absurd (none-ne-some v e)
lookup-All P k ((j, w) ∷ d) (h, hs) v e = elim (Bool-cases (j == k)) [
  | inl same ↦
      subst (λ x. P k x) (some-injective w v (rw same at e))
        (subst (λ x. P x w) ((eq_iff j k).0 same) h)
  | inr ne ↦ lookup-All P k d hs v (rw ne at e)
]

module _ {V : Type 0} (show : Json → String) (literal : Json → V) (none_value : V)
    (is_none is_constant : V → Bool) where
  -- A value that an ordering is built for.
  abbrev pub HasOrder : String → V → Type 0
  HasOrder operator v = elem operator ordering_operators ≡ true → is_constant v ≡ false

  abbrev Builds : String → (String → V → Outcome (Clause V)) → Type 0
  Builds operator f = (column : String) (v : V) → HasOrder operator v → is_ok (f column v) ≡ true

  ordered-Builds :
      (operator : String)
      → elem operator ordering_operators ≡ true
      → Builds operator (ordered show literal none_value is_none is_constant operator)
  ordered-Builds operator e column v h = rw (h e) refl

  operator_clauses-Builds :
      All
        (λ (entry : String × (String → V → Outcome (Clause V))). Builds entry.0 entry.1)
        (operator_clauses show literal none_value is_none is_constant)
  operator_clauses-Builds = (
    λ _ _ _. refl,
    (
      λ _ _ _. refl,
      (
        ordered-Builds "gt" refl,
        (
          ordered-Builds "gte" refl,
          (
            ordered-Builds "lt" refl,
            (
              ordered-Builds "lte" refl,
              (
                λ _ _ _. refl,
                (
                  λ _ _ _. refl,
                  (
                    λ _ _ _. refl,
                    (λ _ _ _. refl, (λ _ _ _. refl, (λ _ _ _. refl, (λ _ _ _. refl, tt)))),
                  ),
                ),
              ),
            ),
          ),
        ),
      ),
    ),
  )

  pub clause_of_supported :
      (operator column : String) (v : V)
      → elem operator supported_operators ≡ true
      → HasOrder operator v
      → is_ok (
          clause_or show literal none_value is_none is_constant
            (lookup operator (operator_clauses show literal none_value is_none is_constant))
            column
            v)
        ≡ true
  clause_of_supported operator column v h order =
      let table = operator_clauses show literal none_value is_none is_constant in
      let (f, found) = lookup-has operator table (has-keys operator table h) in
      rw found (lookup-All Builds operator table operator_clauses-Builds f found column v order)
