-- ===== src/Constants/Plan/Active.antt =====
-- What is looked up among the active definitions.
use qsmith.Prelude.{
  String, ◌≡◌, refl, ◌∙◌, sym, ap, true, Option, none, some, Bool-cases, inl, inr, List, [], ◌∷◌,
  arith, eq_iff, ◌==◌, if◌then◌else◌, subst,
}
use mathlib.Core.Option.{none-ne-some, some-injective}
use qsmith.Prelude.Dict.{lookup, Distinct}
use qsmith.Prelude.Int.{ℤ}
use qsmith.Constants.Plan.{PlannedDefinition, Definitions, is_active, active_definitions}

abbrev if_active : List String → ℤ → Option PlannedDefinition → Option PlannedDefinition
if_active readable order none = none
if_active readable order (some d) = if is_active readable order d then some d else none

active_definitions-absent :
    (readable : List String) (order : ℤ) (id : String) (ds : Definitions)
    → lookup id ds ≡ none
    → lookup id (active_definitions readable order ds) ≡ none
unfolding active_definitions lookup
active_definitions-absent readable order id [] h = refl
active_definitions-absent readable order id ((k, d) ∷ ds) h = elim (Bool-cases (k == id)) [
  | inl same ↦ absurd (ground arith)
  | inr other ↦
      let later = active_definitions-absent readable order id ds (rw other at h) in
      elim (Bool-cases (is_active readable order d)) [
        | inl on ↦ rw on (rw other later)
        | inr off ↦ rw off later
      ]
]

lookup-active_definitions :
    (readable : List String) (order : ℤ) (id : String) (ds : Definitions)
    → Distinct ds
    → lookup id (active_definitions readable order ds) ≡ if_active readable order (lookup id ds)
unfolding active_definitions lookup
lookup-active_definitions readable order id [] h = refl
lookup-active_definitions readable order id ((k, d) ∷ ds) h =
    let later = lookup-active_definitions readable order id ds h.1 in
    elim (Bool-cases (is_active readable order d)) [
      | inl on ↦ elim (Bool-cases (k == id)) [
        | inl same ↦ rw on (rw same (rw on refl))
        | inr other ↦ rw on (rw other later)
      ]
      | inr off ↦ elim (Bool-cases (k == id)) [
        | inl same ↦ rw off (
            rw same (
              rw off (
                active_definitions-absent readable order id ds
                  (subst (λ x. lookup x ds ≡ none) ((eq_iff k id).0 same) h.0))))
        | inr other ↦ rw off (rw other later)
      ]
    ]

-- An active definition is one of the definitions.
pub active_definitions-some :
    (readable : List String) (order : ℤ) (id : String) (ds : Definitions) (d : PlannedDefinition)
    → Distinct ds
    → lookup id (active_definitions readable order ds) ≡ some d
    → (lookup id ds ≡ some d) × (is_active readable order d ≡ true)
active_definitions-some readable order id ds d h e = found (lookup id ds) refl
  where
    found :
        (o : Option PlannedDefinition)
        → lookup id ds ≡ o
        → (lookup id ds ≡ some d) × (is_active readable order d ≡ true)
    found none eq = absurd (
        none-ne-some d (
          sym (lookup-active_definitions readable order id ds h ∙ ap (if_active readable order) eq)
          ∙ e))
    found (some d') eq =
        let looked =
          sym (lookup-active_definitions readable order id ds h ∙ ap (if_active readable order) eq)
          ∙ e in
        elim (Bool-cases (is_active readable order d')) [
          | inl on ↦
              let same = some-injective d' d (rw on at looked) in
              (eq ∙ ap some same, subst (λ x. is_active readable order x ≡ true) same on)
          | inr off ↦ absurd (none-ne-some d (rw off at looked))
        ]

pub active_definitions-found :
    (readable : List String) (order : ℤ) (id : String) (ds : Definitions) (d : PlannedDefinition)
    → Distinct ds
    → lookup id ds ≡ some d
    → is_active readable order d ≡ true
    → lookup id (active_definitions readable order ds) ≡ some d
active_definitions-found readable order id ds d h e on =
    lookup-active_definitions readable order id ds h ∙ rw e (rw on refl)
