-- ===== src/Constants/Plan/Carried.antt =====
-- What a section starts with: the definitions of an earlier one that are not deleted.
use qsmith.Prelude.{
  String, ◌≡◌, refl, ◌∙◌, sym, ap, false, Option, none, some, is_some, Bool-cases, inl, inr, [],
  ◌∷◌, arith, eq_iff, ◌==◌, subst,
}
use mathlib.Core.Option.{none-ne-some, some-injective}
use qsmith.Prelude.Dict.{lookup, Distinct}
use qsmith.Prelude.Int.{ℤ, pos}
use qsmith.Constants.Plan.{PlannedDefinition, Definitions, is_deleted_by, carry_over_visible_map}
use qsmith.Constants.Plan.Names.{IsLive, UniqueNames, IsSettled, IsPlan}

abbrev pub carried : PlannedDefinition → PlannedDefinition
carried d = record d { command_order = pos 0 }

carry_over-absent :
    (id : String) (ds : Definitions)
    → lookup id ds ≡ none
    → lookup id (carry_over_visible_map ds) ≡ none
unfolding carry_over_visible_map lookup
carry_over-absent id [] h = refl
carry_over-absent id ((k, d) ∷ ds) h = elim (Bool-cases (k == id)) [
  | inl same ↦ absurd (ground arith)
  | inr other ↦
      let later = carry_over-absent id ds (rw other at h) in
      elim (Bool-cases (is_some d.deleted_at_order)) [
        | inl gone ↦ rw gone later
        | inr live ↦ rw live (rw other later)
      ]
]

carry_over-Distinct : (ds : Definitions) → Distinct ds → Distinct (carry_over_visible_map ds)
unfolding carry_over_visible_map
carry_over-Distinct [] h = tt
carry_over-Distinct ((k, d) ∷ ds) h = elim (Bool-cases (is_some d.deleted_at_order)) [
  | inl gone ↦ rw gone (carry_over-Distinct ds h.1)
  | inr live ↦ rw live (carry_over-absent k ds h.0, carry_over-Distinct ds h.1)
]

-- What is carried over was there and was not deleted.
pub carry_over-some :
    (id : String) (ds : Definitions) (d : PlannedDefinition)
    → Distinct ds
    → lookup id (carry_over_visible_map ds) ≡ some d
    → (e : PlannedDefinition) × (lookup id ds ≡ some e) × IsLive e × (carried e ≡ d)
unfolding carry_over_visible_map lookup
carry_over-some id [] d h f = absurd (ground arith)
carry_over-some id ((k, e) ∷ ds) d h f = elim (Bool-cases (is_some e.deleted_at_order)) [
  | inl gone ↦
      let (e', found, live, same) = carry_over-some id ds d h.1 (rw gone at f) in
      elim (Bool-cases (k == id)) [
        | inl here ↦ absurd (
            none-ne-some e'
              (sym (subst (λ x. lookup x ds ≡ none) ((eq_iff k id).0 here) h.0) ∙ found))
        | inr other ↦ (e', (rw other found), live, same)
      ]
  | inr live ↦ elim (Bool-cases (k == id)) [
    | inl here ↦ (e, (rw here refl), live, some-injective _ _ (rw here at (rw live at f)))
    | inr other ↦
        let (e', found, live', same) = carry_over-some id ds d h.1 (rw other at (rw live at f)) in
        (e', (rw other found), live', same)
  ]
]

carried-IsSettled : (e : PlannedDefinition) → IsLive e → IsSettled (pos 0) (carried e)
carried-IsSettled e live = (omega arith, not_yet e.deleted_at_order live)
  where
    not_yet : (o : Option ℤ) → is_some o ≡ false → is_deleted_by (pos 0) o ≡ is_some o
    not_yet none h = refl
    not_yet (some j) h = absurd (ground arith)

pub carry_over-IsPlan :
    (ds : Definitions) → Distinct ds → UniqueNames ds → IsPlan (carry_over_visible_map ds) (pos 0)
carry_over-IsPlan ds h u = record {
  distinct = carry_over-Distinct ds h;
  settled = λ id d f.
      let (e, _, live, same) = carry_over-some id ds d h f in
      subst (IsSettled (pos 0)) same (carried-IsSettled e live);
  unique = λ i j d e fi fj _ _ names scopes.
      let (d', found_d, live_d, same_d) = carry_over-some i ds d h fi in
      let (e', found_e, live_e, same_e) = carry_over-some j ds e h fj in
      u i j d' e' found_d found_e live_d live_e
        (ap (λ (z : PlannedDefinition). z.name) same_d
          ∙ names
          ∙ ap (λ (z : PlannedDefinition). z.name) (sym same_e))
        (ap (λ (z : PlannedDefinition). z.context_scope) same_d
          ∙ scopes
          ∙ ap (λ (z : PlannedDefinition). z.context_scope) (sym same_e));
}
