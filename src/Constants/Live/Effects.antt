-- ===== src/Constants/Live/Effects.antt =====
-- What is live and what is planned change together.
use mathlib.Core.Bool.{false≢true}
use qsmith.Prelude.{
  String, ◌≡◌, refl, ◌∙◌, sym, ap, Option, none, some, is_some, Bool-cases, inl, inr, ◌++◌, eq_iff,
  eq_refl, ◌==◌, subst, All, map, ok, ok-injective,
}
use qsmith.Prelude.Dict.{lookup, insert, lookup-insert-some}
use qsmith.Prelude.Int.{ℤ}
use qsmith.Constants.Tables.{Section}
use qsmith.Constants.Plan.{
  PlannedDefinition, Definitions, CommandConfiguration, Kind, init_constant, delete_constant,
  run_suite, other, ResultConstant, Planned, refs_of_kind, init_declaration, result_declaration,
  planned_declarations, add_definitions, declare, delete_definition, plan_kind,
}
use qsmith.Constants.Plan.Unique.{declare-ok}
use qsmith.Constants.Live.{Live, add, drop, add_result, add_init, scoping_of, identifier}
use qsmith.Constants.Live.Visible.{Holds, IsVisible}

add-Holds :
    (live : Live) (ds : Definitions) (id : String) (d : PlannedDefinition)
    → Holds live ds
    → Holds (add id d.context_scope live) (insert id d ds)
add-Holds live ds id d holds j e found on = elim (lookup-insert-some id j d e ds found) [
  | inl (same, de) ↦
      subst (λ (x : PlannedDefinition). add id d.context_scope live j ≡ some x.context_scope) de
        (rw (← same, eq_refl id) refl)
  | inr (ne, there) ↦ elim (Bool-cases (id == j)) [
    | inl same ↦ absurd (ne ((eq_iff id j).0 same))
    | inr apart ↦ rw apart (holds j e there on)
  ]
]

-- What the declarations of a command make live is what the plan gains.
add_definitions-Holds :
    (kind : Kind) (r : Option ResultConstant) (code id : String) (k : ℤ) (section : Section)
    (live : Live) (ds : Definitions)
    → Holds live ds
    → Holds (add_result r (add_init kind live)) (
        add_definitions
          (init_declaration id k section kind ++ result_declaration code id k section r)
          ds)
unfolding add_definitions
add_definitions-Holds (init_constant _ _ _ _) none code id k section live ds holds =
    add-Holds live ds _ _ holds
add_definitions-Holds (init_constant _ _ _ _) (some r) code id k section live ds holds =
    add-Holds _ _ _ _ (add-Holds live ds _ _ holds)
add_definitions-Holds _ none code id k section live ds holds = holds
add_definitions-Holds _ (some r) code id k section live ds holds = add-Holds live ds _ _ holds

declare-Holds :
    (cfg : CommandConfiguration) (section : Section) (k : ℤ) (id : String) (live : Live)
    (ds : Definitions) (q : Planned)
    → declare cfg section k id ds ≡ ok q
    → Holds live ds
    → Holds (add_result cfg.result_constant (add_init cfg.kind live)) q.1
unfolding planned_declarations
declare-Holds cfg section k id live ds q h holds =
    let (_, same) = declare-ok cfg section k id ds q h in
    subst (λ (x : Planned). Holds (add_result cfg.result_constant (add_init cfg.kind live)) x.1)
      same
      (add_definitions-Holds cfg.kind cfg.result_constant cfg.command_code id k section live ds
        holds)

drop-Holds :
    (t : String) (k : ℤ) (live : Live) (ds : Definitions) (e : PlannedDefinition)
    → Holds live ds
    → Holds (drop t live) (insert t (record e { deleted_at_order = some k }) ds)
drop-Holds t k live ds e holds j x found on =
    elim (lookup-insert-some t j (record e { deleted_at_order = some k }) x ds found) [
      | inl (same, ex) ↦
          absurd
            (false≢true (sym (ap (λ (z : PlannedDefinition). is_some z.deleted_at_order) ex ∙ on)))
      | inr (ne, there) ↦ elim (Bool-cases (t == j)) [
        | inl same ↦ absurd (ne ((eq_iff t j).0 same))
        | inr apart ↦ rw apart (holds j x there on)
      ]
    ]

delete_definition-Holds :
    (section : Section) (t : String) (k : ℤ) (live : Live) (ds : Definitions) (q : Planned)
    → delete_definition t k ds (lookup t ds) ≡ ok q
    → IsVisible section ds t
    → Holds live ds
    → Holds (drop t live) q.1
delete_definition-Holds section t k live ds q h (e, there, _, _) holds =
    subst (λ (x : Planned). Holds (drop t live) x.1) (ok-injective _ _ (rw there at h))
      (drop-Holds t k live ds e holds)

pub plan_kind-Holds :
    (kind : Kind) (cfg : CommandConfiguration) (section : Section) (k : ℤ) (id : String)
    (live : Live) (ds : Definitions) (q : Planned)
    → cfg.kind ≡ kind
    → plan_kind kind cfg section k id ds ≡ ok q
    → All (IsVisible section ds) (map identifier (refs_of_kind cfg kind))
    → Holds live ds
    → Holds (scoping_of kind cfg.result_constant live) q.1
plan_kind-Holds (delete_constant t) cfg section k id live ds q e h v holds =
    delete_definition-Holds section t k live ds q h v.0 holds
plan_kind-Holds (init_constant a b c d) cfg section k id live ds q e h v holds =
    subst (λ x. Holds (add_result cfg.result_constant (add_init x live)) q.1) e
      (declare-Holds cfg section k id live ds q h holds)
plan_kind-Holds (run_suite ids) cfg section k id live ds q e h v holds =
    subst (λ x. Holds (add_result cfg.result_constant (add_init x live)) q.1) e
      (declare-Holds cfg section k id live ds q h holds)
plan_kind-Holds other cfg section k id live ds q e h v holds =
    subst (λ x. Holds (add_result cfg.result_constant (add_init x live)) q.1) e
      (declare-Holds cfg section k id live ds q h holds)
