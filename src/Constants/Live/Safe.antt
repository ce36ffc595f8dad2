-- ===== src/Constants/Live/Safe.antt =====
-- Commands that the planner accepts are well scoped.
use qsmith.Prelude.{
  some, ℕ, String, ◌≡◌, refl, List, [], ◌∷◌, subst, All, map, Outcome, ok, and_then-ok,
}
use qsmith.Prelude.Dict.{Distinct}
use qsmith.Prelude.Int.{ℤ, pos, ◌≤ℤ◌}
use qsmith.Prelude.Sort.{sort}
use qsmith.Constants.Tables.{Section}
use qsmith.Constants.Plan.{
  PlannedDefinition, Definitions, CommandConfiguration, RawCommand, CommandInput, Planned,
  definition_refs, validate_ref_visibility, plan_command, plan_sorted, carry_over_visible_map,
  command_inputs, comes_before, plan_definitions_for_commands,
}
use qsmith.Constants.Plan.Names.{UniqueNames, IsPlan}
use qsmith.Constants.Plan.Unique.{plan_command-IsPlan}
use qsmith.Constants.Plan.Carried.{carry_over-IsPlan, carry_over-some}
use qsmith.Constants.Plan.Sorted.{IsOrdered, Ascending, planned_order, plan_sorted-cons}
use qsmith.Constants.Live.{Live, scoping_of, IsReadable, identifier, IsScoped}
use qsmith.Constants.Live.Visible.{Holds, check_refs-IsVisible, IsVisible-IsReadable}
use qsmith.Constants.Live.Effects.{plan_kind-Holds}

-- One command refers to what is live, and leaves what the next ones may refer to.
plan_command-scoped :
    (cfg : CommandConfiguration) (section : Section) (k k' : ℤ) (id : String) (live : Live)
    (ds : Definitions) (q : Planned)
    → plan_command cfg section k' id ds ≡ ok q
    → k ≤ℤ k'
    → IsPlan ds k
    → Holds live ds
    → All (IsReadable section live) (map identifier (definition_refs cfg))
      × Holds (scoping_of cfg.kind cfg.result_constant live) q.1
unfolding plan_command validate_ref_visibility definition_refs
plan_command-scoped cfg section k k' id live ds q h le plan holds =
    let (_, checked, rest) = and_then-ok (validate_ref_visibility cfg section k' ds) _ h in
    let visible = check_refs-IsVisible cfg section k k' ds (definition_refs cfg) le plan checked in
    (
      IsVisible-IsReadable section live ds _ holds visible,
      plan_kind-Holds cfg.kind cfg section k' id live ds q refl rest visible holds,
    )

module _ {C : Type 0} (convert : C → Outcome CommandConfiguration) where
  plan_sorted-IsScoped :
      (section : Section) (k : ℤ) (cs : List (CommandInput C)) (live : Live) (ds : Definitions)
      (q : Planned)
      → plan_sorted convert section cs ds ≡ ok q
      → Ascending k cs
      → IsPlan ds k
      → Holds live ds
      → IsScoped convert section live cs
  plan_sorted-IsScoped section k [] live ds q h asc plan holds = tt
  plan_sorted-IsScoped section k (c ∷ cs) live ds q h asc plan holds =
      let (cfg, q1, q2, converted, step, rest, same) =
        plan_sorted-cons convert section c cs ds q h in
      let (found, holds') =
        plan_command-scoped cfg section k c.command_order c.command_id live ds q1 step asc.0 plan
          holds in
      rw converted (
        found,
        plan_sorted-IsScoped section c.command_order cs
            (scoping_of cfg.kind cfg.result_constant live) q1.1 q2 rest asc.1
            (plan_command-IsPlan cfg section k c.command_order c.command_id ds q1 step asc.0 plan)
            holds',
      )

module _ {C : Type 0} (new_id : ℕ → String) (convert : C → Outcome CommandConfiguration) where
  carry_over-Holds :
      (live : Live) (ds : Definitions)
      → Distinct ds
      → Holds live ds
      → Holds live (carry_over_visible_map ds)
  carry_over-Holds live ds distinct holds id d found on =
      let (e, there, on_e, same) = carry_over-some id ds d distinct found in
      subst (λ (x : PlannedDefinition). live id ≡ some x.context_scope) same (holds id e there on_e)

  -- Commands that the planner accepts are well scoped, in the order in which it takes them: each
  -- reference that it collects of a command is to a definition that an earlier command declares, or
  -- that was live at the start, that no command in between deletes, and whose scope the section may
  -- read. At the start the visible definitions that are not deleted are live in their scopes, no
  -- identifier occurs twice, names differ within a scope, and the commands' orders are not negative.
  pub plan_definitions_for_commands-IsScoped :
      (cs : List (RawCommand C)) (section : Section) (initial : Definitions) (live : Live)
      (q : Planned)
      → Distinct initial
      → UniqueNames initial
      → All IsOrdered cs
      → Holds live initial
      → plan_definitions_for_commands new_id convert cs section initial ≡ ok q
      → IsScoped convert section live (sort comes_before (command_inputs new_id 1 cs))
  unfolding plan_definitions_for_commands
  plan_definitions_for_commands-IsScoped cs section initial live q distinct unique ordered holds h =
      plan_sorted-IsScoped convert section (pos 0) _ live (carry_over_visible_map initial) q h
        (planned_order new_id cs ordered) (carry_over-IsPlan initial distinct unique)
        (carry_over-Holds live initial distinct holds)
