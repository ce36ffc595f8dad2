-- ===== src/Constants/Plan/Sorted.antt =====
-- The order in which a section's commands are planned, and what the whole plan keeps.
use qsmith.Prelude.{
  ℕ, suc, String, ◌≡◌, true, false, Bool-cases, inl, inr, List, [], ◌∷◌, ◌++◌, arith, subst, All,
  Outcome, ok, and_then-ok, ok-injective,
}
use qsmith.Prelude.Dict.{Distinct}
use qsmith.Prelude.Int.{ℤ, pos, eqb_ℤ, ◌≤ℤ◌, le_of_eqb_ℤ}
use qsmith.Prelude.Sort.{sort, Chain, Chain-sort}
use qsmith.Constants.Tables.{Section}
use qsmith.Constants.Plan.{
  Definitions, CommandConfiguration, RawCommand, CommandInput, Planned, plan_command, plan_sorted,
  carry_over_visible_map, command_inputs, comes_before, plan_definitions_for_commands,
}
use qsmith.Constants.Plan.Names.{UniqueNames, IsPlan}
use qsmith.Constants.Plan.Unique.{plan_command-IsPlan}
use qsmith.Constants.Plan.Carried.{carry_over-IsPlan}

-- The orders do not fall, and the first is not below a bound.
abbrev pub Ascending : {C : Type 0} → ℤ → List (CommandInput C) → Type 0
Ascending k [] = Unit
Ascending k (c ∷ cs) = (k ≤ℤ c.command_order) × Ascending c.command_order cs

abbrev NotAfter : {C : Type 0} → CommandInput C → CommandInput C → Type 0
NotAfter a b = a.command_order ≤ℤ b.command_order

module _ {C : Type 0} where
  comes_before-NotAfter : (a b : CommandInput C) → comes_before b a ≡ true → NotAfter b a
  comes_before-NotAfter a b h = ground (arith, le_of_eqb_ℤ b.command_order a.command_order)

  NotAfter-comes_before : (a b : CommandInput C) → comes_before b a ≡ false → NotAfter a b
  NotAfter-comes_before a b h = ground arith

  Ascending-Chain :
      (z : CommandInput C) (cs : List (CommandInput C))
      → Chain NotAfter z cs
      → Ascending z.command_order cs
  Ascending-Chain z [] h = tt
  Ascending-Chain z (c ∷ cs) h = (h.0, Ascending-Chain c cs h.1)

  sort-Ascending :
      (k : ℤ) (cs : List (CommandInput C))
      → All (λ c. k ≤ℤ c.command_order) cs
      → Ascending k (sort comes_before cs)
  unfolding sort
  sort-Ascending k [] h = tt
  sort-Ascending k (c ∷ cs) h =
      Ascending-Chain (record c { command_order = k }) _
        (Chain-sort NotAfter comes_before comes_before-NotAfter NotAfter-comes_before
          (record c { command_order = k }) (c ∷ cs) h)

  -- A command's order, as its section gives it, is not negative.
  abbrev pub IsOrdered : RawCommand C → Type 0
  IsOrdered c = pos 0 ≤ℤ c.order

module _ {C : Type 0} (new_id : ℕ → String) where
  command_inputs-IsOrdered :
      (n : ℕ) (cs : List (RawCommand C))
      → All IsOrdered cs
      → All (λ (c : CommandInput C). pos 0 ≤ℤ c.command_order) (command_inputs new_id n cs)
  unfolding command_inputs
  command_inputs-IsOrdered n [] h = tt
  command_inputs-IsOrdered n (c ∷ cs) h = (
    elim (Bool-cases (eqb_ℤ c.order (pos 0))) [ inl e ↦ rw e (omega arith) | inr e ↦ rw e h.0 ],
    command_inputs-IsOrdered (suc n) cs h.1,
  )

  pub planned_order :
      (cs : List (RawCommand C))
      → All IsOrdered cs
      → Ascending (pos 0) (sort comes_before (command_inputs new_id 1 cs))
  planned_order cs h = sort-Ascending (pos 0) _ (command_inputs-IsOrdered 1 cs h)

module _ {C : Type 0} (convert : C → Outcome CommandConfiguration) where
  pub plan_sorted-cons :
      (section : Section) (c : CommandInput C) (cs : List (CommandInput C)) (ds : Definitions)
      (p : Planned)
      → plan_sorted convert section (c ∷ cs) ds ≡ ok p
      → (cfg : CommandConfiguration) × (q r : Planned) × (convert c.cfg ≡ ok cfg)
        × (plan_command cfg section c.command_order c.command_id ds ≡ ok q)
        × (plan_sorted convert section cs q.1 ≡ ok r)
        × ((q.0 ++ r.0, r.1) ≡ p)
  unfolding plan_sorted
  plan_sorted-cons section c cs ds p h =
      let (cfg, e, h') = and_then-ok (convert c.cfg) _ h in
      let (q, e', h'') =
        and_then-ok (plan_command cfg section c.command_order c.command_id ds) _ h' in
      let (r, e'', h''') = and_then-ok (plan_sorted convert section cs q.1) _ h'' in
      (cfg, q, r, e, e', e'', ok-injective _ _ h''')

  plan_sorted-UniqueNames :
      (section : Section) (k : ℤ) (cs : List (CommandInput C)) (ds : Definitions) (p : Planned)
      → plan_sorted convert section cs ds ≡ ok p
      → Ascending k cs
      → IsPlan ds k
      → UniqueNames p.1
  unfolding plan_sorted
  plan_sorted-UniqueNames section k [] ds p h asc plan =
      subst (λ (x : Planned). UniqueNames x.1) (ok-injective _ _ h) plan.unique
  plan_sorted-UniqueNames section k (c ∷ cs) ds p h asc plan =
      let (cfg, q, r, _, step, rest, same) = plan_sorted-cons section c cs ds p h in
      subst (λ (x : Planned). UniqueNames x.1) same
        (plan_sorted-UniqueNames section c.command_order cs q.1 r rest asc.1
          (plan_command-IsPlan cfg section k c.command_order c.command_id ds q step asc.0 plan))

module _ {C : Type 0} (new_id : ℕ → String) (convert : C → Outcome CommandConfiguration) where
  -- After a section's plan no two constants that are not deleted share a name and a scope. No two
  -- of the definitions that were visible before did, and the commands' orders are not negative.
  pub plan_definitions_for_commands-UniqueNames :
      (cs : List (RawCommand C)) (section : Section) (initial : Definitions) (p : Planned)
      → Distinct initial
      → UniqueNames initial
      → All IsOrdered cs
      → plan_definitions_for_commands new_id convert cs section initial ≡ ok p
      → UniqueNames p.1
  unfolding plan_definitions_for_commands
  plan_definitions_for_commands-UniqueNames cs section initial p distinct unique ordered h =
      plan_sorted-UniqueNames convert section (pos 0) _ (carry_over_visible_map initial) p h
        (planned_order new_id cs ordered) (carry_over-IsPlan initial distinct unique)
