-- ===== src/Constants/Suites/Agree.antt =====
-- Two lists of commands that differ in their identifiers only are planned alike.
use qsmith.Prelude.{
  ℕ, suc, String, ◌≡◌, refl, ◌∙◌, sym, ap, subst, true, false, Bool-cases, inl, inr, List, [], ◌∷◌,
  map, arith, Outcome, if◌then◌else◌,
}
use qsmith.Prelude.Int.{ℤ, pos, eqb_ℤ, ltb_ℤ, le_of_eqb_ℤ}
use qsmith.Prelude.Sort.{sort, put_in}
use qsmith.Constants.Tables.{Section}
use qsmith.Constants.Plan.{
  Definitions, CommandConfiguration, RawCommand, CommandInput, Planned, command_inputs,
  comes_before, carry_over_visible_map, plan_sorted, plan_definitions_for_commands,
}
use qsmith.Constants.Plan.Erase.{
  erase_all, erase_plan, map_ok, nameless, carry_over-erase_all, plan_sorted-erase_all,
}

-- Each order is below the next.
abbrev StartsAfter : ℤ → List ℤ → Type 0
StartsAfter k [] = Unit
StartsAfter k (j ∷ js) = ltb_ℤ k j ≡ true

abbrev pub Rising : List ℤ → Type 0
Rising [] = Unit
Rising (k ∷ ks) = StartsAfter k ks × Rising ks

module _ {C : Type 0} where
  abbrev pub order_of : CommandInput C → ℤ
  order_of c = c.command_order

  not_before :
      (a b : CommandInput C)
      → ltb_ℤ a.command_order b.command_order ≡ true
      → comes_before b a ≡ false
  not_before a b h = elim (Bool-cases (eqb_ℤ b.command_order a.command_order)) [
    | inl e ↦ absurd (ground (arith, le_of_eqb_ℤ b.command_order a.command_order))
    | inr e ↦ rw e (ground arith)
  ]

  put_in-first :
      (c : CommandInput C) (cs : List (CommandInput C))
      → StartsAfter c.command_order (map order_of cs)
      → put_in comes_before c cs ≡ c ∷ cs
  unfolding put_in
  put_in-first c [] h = refl
  put_in-first c (d ∷ cs) h = rw (not_before c d h) refl

  -- What rises already is not moved.
  sort-Rising : (cs : List (CommandInput C)) → Rising (map order_of cs) → sort comes_before cs ≡ cs
  unfolding sort
  sort-Rising [] h = refl
  sort-Rising (c ∷ cs) h = rw (sort-Rising cs h.1) (put_in-first c cs h.0)

  abbrev pub Alike : List (RawCommand C) → List (RawCommand C) → Type 0
  Alike [] [] = Unit
  Alike (a ∷ as') (b ∷ bs) = (a.order ≡ b.order) × (a.cfg ≡ b.cfg) × Alike as' bs
  Alike [] (b ∷ bs) = ⊥
  Alike (a ∷ as') [] = ⊥

module _ {C : Type 0} (new_id : ℕ → String) where
  -- The orders in which a section's commands are planned.
  abbrev pub planned_orders : List (RawCommand C) → List ℤ
  planned_orders cs = map order_of (command_inputs new_id 1 cs)

  abbrev input_of : ℕ → ℤ → C → CommandInput C
  input_of n order cfg = record {
    command_id = "";
    command_order = (if eqb_ℤ order (pos 0) then pos n else order);
    cfg = cfg;
  }

  orders-nameless : (cs : List (CommandInput C)) → map order_of (map nameless cs) ≡ map order_of cs
  orders-nameless [] = refl
  orders-nameless (c ∷ cs) = ap (λ ks. c.command_order ∷ ks) (orders-nameless cs)

  module _ (convert : C → Outcome CommandConfiguration) where
    inputs-Alike :
        (n : ℕ) (xs ys : List (RawCommand C))
        → Alike xs ys
        → map nameless (command_inputs new_id n xs) ≡ map nameless (command_inputs new_id n ys)
    unfolding command_inputs
    inputs-Alike n [] [] h = refl
    inputs-Alike n (a ∷ xs) (b ∷ ys) (o, c, rest) =
        ap (λ k. input_of n k a.cfg ∷ map nameless (command_inputs new_id (suc n) xs)) o
        ∙ ap (λ x. input_of n b.order x ∷ map nameless (command_inputs new_id (suc n) xs)) c
        ∙ ap (λ cs. input_of n b.order b.cfg ∷ cs) (inputs-Alike (suc n) xs ys rest)
    inputs-Alike n [] (b ∷ ys) h = absurd h
    inputs-Alike n (a ∷ xs) [] h = absurd h

    abbrev plan_nameless : Section → List (CommandInput C) → Definitions → Outcome Planned
    plan_nameless section cs ds = plan_sorted convert section (map nameless cs) ds

    plan-nameless :
        (section : Section) (cs : List (RawCommand C)) (ds : Definitions)
        → Rising (planned_orders cs)
        → map_ok erase_plan (plan_definitions_for_commands new_id convert cs section ds)
          ≡ plan_nameless section
              (command_inputs new_id 1 cs)
              (carry_over_visible_map (erase_all ds))
    unfolding plan_definitions_for_commands
    plan-nameless section cs ds h =
        sym (
          plan_sorted-erase_all convert section (sort comes_before (command_inputs new_id 1 cs))
            (carry_over_visible_map ds))
        ∙ ap (λ xs. plan_nameless section xs (erase_all (carry_over_visible_map ds)))
            (sort-Rising (command_inputs new_id 1 cs) h)
        ∙ ap (plan_nameless section (command_inputs new_id 1 cs)) (sym (carry_over-erase_all ds))

    -- The inputs decide, identifiers aside.
    pub plan-inputs :
        (section : Section) (xs ys : List (RawCommand C)) (ds es : Definitions)
        → map nameless (command_inputs new_id 1 xs) ≡ map nameless (command_inputs new_id 1 ys)
        → Rising (planned_orders xs)
        → erase_all ds ≡ erase_all es
        → map_ok erase_plan (plan_definitions_for_commands new_id convert xs section ds)
          ≡ map_ok erase_plan (plan_definitions_for_commands new_id convert ys section es)
    plan-inputs section xs ys ds es inputs rising same =
        plan-nameless section xs ds rising
        ∙ ap (λ cs. plan_sorted convert section cs (carry_over_visible_map (erase_all ds))) inputs
        ∙ ap (λ x. plan_nameless section (command_inputs new_id 1 ys) (carry_over_visible_map x))
            same
        ∙ sym (plan-nameless section ys es (subst Rising orders rising))
      where
        orders : planned_orders xs ≡ planned_orders ys
        orders =
            sym (orders-nameless (command_inputs new_id 1 xs))
            ∙ ap (map order_of) inputs
            ∙ orders-nameless (command_inputs new_id 1 ys)

    pub plan-Alike :
        (section : Section) (xs ys : List (RawCommand C)) (ds es : Definitions)
        → Alike xs ys
        → Rising (planned_orders xs)
        → erase_all ds ≡ erase_all es
        → map_ok erase_plan (plan_definitions_for_commands new_id convert xs section ds)
          ≡ map_ok erase_plan (plan_definitions_for_commands new_id convert ys section es)
    plan-Alike section xs ys ds es alike rising same =
        plan-inputs section xs ys ds es (inputs-Alike 1 xs ys alike) rising same
