-- ===== src/Constants/Suites/Rebuild.antt =====
-- Rebuilding the definitions of a suite accepts what was validated, and leaves other suites alone.
use mathlib.Core.Option
use qsmith.Prelude.{ℕ, String, Option, none, some, List, [], ◌∷◌}
use qsmith.Constants.Plan.{RawCommand}
use qsmith.Constants.Suites.Agree.{Alike, Rising, planned_orders}

module _ {C : Type 0} (new_id : ℕ → String) where
  -- The same commands but for their identifiers, in rising orders; or no commands on either side.
  abbrev pub AlikeHooks : Option (List (RawCommand C)) → Option (List (RawCommand C)) → Type 0
  AlikeHooks none none = Unit
  AlikeHooks (some xs) (some ys) = Alike xs ys × Rising (planned_orders new_id xs)
  AlikeHooks none (some ys) = ⊥
  AlikeHooks (some xs) none = ⊥

  abbrev pub AlikeTests : List (List (RawCommand C)) → List (List (RawCommand C)) → Type 0
  AlikeTests [] [] = Unit
  AlikeTests (xs ∷ xss) (ys ∷ yss) =
      Alike xs ys × Rising (planned_orders new_id xs) × AlikeTests xss yss
  AlikeTests [] (ys ∷ yss) = ⊥
  AlikeTests (xs ∷ xss) [] = ⊥
