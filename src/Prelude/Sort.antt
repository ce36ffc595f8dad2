-- ===== src/Prelude/Sort.antt =====
-- `list.sort` by a key: a stable sort, written as an insertion sort.
use mathlib.Core.Path.{◌≡◌}
use mathlib.Core.Logic.{inl, inr}
use mathlib.Core.Bool.{Bool, true, false}
use mathlib.Core.List.{List, [], ◌∷◌}
use qsmith.Prelude.Tests.{if◌then◌else◌, Bool-cases}
use qsmith.Prelude.Lists.{All}

module _ {ℓ} {A : Type ℓ} (before : A → A → Bool) where
  -- `x` came before all of the list: it goes behind what is strictly before it, and no further.
  unfoldable pub put_in : A → List A → List A
  put_in x [] = x ∷ []
  put_in x (y ∷ ys) = let later = put_in x ys in if before y x then y ∷ later else x ∷ y ∷ ys

  unfoldable pub sort : List A → List A
  unfolding put_in
  sort [] = []
  sort (x ∷ xs) = put_in x (sort xs)

module _ {ℓ κ} {A : Type ℓ} where
  -- Each is related to the next one, `z` to the first.
  abbrev pub Chain : (A → A → Type κ) → A → List A → Type κ
  Chain R z [] = Unit
  Chain R z (x ∷ xs) = R z x × Chain R x xs

  module _ (R : A → A → Type κ) (before : A → A → Bool)
      (yes_before : (x y : A) → before y x ≡ true → R y x)
      (not_before : (x y : A) → before y x ≡ false → R x y) where
    Chain-put_in : (z x : A) (ys : List A) → R z x → Chain R z ys → Chain R z (put_in before x ys)
    unfolding put_in
    Chain-put_in z x [] r c = (r, tt)
    Chain-put_in z x (y ∷ ys) r c = elim (Bool-cases (before y x)) [
      | inl e ↦ rw e (c.0, Chain-put_in y x ys (yes_before x y e) c.1)
      | inr e ↦ rw e (r, (not_before x y e, c.1))
    ]

    pub Chain-sort : (z : A) (xs : List A) → All (R z) xs → Chain R z (sort before xs)
    unfolding sort
    Chain-sort z [] h = tt
    Chain-sort z (x ∷ xs) h = Chain-put_in z x (sort before xs) h.0 (Chain-sort z xs h.1)

module _ {ℓ κ} {A : Type ℓ} (P : A → Type κ) (before : A → A → Bool) where
  All-put_in : (x : A) (ys : List A) → P x → All P ys → All P (put_in before x ys)
  unfolding put_in
  All-put_in x [] p h = (p, tt)
  All-put_in x (y ∷ ys) p h = elim (Bool-cases (before y x)) [
    | inl e ↦ rw e (h.0, All-put_in x ys p h.1)
    | inr e ↦ rw e (p, h)
  ]

  pub All-sort : (xs : List A) → All P xs → All P (sort before xs)
  unfolding sort
  All-sort [] h = tt
  All-sort (x ∷ xs) h = All-put_in x (sort before xs) h.0 (All-sort xs h.1)
