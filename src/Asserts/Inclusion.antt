-- ===== src/Asserts/Inclusion.antt =====
-- One counter is contained in another exactly if it counts no key more often.
use mathlib.Core.Bool.{false≢true}
use qsmith.Prelude.{
  ℕ, ◌≤◌, String, ◌≡◌, refl, sym, ◌∙◌, subst, ◌↔◌, Bool, true, false, ◌||◌, Bool-cases, inl, inr,
  List, [], ◌∷◌, leb, arith, and_left, and_right,
}
use qsmith.Asserts.{Counter, keys_eq, bump, count_of, is_contained}
use qsmith.Asserts.Multisets.{occurrences, bump_all, count_of-counter, keys_eq-to_eq, keys_eq_refl}

abbrev has_entry : List String → Counter → Bool
has_entry k [] = false
has_entry k ((j, n) ∷ c) = keys_eq j k || has_entry k c

-- No key has two entries.
abbrev IsDistinct : Counter → Type 0
IsDistinct [] = Unit
IsDistinct ((k, n) ∷ c) = (has_entry k c ≡ false) × IsDistinct c

has_entry-bump :
    (k j : List String) (c : Counter) → has_entry k (bump j c) ≡ (keys_eq j k || has_entry k c)
unfolding bump
has_entry-bump k j [] = ground arith
has_entry-bump k j ((i, n) ∷ c) = elim (Bool-cases (keys_eq i j)) [
  | inl same ↦ rw same (
      subst (λ x. (keys_eq i k || has_entry k c) ≡ (keys_eq x k || (keys_eq i k || has_entry k c)))
        (keys_eq-to_eq i j same) (ground arith))
  | inr other ↦ rw other (rw (has_entry-bump k j c) (ground arith))
]

keys_eq_comm : (a b : List String) → keys_eq a b ≡ false → keys_eq b a ≡ false
keys_eq_comm a b e = elim (Bool-cases (keys_eq b a)) [
  | inl same ↦ absurd (false≢true (sym e ∙ rw (keys_eq-to_eq b a same) (keys_eq_refl a)))
  | inr other ↦ other
]

bump-IsDistinct : (j : List String) (c : Counter) → IsDistinct c → IsDistinct (bump j c)
unfolding bump
bump-IsDistinct j [] d = (refl, tt)
bump-IsDistinct j ((i, n) ∷ c) (free, d) = elim (Bool-cases (keys_eq i j)) [
  | inl same ↦ rw same (free, d)
  | inr other ↦
      rw other
        (has_entry-bump i j c ∙ rw (keys_eq_comm i j other, free) refl, bump-IsDistinct j c d)
]

bump_all-IsDistinct :
    (ks : List (List String)) (c : Counter) → IsDistinct c → IsDistinct (bump_all ks c)
bump_all-IsDistinct [] c d = d
bump_all-IsDistinct (k ∷ ks) c d = bump_all-IsDistinct ks (bump k c) (bump-IsDistinct k c d)

count_of-absent : (k : List String) (c : Counter) → has_entry k c ≡ false → count_of k c ≡ 0
unfolding count_of
count_of-absent k [] h = refl
count_of-absent k ((j, n) ∷ c) h = elim (Bool-cases (keys_eq j k)) [
  | inl hit ↦ absurd (ground arith)
  | inr miss ↦ rw miss (count_of-absent k c (rw miss at h))
]

le_of_leb : (m n : ℕ) → leb m n ≡ true → m ≤ n
le_of_leb m n h = ground arith

leb_of_le : (m n : ℕ) → m ≤ n → leb m n ≡ true
leb_of_le m n h = ground arith

every_of_contained :
    (a b : Counter) (k : List String) → is_contained a b ≡ true → count_of k a ≤ count_of k b
unfolding is_contained
every_of_contained [] b k h = omega arith
every_of_contained ((j, n) ∷ a) b k h = elim (Bool-cases (keys_eq j k)) [
  | inl hit ↦ rw hit (
      subst (λ x. n ≤ count_of x b) (keys_eq-to_eq j k hit)
        (le_of_leb n (count_of j b) (and_left (leb n (count_of j b)) (is_contained a b) h)))
  | inr miss ↦
      rw miss (every_of_contained a b k (and_right (leb n (count_of j b)) (is_contained a b) h))
]

contained_of_every :
    (a b : Counter)
    → IsDistinct a
    → ((k : List String) → count_of k a ≤ count_of k b)
    → is_contained a b ≡ true
unfolding is_contained
contained_of_every [] b d h = refl
contained_of_every ((j, n) ∷ a) b (free, d) h =
    rw (leb_of_le n (count_of j b) (first j refl))
      (contained_of_every a b d (λ k. later k (keys_eq j k) refl))
  where
    first : (k : List String) → j ≡ k → n ≤ count_of k b
    first k e = subst (λ x. n ≤ count_of x b) e (unfold count_of in rw (keys_eq_refl j) at (h j))

    later : (k : List String) (hit : Bool) → keys_eq j k ≡ hit → count_of k a ≤ count_of k b
    later k true e =
        let none_left : count_of k a ≡ 0 =
          count_of-absent k a (subst (λ x. has_entry x a ≡ false) (keys_eq-to_eq j k e) free) in
        omega arith
    later k false e = unfold count_of in rw e at (h k)

-- Of the counters of two lists of keys, the first is contained in the second exactly if no key
-- occurs in the first list more often than in the second.
pub is_contained_iff :
    (ks ls : List (List String))
    → (is_contained (bump_all ks []) (bump_all ls []) ≡ true)
      ↔ ((k : List String) → occurrences k ks ≤ occurrences k ls)
is_contained_iff ks ls = (
  λ h k.
      rw (count_of-counter k ks, count_of-counter k ls) at
        (every_of_contained (bump_all ks []) (bump_all ls []) k h),
  λ h.
      contained_of_every (bump_all ks []) (bump_all ls []) (bump_all-IsDistinct ks [] tt)
        (λ k. rw (count_of-counter k ks, count_of-counter k ls) (h k)),
)
