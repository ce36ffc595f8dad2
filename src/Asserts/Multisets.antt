-- ===== src/Asserts/Multisets.antt =====
-- Counters hold how often a key occurs, and comparing them compares that.
use qsmith.Prelude.{
  ℕ, suc, ◌+◌, String, ◌≡◌, refl, sym, ◌∙◌, ap, subst, ◌⊎◌, inl, inr, ◌↔◌, Bool, true, false,
  Bool-cases, List, [], ◌∷◌, all, eqb, arith, and_left, and_right, eq_of_eqb, ◌==◌, eq_iff, eq_refl,
  if◌then◌else◌,
}
use mathlib.Core.Bool.{false≢true}
use qsmith.Asserts.{Counter, keys_eq, bump, count_of, counters_eq}

pub keys_eq-to_eq : (a b : List String) → keys_eq a b ≡ true → a ≡ b
unfolding keys_eq
keys_eq-to_eq [] [] e = refl
keys_eq-to_eq [] (t ∷ ts) e = cc
keys_eq-to_eq (s ∷ ss) [] e = cc
keys_eq-to_eq (s ∷ ss) (t ∷ ts) e =
    subst (λ x. (s ∷ ss) ≡ (x ∷ ts)) ((eq_iff s t).0 (and_left (s == t) (keys_eq ss ts) e))
      (ap (λ xs. s ∷ xs) (keys_eq-to_eq ss ts (and_right (s == t) (keys_eq ss ts) e)))

pub keys_eq_refl : (a : List String) → keys_eq a a ≡ true
unfolding keys_eq
keys_eq_refl [] = refl
keys_eq_refl (s ∷ ss) = rw (eq_refl s, keys_eq_refl ss) refl

-- How often a key stands in a list.
abbrev pub occurrences : List String → List (List String) → ℕ
occurrences k [] = 0
occurrences k (j ∷ ks) = if keys_eq j k then suc (occurrences k ks) else occurrences k ks

abbrev pub bump_all : List (List String) → Counter → Counter
bump_all [] c = c
bump_all (k ∷ ks) c = bump_all ks (bump k c)

pub not_both :
    (i j k : List String) → keys_eq i j ≡ false → keys_eq i k ≡ true → keys_eq j k ≡ false
not_both i j k other hit = elim (Bool-cases (keys_eq j k)) [
  | inl both ↦
      let same : i ≡ j = keys_eq-to_eq i k hit ∙ sym (keys_eq-to_eq j k both) in
      absurd (false≢true (sym other ∙ rw (sym same) (keys_eq_refl i)))
  | inr e ↦ e
]

count_of-bump :
    (k j : List String) (c : Counter)
    → count_of k (bump j c) ≡ (if keys_eq j k then suc (count_of k c) else count_of k c)
unfolding count_of bump
count_of-bump k j [] = refl
count_of-bump k j ((i, n) ∷ c) = elim (Bool-cases (keys_eq i j)) [
  | inl same ↦
      let here : i ≡ j = keys_eq-to_eq i j same in
      rw same (
        subst
          (λ x. (if keys_eq i k then suc n else count_of k c) ≡ (
            if keys_eq x k
            then suc (if keys_eq i k then n else count_of k c)
            else (if keys_eq i k then n else count_of k c)))
          here (ground arith))
  | inr other ↦ rw other (elim (Bool-cases (keys_eq i k)) [
    | inl hit ↦ rw hit (rw (not_both i j k other hit) refl)
    | inr miss ↦ rw miss (count_of-bump k j c)
  ])
]

count_of-bump_all :
    (k : List String) (ks : List (List String)) (c : Counter)
    → count_of k (bump_all ks c) ≡ occurrences k ks + count_of k c
count_of-bump_all k [] c = omega arith
count_of-bump_all k (j ∷ ks) c =
    count_of-bump_all k ks (bump j c)
    ∙ ap (λ n. occurrences k ks + n) (count_of-bump k j c)
    ∙ ground arith

-- A counter of a list's keys counts them.
pub count_of-counter :
    (k : List String) (ks : List (List String)) → count_of k (bump_all ks []) ≡ occurrences k ks
count_of-counter k ks = count_of-bump_all k ks [] ∙ (unfold count_of in omega arith)

module _ (p : List String → Bool) where
  all_keys-every :
      (a : Counter)
      → ((k : List String) → p k ≡ true)
      → all (λ (e : List String × ℕ). p e.0) a ≡ true
  all_keys-every [] h = refl
  all_keys-every ((k, n) ∷ a) h = rw (h k, all_keys-every a h) refl

  all_keys-counted :
      (a : Counter) (k : List String)
      → all (λ (e : List String × ℕ). p e.0) a ≡ true
      → (count_of k a ≡ 0) ⊎ (p k ≡ true)
  unfolding count_of
  all_keys-counted [] k h = inl refl
  all_keys-counted ((j, n) ∷ a) k h = elim (Bool-cases (keys_eq j k)) [
    | inl hit ↦ inr (
        subst (λ x. p x ≡ true) (keys_eq-to_eq j k hit)
          (and_left (p j) (all (λ (e : List String × ℕ). p e.0) a) h))
    | inr miss ↦
        rw miss (all_keys-counted a k (and_right (p j) (all (λ (e : List String × ℕ). p e.0) a) h))
  ]

-- Counters are equal exactly if they count the same.
pub counters_eq_iff :
    (a b : Counter) → (counters_eq a b ≡ true) ↔ ((k : List String) → count_of k a ≡ count_of k b)
unfolding counters_eq
counters_eq_iff a b = (forward, backward)
  where
    same : List String → Bool
    same k = eqb (count_of k a) (count_of k b)

    forward : counters_eq a b ≡ true → (k : List String) → count_of k a ≡ count_of k b
    forward h k =
        elim (all_keys-counted same a k
          (and_left _ (all (λ (e : List String × ℕ). same e.0) b) h)) [
            | inr e ↦ eq_of_eqb _ _ e
            | inl zero_a ↦
                elim (all_keys-counted same b k
                  (and_right (all (λ (e : List String × ℕ). same e.0) a) _ h)) [
                    | inr e ↦ eq_of_eqb _ _ e
                    | inl zero_b ↦ zero_a ∙ sym zero_b
                  ]
          ]

    backward : ((k : List String) → count_of k a ≡ count_of k b) → counters_eq a b ≡ true
    backward h =
        let every : (k : List String) → same k ≡ true = λ k. (let e = h k in ground arith) in
        rw (all_keys-every same a every, all_keys-every same b every) refl
