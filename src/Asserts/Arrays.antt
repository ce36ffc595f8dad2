-- ===== src/Asserts/Arrays.antt =====
-- The asserts on JSON arrays compare how often the rows' keys occur, in no order.
use qsmith.Prelude.{
  ◌≤◌, String, ◌≡◌, refl, sym, ◌∙◌, ◌↔◌, Bool, true, false, Option, some, List, [], ◌∷◌, ok,
}
use qsmith.Json.{Json, Fields}
use qsmith.Asserts.{
  AssertContext, JsonPayload, Counter, row_key, build_multiset, normalize_rows, load_expected_rows,
  array_equals, array_contains, counters_eq, is_contained, require, keyed, compare_rows,
}
use qsmith.Asserts.Multisets.{occurrences, bump_all, count_of-counter, counters_eq_iff}
use qsmith.Asserts.Inclusion.{is_contained_iff}

require_iff : (b : Bool) (message : String) → (require b message ≡ ok tt) ↔ (b ≡ true)
require_iff true message = (λ h. refl, λ h. refl)
require_iff false message = (λ h. cc, λ h. cc)

module _ (serialize : Json → String) (database : String → Option JsonPayload) where
  -- The rows have these keys, one for each row.
  abbrev pub HasKeys : List String → List Fields → List (List String) → Type 0
  HasKeys keys [] [] = Unit
  HasKeys keys (row ∷ rows) (k ∷ ks) =
      (row_key serialize database keys row ≡ some k) × HasKeys keys rows ks
  HasKeys keys _ _ = ⊥

  build_multiset-bump_all :
      (keys : List String) (label : String) (rows : List Fields) (ks : List (List String))
      (c : Counter)
      → HasKeys keys rows ks
      → build_multiset serialize database rows keys label c ≡ ok (bump_all ks c)
  unfolding build_multiset
  build_multiset-bump_all keys label [] [] c h = refl
  build_multiset-bump_all keys label [] (k ∷ ks) c h = absurd h
  build_multiset-bump_all keys label (row ∷ rows) [] c h = absurd h
  build_multiset-bump_all keys label (row ∷ rows) (k ∷ ks) c (e, h) =
      rw e (build_multiset-bump_all keys label rows ks _ h)

  -- What both asserts read: the keys to compare, and the rows of both sides with their keys.
  pub record IsReadable (c : AssertContext) (ks ls : List (List String)) : Type 0 where
    pub first_key : String
    pub other_keys : List String
    pub actual : List Fields
    pub expected : List Fields
    pub compared : c.compare_keys ≡ first_key ∷ other_keys
    pub actual_rows : normalize_rows c.data_value "Actual data" ≡ ok actual
    pub expected_rows : load_expected_rows serialize database c ≡ ok expected
    pub actual_keys : HasKeys (first_key ∷ other_keys) actual ks
    pub expected_keys : HasKeys (first_key ∷ other_keys) expected ls

  compare_rows-readable :
      (test : Counter → Counter → Bool) (message : String) (c : AssertContext)
      (ks ls : List (List String))
      → IsReadable c ks ls
      → keyed c.compare_keys (
          compare_rows serialize database test message c.compare_keys
            (normalize_rows c.data_value "Actual data")
            (load_expected_rows serialize database c))
        ≡ require (test (bump_all ks []) (bump_all ls [])) message
  compare_rows-readable test message c ks ls r =
      rw (r.actual_rows, r.expected_rows)
        (rw r.compared (
          rw
            (build_multiset-bump_all (r.first_key ∷ r.other_keys) "Actual data" r.actual ks []
              r.actual_keys)
            (rw
              (build_multiset-bump_all (r.first_key ∷ r.other_keys) "Expected json-array payload"
                r.expected ls [] r.expected_keys)
              refl)))

  -- The assert of equality passes exactly if each key occurs as often in the data as in the stored
  -- array, in whatever order. The keys to compare are given, both sides are lists of objects, and
  -- every object has all of them.
  pub array_equals_iff :
      (c : AssertContext) (ks ls : List (List String))
      → IsReadable c ks ls
      → (array_equals serialize database c ≡ ok tt)
        ↔ ((k : List String) → occurrences k ks ≡ occurrences k ls)
  unfolding array_equals
  array_equals_iff c ks ls r =
      let message : String = "Assert failed: actual data is not equal to expected json-array." in
      let same = counters_eq_iff (bump_all ks []) (bump_all ls []) in
      rw (compare_rows-readable counters_eq message c ks ls r) (
        λ h k.
            sym (count_of-counter k ks)
            ∙ (same.0 ((require_iff _ message).0 h) k ∙ count_of-counter k ls),
        λ h.
            (require_iff _ message).1
              (same.1 (λ k. count_of-counter k ks ∙ (h k ∙ sym (count_of-counter k ls)))),
      )

  -- The assert of inclusion passes exactly if no key occurs more often in the data than in the
  -- stored array, under the same conditions.
  pub array_contains_iff :
      (c : AssertContext) (ks ls : List (List String))
      → IsReadable c ks ls
      → (array_contains serialize database c ≡ ok tt)
        ↔ ((k : List String) → occurrences k ks ≤ occurrences k ls)
  unfolding array_contains
  array_contains_iff c ks ls r =
      let message : String =
        "Assert failed: actual data is not contained in expected json-array." in
      let included = is_contained_iff ks ls in
      rw (compare_rows-readable is_contained message c ks ls r) (
        λ h. included.0 ((require_iff _ message).0 h),
        λ h. (require_iff _ message).1 (included.1 h),
      )
