-- ===== src/Asserts.antt =====
-- app/elaborations/services/asserts/json_data_assert_evaluators.py: what an assert compares.
pub mod Multisets
pub mod Inclusion
pub mod Arrays
use qsmith.Prelude.{
  ℕ, zero, suc, String, Bool, true, false, not, ◌&&◌, Option, none, some, List, [], ◌∷◌, ◌++◌,
  Outcome, ok, err, all, eqb, leb, is_some, keep, ◌==◌, if◌then◌else◌,
}
use qsmith.Prelude.Text.{strip, is_empty, ◌<>◌}
use qsmith.Json.{
  Json, null, bool, num, str, arr, obj, Items, nil, cons, Fields, end, field, get, json_eq,
}

-- What an evaluator reads of its context and of the assert's configuration.
pub record AssertContext : Type 0 where
  pub actual : Json
  pub expected : Json
  pub data_value : Json
  pub compare_keys : List String
  pub expected_json_array_id : Option String

-- A stored JSON value with its type.
pub record JsonPayload : Type 0 where
  pub json_type : String
  pub payload : Json

abbrev pub add_row : Fields → Outcome (List Fields) → Outcome (List Fields)
add_row fs (err message) = err message
add_row fs (ok rows) = ok (fs ∷ rows)

unfoldable pub normalize_items : String → Items → Outcome (List Fields)
normalize_items label nil = ok []
normalize_items label (cons (obj fs) xs) = add_row fs (normalize_items label xs)
normalize_items label (cons _ xs) = err (label <> " item must be a JSON object.")

unfoldable pub normalize_rows : Json → String → Outcome (List Fields)
unfolding normalize_items
normalize_rows (arr xs) label = normalize_items label xs
normalize_rows _ label = err (label <> " must be a JSON array.")

unfoldable pub normalize_json_object : Json → String → Outcome Fields
normalize_json_object (obj fs) label = ok fs
normalize_json_object _ label = err (label <> " must be a JSON object.")

unfoldable pub is_empty_json_value : Json → Bool
is_empty_json_value null = true
is_empty_json_value (str s) = is_empty s
is_empty_json_value (arr nil) = true
is_empty_json_value (obj end) = true
is_empty_json_value _ = false

abbrev pub require : Bool → String → Outcome (Unit {0})
require true message = ok tt
require false message = err message

unfoldable pub not_empty : AssertContext → Outcome (Unit {0})
unfolding is_empty_json_value
not_empty c =
    require (not (is_empty_json_value c.actual))
      "Assert failed: expected actual value to be not empty."

unfoldable pub empty : AssertContext → Outcome (Unit {0})
unfolding is_empty_json_value
empty c = require (is_empty_json_value c.actual) "Assert failed: expected actual value to be empty."

unfoldable pub equals : AssertContext → Outcome (Unit {0})
equals c =
    require (json_eq c.actual c.expected)
      "Assert failed: actual value is not equal to expected value."

abbrev pub has_all : List String → Fields → Bool
has_all keys fs = all (λ key. is_some (get key fs)) keys

abbrev pub same_value : Option Json → Option Json → Bool
same_value (some v) (some w) = json_eq v w
same_value none none = true
same_value _ _ = false

abbrev pub contains_fields : List String → Fields → Fields → Outcome (Unit {0})
contains_fields keys actual expected =
    if not (has_all keys expected)
    then err "Expected value is missing compare_keys."
    else if not (has_all keys actual)
    then err "Actual value is missing compare_keys."
    else require (all (λ key. same_value (get key actual) (get key expected)) keys)
        "Assert failed: actual value does not contain expected values."

abbrev pub contains_objects : List String → Outcome Fields → Outcome Fields → Outcome (Unit {0})
contains_objects keys (err message) expected = err message
contains_objects keys (ok actual) (err message) = err message
contains_objects keys (ok actual) (ok expected) = contains_fields keys actual expected

abbrev pub keyed : List String → Outcome (Unit {0}) → Outcome (Unit {0})
keyed [] rest = err "Assert failed: compare_keys is required."
keyed (key ∷ keys) rest = rest

unfoldable pub contains : AssertContext → Outcome (Unit {0})
unfolding normalize_json_object
contains c = keyed c.compare_keys (
    contains_objects c.compare_keys (normalize_json_object c.actual "Actual value")
      (normalize_json_object c.expected "Expected value"))

-- A `Counter`, by the texts of the compared values.
abbrev pub Counter : Type 0
Counter = List (List String × ℕ)

unfoldable pub keys_eq : List String → List String → Bool
keys_eq [] [] = true
keys_eq (s ∷ ss) (t ∷ ts) = (s == t) && keys_eq ss ts
keys_eq _ _ = false

-- `multiset[key] += 1`
unfoldable pub bump : List String → Counter → Counter
unfolding keys_eq
bump k [] = (k, 1) ∷ []
bump k ((j, n) ∷ c) = if keys_eq j k then (j, suc n) ∷ c else (j, n) ∷ bump k c

-- `multiset.get(key, 0)`
unfoldable pub count_of : List String → Counter → ℕ
unfolding keys_eq
count_of k [] = 0
count_of k ((j, n) ∷ c) = if keys_eq j k then n else count_of k c

-- The loop of `evaluate` in the evaluator of inclusion.
unfoldable pub is_contained : Counter → Counter → Bool
unfolding count_of
is_contained actual expected = all (λ (k, n). leb n (count_of k expected)) actual

-- `==` of two counters: every key of either has the same count in both.
unfoldable pub counters_eq : Counter → Counter → Bool
unfolding count_of
counters_eq a b =
    all (λ (k, n). eqb (count_of k a) (count_of k b)) a
    && all (λ (k, n). eqb (count_of k a) (count_of k b)) b

-- `serialize` is `json.dumps` with sorted keys, `database` the stored JSON values.
module _ (serialize : Json → String) (database : String → Option JsonPayload) where
  abbrev pub add_text : Option Json → Option (List String) → Option (List String)
  add_text (some v) (some texts) = some (serialize v ∷ texts)
  add_text _ _ = none

  -- the texts of a row's values, `none` where it lacks a key
  unfoldable pub row_key : List String → Fields → Option (List String)
  row_key [] row = some []
  row_key (key ∷ keys) row = add_text (get key row) (row_key keys row)

  abbrev pub counted :
      (Counter → Outcome Counter) → String → Option (List String) → Counter → Outcome Counter
  counted rest label none c = err (label <> " item is missing compare_keys.")
  counted rest label (some k) c = rest (bump k c)

  unfoldable pub build_multiset : List Fields → List String → String → Counter → Outcome Counter
  unfolding row_key bump
  build_multiset [] keys label c = ok c
  build_multiset (row ∷ rows) keys label c =
      counted (build_multiset rows keys label) label (row_key keys row) c

  abbrev pub rows_of_payload : Json → Outcome (List Fields)
  rows_of_payload (obj fs) = ok (fs ∷ [])
  rows_of_payload v = normalize_rows v "Expected json-array payload"

  abbrev pub rows_of_stored : String → Option JsonPayload → Outcome (List Fields)
  rows_of_stored id none = err ("Expected json-array '" <> (id <> "' not found."))
  rows_of_stored id (some entity) =
      if strip entity.json_type == "json-array"
      then rows_of_payload entity.payload
      else err ("Datasource '" <> (id <> "' is not of type 'json-array'."))

  abbrev pub text_or_empty : Option String → String
  text_or_empty none = ""
  text_or_empty (some s) = s

  unfoldable pub load_expected_rows : AssertContext → Outcome (List Fields)
  unfolding strip normalize_rows
  load_expected_rows c =
      let id = strip (text_or_empty c.expected_json_array_id) in
      if is_empty id
      then err "expected_json_array_id is required."
      else rows_of_stored id (database id)

  abbrev pub compare_counters :
      (Counter → Counter → Bool) → String → Outcome Counter → Outcome Counter → Outcome (Unit {0})
  compare_counters test message (err e) expected = err e
  compare_counters test message (ok actual) (err e) = err e
  compare_counters test message (ok actual) (ok expected) = require (test actual expected) message

  abbrev pub compare_rows :
      (Counter → Counter → Bool)
      → String
      → List String
      → Outcome (List Fields)
      → Outcome (List Fields)
      → Outcome (Unit {0})
  compare_rows test message keys (err e) expected = err e
  compare_rows test message keys (ok actual) (err e) = err e
  compare_rows test message keys (ok actual) (ok expected) =
      compare_counters test message (build_multiset actual keys "Actual data" [])
        (build_multiset expected keys "Expected json-array payload" [])

  unfoldable pub array_contains : AssertContext → Outcome (Unit {0})
  unfolding normalize_rows load_expected_rows build_multiset is_contained
  array_contains c = keyed c.compare_keys (
      compare_rows is_contained
        "Assert failed: actual data is not contained in expected json-array." c.compare_keys
        (normalize_rows c.data_value "Actual data") (load_expected_rows c))

  unfoldable pub array_equals : AssertContext → Outcome (Unit {0})
  unfolding normalize_rows load_expected_rows build_multiset counters_eq
  array_equals c = keyed c.compare_keys (
      compare_rows counters_eq "Assert failed: actual data is not equal to expected json-array."
        c.compare_keys (normalize_rows c.data_value "Actual data") (load_expected_rows c))
