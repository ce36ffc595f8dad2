-- ===== src/Examples/Arrays.antt =====
-- The asserts on JSON arrays, at two rows in two orders.
use qsmith.Prelude.{◌≤◌, ◌≡◌, refl, ◌↔◌, String, Option, some, List, [], ◌∷◌, ok}
use qsmith.Prelude.Text.{is_space}
use qsmith.Json.{Json, nil, cons, Fields, end, field, get}
use qsmith.Asserts.{
  AssertContext, JsonPayload, row_key, normalize_rows, load_expected_rows, array_equals,
  array_contains, keys_eq, bump, count_of, counters_eq, build_multiset,
}
use qsmith.Asserts.Multisets.{occurrences}
use qsmith.Asserts.Arrays.{IsReadable, array_equals_iff, array_contains_iff}

abbrev serialize : Json → String
serialize (Json.str s) = s
serialize _ = ""

abbrev row : String → Fields
row id = field "id" (Json.str id) end

abbrev rows : String → String → Json
rows one two = Json.arr (cons (Json.obj (row one)) (cons (Json.obj (row two)) nil))

abbrev database : String → Option JsonPayload
database id = some (record { json_type = "json-array"; payload = rows "b" "a" })

abbrev comparison : AssertContext
comparison = record {
  actual = Json.null;
  expected = Json.null;
  data_value = rows "a" "b";
  compare_keys = "id" ∷ [];
  expected_json_array_id = some "j1";
}

abbrev data_keys : List (List String)
data_keys = ("a" ∷ []) ∷ ("b" ∷ []) ∷ []

abbrev stored_keys : List (List String)
stored_keys = ("b" ∷ []) ∷ ("a" ∷ []) ∷ []

comparison-IsReadable : IsReadable serialize database comparison data_keys stored_keys
unfolding normalize_rows load_expected_rows row_key is_space get
comparison-IsReadable = record {
  first_key = "id";
  other_keys = [];
  actual = row "a" ∷ row "b" ∷ [];
  expected = row "b" ∷ row "a" ∷ [];
  compared = refl;
  actual_rows = refl;
  expected_rows = refl;
  actual_keys = (refl, (refl, tt));
  expected_keys = (refl, (refl, tt));
}

equals_run : array_equals serialize database comparison ≡ ok tt
unfolding array_equals normalize_rows load_expected_rows row_key is_space get keys_eq bump count_of
    counters_eq build_multiset
equals_run = refl

array_equals_iff_example :
    (array_equals serialize database comparison ≡ ok tt)
    ↔ ((k : List String) → occurrences k data_keys ≡ occurrences k stored_keys)
array_equals_iff_example =
    array_equals_iff serialize database comparison data_keys stored_keys comparison-IsReadable

array_contains_iff_example :
    (array_contains serialize database comparison ≡ ok tt)
    ↔ ((k : List String) → occurrences k data_keys ≤ occurrences k stored_keys)
array_contains_iff_example =
    array_contains_iff serialize database comparison data_keys stored_keys comparison-IsReadable
