-- ===== src/Mock/Routes.antt =====
-- app/mock_servers/services/runtime/mock_runtime_dispatcher.py: the route that answers a request.
pub mod Embeds
pub mod Answers
use qsmith.Prelude.{
  String, Bool, true, false, ◌&&◌, ◌||◌, Option, none, some, List, [], ◌∷◌, ◌==◌, if◌then◌else◌,
}
use qsmith.Prelude.Dict.{Dict, lookup, insert}
use qsmith.Prelude.Text.{
  strip, is_empty, lower, upper, rstrip_char, after_char, contains_text, ◌<>◌,
}
use qsmith.Json.{
  Json, null, str, arr, obj, Items, nil, cons, Fields, end, field, get, with_value, scalar_eq,
  json_eq,
}

-- `_normalize_path`, which mock_runtime_loader.py has as well
abbrev with_slash : String → String
with_slash raw = elim (after_char b'/' raw) [ none ↦ "/" <> raw | some _ ↦ raw ]

abbrev is_one : String → Bool
is_one String.[] = false
is_one (String.◌∷◌ c s) = is_empty s

unfoldable pub normalize_path : String → String
unfolding strip rstrip_char
normalize_path path =
    let raw = strip path in
    if is_empty raw
    then "/"
    else (let slashed = with_slash raw in
        if is_one slashed then slashed else rstrip_char b'/' slashed)

-- `{str(key).strip().lower(): value for key, value in headers.items()}`
abbrev add_lowercase : Dict String → Dict String → Dict String
add_lowercase d [] = d
add_lowercase d ((k, v) ∷ rest) = add_lowercase (insert (lower (strip k)) v d) rest

unfoldable pub to_lowercase_keys : Dict String → Dict String
to_lowercase_keys headers = add_lowercase [] headers

abbrev pub any_item : (Json → Bool) → Items → Bool
any_item p nil = false
any_item p (cons x xs) = p x || any_item p xs

abbrev pub text_in : String → Json → Bool
text_in s (str t) = contains_text t s
text_in s _ = false

-- `_contains`
unfoldable mutual
  pub contains : Json → Json → Bool
  contains (obj fs) (obj gs) = contains_fields fs gs
  contains (obj fs) _ = false
  contains (arr xs) (arr ys) = contains_items xs ys
  contains (arr xs) _ = false
  contains (str s) actual = text_in s actual
  contains expected actual = scalar_eq expected actual

  pub contains_items : Items → Items → Bool
  contains_items nil ys = true
  contains_items (cons x xs) ys = any_item (contains x) ys && contains_items xs ys

  pub contains_fields : Fields → Fields → Bool
  contains_fields end gs = true
  contains_fields (field k v fs) gs = with_value (contains v) (get k gs) && contains_fields fs gs

pub record MockApiRoute : Type 0 where
  pub id : String
  pub method : String
  pub path : String
  pub params : Fields
  pub headers : Fields
  pub body : Json
  pub body_match : String

-- A request as the dispatcher gets it. `body_json` is `null` where the body is no JSON.
pub record Request : Type 0 where
  pub method : String
  pub path : String
  pub query_params : Dict String
  pub headers : Dict String
  pub body_json : Json
  pub body_raw : String

abbrev pub is_null : Json → Bool
is_null null = true
is_null _ = false

abbrev pub is_any : Json → Bool
is_any (str s) = upper (strip s) == "ANY"
is_any _ = false

unfoldable pub body_matches : MockApiRoute → Json → String → Bool
body_matches route body_json body_raw =
    let actual = if is_null body_json then str body_raw else body_json in
    if is_null route.body || is_any route.body
    then true
    else if route.body_match == "equals"
    then json_eq route.body actual
    else contains route.body actual

-- `show` is `str` of an expected value; that of a text is the text.
module _ (show : Json → String) where
  abbrev pub value_matches : Json → Option String → Bool
  value_matches expected none = false
  value_matches expected (some actual) = actual == show expected

  unfoldable pub entries_match : Bool → Fields → Dict String → Bool
  entries_match normalize end source = true
  entries_match normalize (field k expected rest) source =
      value_matches expected (lookup (if normalize then lower (strip k) else k) source)
      && entries_match normalize rest source

  unfoldable pub map_matches : Bool → Fields → Dict String → Bool
  unfolding entries_match
  map_matches normalize expected actual =
      entries_match normalize expected (if normalize then to_lowercase_keys actual else actual)

  -- The tests of the loop in `_find_matching_api_route`.
  unfoldable pub route_matches : Request → MockApiRoute → Bool
  route_matches request route =
      (route.method == upper (strip request.method))
      && (route.path == normalize_path request.path)
      && map_matches false route.params request.query_params
      && map_matches true route.headers (to_lowercase_keys request.headers)
      && body_matches route request.body_json request.body_raw

  unfoldable pub find_matching_api_route : Request → List MockApiRoute → Option MockApiRoute
  find_matching_api_route request [] = none
  find_matching_api_route request (route ∷ routes) =
      if route_matches request route then some route else find_matching_api_route request routes
