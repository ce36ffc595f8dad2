-- ===== src/Perimeter/Reading.antt =====
-- How the perimeter's JSON is read.
use qsmith.Prelude.{
  String, Bool, true, false, not, Option, none, some, List, [], ◌∷◌, Outcome, ok, err, and_then,
  if◌then◌else◌,
}
use qsmith.Prelude.Int.{pos, eqb_ℤ}
use qsmith.Prelude.Text.{is_empty}
use qsmith.Json.{Json, null, bool, num, str, arr, obj, Items, nil, cons, end, field, get}

abbrev pub demand : Bool → String → Outcome (Unit {0})
demand true message = ok tt
demand false message = err message

-- A comprehension whose step may raise.
unfoldable pub each : {A B : Type 0} → (A → Outcome B) → List A → Outcome (List B)
each f [] = ok []
each f (x ∷ xs) = and_then (f x) λ y. and_then (each f xs) λ ys. ok (y ∷ ys)

abbrev pub items_of : Items → List Json
items_of nil = []
items_of (cons v vs) = v ∷ items_of vs

-- `v.get(key)`, where `v` is a dict
abbrev pub member : String → Json → Option Json
member key (obj fs) = get key fs
member key _ = none

abbrev pub is_dict : Json → Bool
is_dict (obj fs) = true
is_dict _ = false

abbrev pub is_text : Json → Bool
is_text (str s) = true
is_text _ = false

abbrev pub is_full_list : Json → Bool
is_full_list (arr (cons v vs)) = true
is_full_list _ = false

abbrev pub has_items {ℓ} : {A : Type ℓ} → List A → Bool
has_items [] = false
has_items (x ∷ xs) = true

abbrev pub is_truthy : Json → Bool
is_truthy null = false
is_truthy (bool b) = b
is_truthy (num n) = not (eqb_ℤ n (pos 0))
is_truthy (str s) = not (is_empty s)
is_truthy (arr nil) = false
is_truthy (arr (cons v vs)) = true
is_truthy (obj end) = false
is_truthy (obj (field k v fs)) = true

abbrev pub is_json_null : Json → Bool
is_json_null null = true
is_json_null _ = false

-- The list that a key holds: none where the key is missing or holds null, an error for anything
-- but a list.
abbrev pub raw_list : String → Option Json → Outcome (Option (List Json))
raw_list message none = ok none
raw_list message (some null) = ok none
raw_list message (some (arr vs)) = ok (some (items_of vs))
raw_list message (some _) = err message

-- `raw.get(key) or []`, an error for anything but a list.
abbrev pub raw_list_or_empty : String → Option Json → Outcome (List Json)
raw_list_or_empty message none = ok []
raw_list_or_empty message (some (arr vs)) = ok (items_of vs)
raw_list_or_empty message (some v) = if is_truthy v then err message else ok []

-- `show` is `str` of a value that is no text.
module _ (show : Json → String) where
  abbrev pub json_text : Json → String
  json_text (str s) = s
  json_text v = show v

  -- `str(value or otherwise)`
  abbrev pub json_text_or : String → Option Json → String
  json_text_or otherwise none = otherwise
  json_text_or otherwise (some v) = if is_truthy v then json_text v else otherwise
