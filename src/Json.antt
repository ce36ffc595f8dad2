-- ===== src/Json.antt =====
-- JSON values as trees: what a configuration or a request's body holds. Floating-point numbers are
-- left out.
use qsmith.Prelude.{
  ℕ, suc, String, Bool, true, false, ◌&&◌, Option, none, some, eqb, ◌==◌, if◌then◌else◌,
}
use qsmith.Prelude.Int.{ℤ, pos, eqb_ℤ}

mutual
  pub data Json : Type 0 where
    null : Json
    bool : Bool → Json
    num : ℤ → Json
    str : String → Json
    arr : Items → Json
    obj : Fields → Json

  pub data Items : Type 0 where
    nil : Items
    cons : Json → Items → Items

  pub data Fields : Type 0 where
    end : Fields
    field : String → Json → Fields → Fields

unfoldable pub get : String → Fields → Option Json
get k end = none
get k (field j v fs) = if j == k then some v else get k fs

abbrev pub size : Fields → ℕ
size end = 0
size (field _ _ fs) = suc (size fs)

-- A Boolean is the integer 0 or 1 to `==`.
abbrev as_int : Json → Option ℤ
as_int (bool true) = some (pos 1)
as_int (bool false) = some (pos 0)
as_int (num n) = some n
as_int _ = none

abbrev same_int : Option ℤ → Option ℤ → Bool
same_int (some m) (some n) = eqb_ℤ m n
same_int _ _ = false

-- `a == b` where `a` is no list and no dict
unfoldable pub scalar_eq : Json → Json → Bool
scalar_eq null null = true
scalar_eq (str s) (str t) = s == t
scalar_eq a b = same_int (as_int a) (as_int b)

abbrev pub with_value : (Json → Bool) → Option Json → Bool
with_value p none = false
with_value p (some v) = p v

-- Python's `==`: the order of a dict's entries does not matter.
unfoldable mutual
  pub json_eq : Json → Json → Bool
  json_eq (arr xs) (arr ys) = items_eq xs ys
  json_eq (obj fs) (obj gs) = eqb (size fs) (size gs) && fields_eq fs gs
  json_eq (arr xs) _ = false
  json_eq (obj fs) _ = false
  json_eq a b = scalar_eq a b

  pub items_eq : Items → Items → Bool
  items_eq nil nil = true
  items_eq (cons x xs) (cons y ys) = json_eq x y && items_eq xs ys
  items_eq _ _ = false

  pub fields_eq : Fields → Fields → Bool
  fields_eq end gs = true
  fields_eq (field k v fs) gs = with_value (json_eq v) (get k gs) && fields_eq fs gs
