-- ===== src/Mock/Routes/Embeds.antt =====
-- What a body has to hold: the meaning of `_contains` by the structure of the expected value.
use qsmith.Prelude.{
  String, ◌≡◌, refl, Bool, true, ◌⊎◌, inl, inr, Bool-cases, Option, none, some, subst, arith,
  and_left, and_right, ◌↔◌,
}
use qsmith.Prelude.Text.{contains_text}
use qsmith.Json.{
  Json, null, bool, num, str, arr, obj, Items, nil, cons, Fields, end, field, get, scalar_eq,
  with_value,
}
use qsmith.Mock.Routes.{contains, contains_items, contains_fields, any_item}

abbrev pub ItemOf : Json → Items → Type 0
ItemOf x nil = ⊥
ItemOf x (cons y ys) = (x ≡ y) ⊎ ItemOf x ys

-- An expected dict has its keys in the actual one, with values that are embedded; an expected list
-- has each of its items embedded in one of the actual items, in whatever order; an expected text is
-- a part of the actual one; and any other value is equal to the actual one.
mutual
  pub Embeds : Json → Json → Type 0
  Embeds (obj fs) actual = (gs : Fields) × (actual ≡ obj gs) × FieldsEmbed fs gs
  Embeds (arr xs) actual = (ys : Items) × (actual ≡ arr ys) × ItemsEmbed xs ys
  Embeds (str s) actual = (t : String) × (actual ≡ str t) × (contains_text t s ≡ true)
  Embeds expected actual = scalar_eq expected actual ≡ true

  pub ItemsEmbed : Items → Items → Type 0
  ItemsEmbed nil ys = Unit
  ItemsEmbed (cons x xs) ys = ((y : Json) × ItemOf y ys × Embeds x y) × ItemsEmbed xs ys

  pub FieldsEmbed : Fields → Fields → Type 0
  FieldsEmbed end gs = Unit
  FieldsEmbed (field k v fs) gs =
      ((w : Json) × (get k gs ≡ some w) × Embeds v w) × FieldsEmbed fs gs

any_item-found :
    (p : Json → Bool) (ys : Items) → any_item p ys ≡ true → (y : Json) × ItemOf y ys × (p y ≡ true)
any_item-found p nil h = cc
any_item-found p (cons y ys) h = elim (Bool-cases (p y)) [
  | inl hit ↦ (y, inl refl, hit)
  | inr miss ↦ let (z, i, hit) = any_item-found p ys (rw miss at h) in (z, inr i, hit)
]

any_item-ItemOf :
    (p : Json → Bool) (y : Json) (ys : Items) → ItemOf y ys → p y ≡ true → any_item p ys ≡ true
any_item-ItemOf p y nil i h = absurd i
any_item-ItemOf p y (cons z ys) (inl e) h = rw (subst (λ x. p x ≡ true) e h)
any_item-ItemOf p y (cons z ys) (inr i) h = rw (any_item-ItemOf p y ys i h) (ground arith)

with_value-found :
    (p : Json → Bool) (o : Option Json)
    → with_value p o ≡ true
    → (w : Json) × (o ≡ some w) × (p w ≡ true)
with_value-found p none h = cc
with_value-found p (some w) h = (w, refl, h)

mutual
  unfolding contains Embeds

  contains-Embeds : (v actual : Json) → contains v actual ≡ true → Embeds v actual
  contains-Embeds null actual h = h
  contains-Embeds (bool b) actual h = h
  contains-Embeds (num n) actual h = h
  contains-Embeds (str s) (str t) h = (t, refl, h)
  contains-Embeds (str s) null h = cc
  contains-Embeds (str s) (bool b) h = cc
  contains-Embeds (str s) (num n) h = cc
  contains-Embeds (str s) (arr ys) h = cc
  contains-Embeds (str s) (obj gs) h = cc
  contains-Embeds (arr xs) (arr ys) h = (ys, refl, contains_items-Embed xs ys h)
  contains-Embeds (arr xs) null h = cc
  contains-Embeds (arr xs) (bool b) h = cc
  contains-Embeds (arr xs) (num n) h = cc
  contains-Embeds (arr xs) (str t) h = cc
  contains-Embeds (arr xs) (obj gs) h = cc
  contains-Embeds (obj fs) (obj gs) h = (gs, refl, contains_fields-Embed fs gs h)
  contains-Embeds (obj fs) null h = cc
  contains-Embeds (obj fs) (bool b) h = cc
  contains-Embeds (obj fs) (num n) h = cc
  contains-Embeds (obj fs) (str t) h = cc
  contains-Embeds (obj fs) (arr ys) h = cc

  contains_items-Embed : (xs ys : Items) → contains_items xs ys ≡ true → ItemsEmbed xs ys
  contains_items-Embed nil ys h = tt
  contains_items-Embed (cons x xs) ys h =
      let (y, i, hit) = any_item-found (contains x) ys (and_left _ _ h) in
      ((y, i, contains-Embeds x y hit), contains_items-Embed xs ys (and_right _ _ h))

  contains_fields-Embed : (fs gs : Fields) → contains_fields fs gs ≡ true → FieldsEmbed fs gs
  contains_fields-Embed end gs h = tt
  contains_fields-Embed (field k v fs) gs h =
      let (w, found, hit) = with_value-found (contains v) (get k gs) (and_left _ _ h) in
      ((w, found, contains-Embeds v w hit), contains_fields-Embed fs gs (and_right _ _ h))

mutual
  unfolding contains Embeds

  Embeds-contains : (v actual : Json) → Embeds v actual → contains v actual ≡ true
  Embeds-contains null actual h = h
  Embeds-contains (bool b) actual h = h
  Embeds-contains (num n) actual h = h
  Embeds-contains (str s) actual (t, e, h) = rw e h
  Embeds-contains (arr xs) actual (ys, e, h) = rw e (Embed-contains_items xs ys h)
  Embeds-contains (obj fs) actual (gs, e, h) = rw e (Embed-contains_fields fs gs h)

  Embed-contains_items : (xs ys : Items) → ItemsEmbed xs ys → contains_items xs ys ≡ true
  Embed-contains_items nil ys h = refl
  Embed-contains_items (cons x xs) ys ((y, i, hit), hs) =
      rw (
        any_item-ItemOf (contains x) y ys i (Embeds-contains x y hit),
        Embed-contains_items xs ys hs,
      )

  Embed-contains_fields : (fs gs : Fields) → FieldsEmbed fs gs → contains_fields fs gs ≡ true
  Embed-contains_fields end gs h = refl
  Embed-contains_fields (field k v fs) gs ((w, found, hit), hs) =
      rw (found, Embeds-contains v w hit, Embed-contains_fields fs gs hs) refl

pub contains_iff : (v actual : Json) → (contains v actual ≡ true) ↔ Embeds v actual
contains_iff v actual = (contains-Embeds v actual, Embeds-contains v actual)
