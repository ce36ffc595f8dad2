-- ===== src/Memory/Kinds.antt =====
-- A dict stays a dict, a list stays a list, and no address is lost.
use qsmith.Prelude.{
  ℕ, zero, suc, ◌≡◌, String, Option, none, some, List, [], ◌∷◌, get_elem?, set, get_elem?-set,
  get_elem?-append_length, length, lt_of_get_elem?, arith, Option-cases, inl, inr,
}
use qsmith.Prelude.Dict.{Dict}
use qsmith.Memory.{Value, null, ref, dict_at, list_at, Object, dict, list, Heap, alloc, put_key}

pub data Kind : Type 0 where
  is_dict is_list : Kind

abbrev pub kind : Object → Kind
kind (dict _) = is_dict
kind (list _) = is_list

abbrev kind_of : Option Object → Option Kind
kind_of none = none
kind_of (some o) = some (kind o)

abbrev pub kind_at : Heap → ℕ → Option Kind
kind_at h a = kind_of (get_elem? h a)

-- what was allocated is there, and of the same kind
pub record Extends (h h' : Heap) : Type 0 where
  pub keeps : (a : ℕ) (k : Kind) → kind_at h a ≡ some k → kind_at h' a ≡ some k

pub Extends-refl : (h : Heap) → Extends h h
Extends-refl h = record { keeps = λ a k e. e }

pub Extends-trans : {h h' h'' : Heap} → Extends h h' → Extends h' h'' → Extends h h''
Extends-trans p q = record { keeps = λ a k e. q.keeps a k (p.keeps a k e) }

pub kind_at-alloc :
    (o : Object) (h : Heap) (a : ℕ) (k : Kind)
    → kind_at h a ≡ some k
    → kind_at (alloc o h) a ≡ some k
kind_at-alloc o [] a k e = ground arith
kind_at-alloc o (x ∷ h) zero k e = e
kind_at-alloc o (x ∷ h) (suc a) k e = kind_at-alloc o h a k e

pub Extends-alloc : (o : Object) (h : Heap) → Extends h (alloc o h)
Extends-alloc o h = record { keeps = kind_at-alloc o h }

pub Extends-set :
    (h : Heap) (a : ℕ) (o : Object) → kind_at h a ≡ some (kind o) → Extends h (set h a o)
Extends-set h a o e = elim (Option-cases (get_elem? h a)) [
  | inl gone ↦ absurd (ground arith)
  | inr (o', there) ↦ record {
    keeps = λ b m p. ground (arith, get_elem?-set h a b o, lt_of_get_elem? h a there);
  }
]

pub kind_of_dict_at :
    (h : Heap) (v : Value) {a : ℕ} {d : Dict Value}
    → dict_at h v ≡ some (a, d)
    → kind_at h a ≡ some is_dict
unfolding dict_at
kind_of_dict_at h (ref a) e = elim (Option-cases (get_elem? h a)) [
  | inl gone ↦ absurd (ground arith)
  | inr (dict d, there) ↦ ground arith
  | inr (list xs, there) ↦ absurd (ground arith)
]
kind_of_dict_at h null e = ground arith
kind_of_dict_at h _ e = ground arith

pub kind_of_list_at :
    (h : Heap) (v : Value) {a : ℕ} {xs : List Value}
    → list_at h v ≡ some (a, xs)
    → kind_at h a ≡ some is_list
unfolding list_at
kind_of_list_at h (ref a) e = elim (Option-cases (get_elem? h a)) [
  | inl gone ↦ absurd (ground arith)
  | inr (dict d, there) ↦ absurd (ground arith)
  | inr (list xs, there) ↦ ground arith
]
kind_of_list_at h null e = ground arith
kind_of_list_at h _ e = ground arith

pub Extends-put_key : (o : Value) (k : String) (v : Value) (h : Heap) → Extends h (put_key o k v h)
unfolding put_key dict_at
Extends-put_key (ref a) k v h = elim (Option-cases (get_elem? h a)) [
  | inl e ↦ rw e (Extends-refl h)
  | inr (dict d, e) ↦ rw e (Extends-set h a _ (rw e))
  | inr (list xs, e) ↦ rw e (Extends-refl h)
]
Extends-put_key null k v h = Extends-refl h
Extends-put_key _ k v h = Extends-refl h

-- What is allocated is found at the address that it was given.
pub kind_at-push : (o : Object) (h : Heap) → kind_at (alloc o h) (length h) ≡ some (kind o)
kind_at-push o h = rw (get_elem?-append_length h o)
