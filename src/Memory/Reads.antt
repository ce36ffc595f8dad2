-- ===== src/Memory/Reads.antt =====
-- What is read of an object after others were made or changed.
use qsmith.Prelude.{
  ℕ, String, ◌≡◌, refl, false, some, Option-cases, inl, inr, [], ◌∷◌, get_elem?, get_elem?-set,
  arith, lt_of_get_elem?, eqb, get_elem?-append_left, get_elem?-append_length,
}
use qsmith.Prelude.Dict.{Dict, lookup}
use qsmith.Memory.{
  Value, null, ref, Object, dict, list, Heap, alloc, fresh, get_key, dict_at, put_key,
}

pub dict_at-alloc :
    (o : Object) (h : Heap) (v : Value) {a : ℕ} {d : Dict Value}
    → dict_at h v ≡ some (a, d)
    → dict_at (alloc o h) v ≡ some (a, d)
unfolding dict_at
dict_at-alloc o h (ref b) e = elim (Option-cases (get_elem? h b)) [
  | inl gone ↦ absurd (ground arith)
  | inr (x, there) ↦ rw (get_elem?-append_left h (o ∷ []) b (lt_of_get_elem? h b there)) e
]
dict_at-alloc o h null e = absurd (ground arith)
dict_at-alloc o h _ e = absurd (ground arith)

pub get_key-alloc :
    (o : Object) (h : Heap) (v : Value) (k : String) {w : Value}
    → get_key h v k ≡ some w
    → get_key (alloc o h) v k ≡ some w
unfolding get_key
get_key-alloc o h v k e = elim (Option-cases (dict_at h v)) [
  | inl gone ↦ absurd (ground arith)
  | inr ((a, d), there) ↦ rw (dict_at-alloc o h v there) (rw there at e)
]

pub get_key-fresh :
    (d : Dict Value) (h : Heap) (k : String) → get_key (alloc (dict d) h) (fresh h) k ≡ lookup k d
unfolding get_key dict_at
get_key-fresh d h k = rw (get_elem?-append_length h (dict d)) refl

pub get_key-put_key_other :
    (a b : ℕ) (k j : String) (v : Value) (h : Heap)
    → eqb a b ≡ false
    → get_key (put_key (ref a) k v h) (ref b) j ≡ get_key h (ref b) j
unfolding get_key put_key dict_at
get_key-put_key_other a b k j v h ne = elim (Option-cases (get_elem? h a)) [
  | inl gone ↦ rw gone refl
  | inr (dict d, there) ↦
      rw there (rw (get_elem?-set h a b _ (lt_of_get_elem? h a there)) (rw ne refl))
  | inr (list xs, there) ↦ rw there refl
]
