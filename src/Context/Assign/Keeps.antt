-- ===== src/Context/Assign/Keeps.antt =====
-- What a walk of `_assign_nested_value` leaves of the objects that were there.
use qsmith.Prelude.{
  ℕ, zero, suc, ◌-◌, ◌≡◌, refl, String, Option, none, some, List, [], ◌∷◌, ◌++◌, length, get_elem?,
  Exec,
}
use qsmith.Prelude.Dict.{Dict, lookup}
use qsmith.Memory.{Value, null, list, Heap, empty_dict, fresh, alloc, dict_at, list_at, put_key}
use qsmith.Memory.Kinds.{
  is_list, kind_at, Extends, Extends-refl, Extends-trans, Extends-alloc, Extends-set,
  Extends-put_key, kind_of_list_at,
}
use qsmith.Context.Path.{to_index}
use qsmith.Context.Assign.{
  ensure_list_size, into_slot, set_item, assign, assign_index, assign_key, assign_step,
}

ensure-Extends :
    (rounds a : ℕ) (items : List Value) (h : Heap)
    → kind_at h a ≡ some is_list
    → Extends h (ensure_list_size rounds a items h).1
unfolding ensure_list_size
ensure-Extends zero a items h e = Extends-refl h
ensure-Extends (suc rounds) a items h e =
    let grown = Extends-alloc empty_dict h in
    let items' = items ++ (fresh h ∷ []) in
    let stored = Extends-set (alloc empty_dict h) a (list items') (grown.keeps a is_list e) in
    let step = Extends-trans grown stored in
    Extends-trans step (ensure-Extends rounds a items' _ (step.keeps a is_list e))

into_slot-Extends :
    (slot : Option Value) (rest : List String) (fill : Value → Heap → Heap) (h : Heap)
    → ((v : Value) (h' : Heap) → Extends h h' → Extends h' (fill v h'))
    → Extends h (into_slot slot rest fill h).1
into_slot-Extends none rest fill h keeps =
    Extends-trans (Extends-alloc _ h) (keeps _ _ (Extends-alloc _ h))
into_slot-Extends (some null) rest fill h keeps =
    Extends-trans (Extends-alloc _ h) (keeps _ _ (Extends-alloc _ h))
into_slot-Extends (some _) rest fill h keeps = Extends-refl h

set_item-Extends :
    (a : ℕ) (items : List Value) (i : ℕ) (v : Value) (h : Heap)
    → kind_at h a ≡ some is_list
    → Extends h (set_item a items i v h)
set_item-Extends a items i v h e = Extends-set h a _ e

module _ (descend : Value → Exec Heap (Unit {0})) where
  abbrev Keeping : Type 0
  Keeping = (cur : Value) (h : Heap) → Extends h (descend cur h).1

  assign_index-Extends :
      (i : ℕ) (rest : List String) (o : Option (ℕ × List Value)) (v : Value) (h : Heap)
      → Keeping
      → ((a : ℕ) (xs : List Value) → o ≡ some (a, xs) → kind_at h a ≡ some is_list)
      → Extends h (assign_index i rest descend o v h).1
  assign_index-Extends i rest none v h keeps at = Extends-refl h
  assign_index-Extends i [] (some (a, items)) v h keeps at =
      let e = at a items refl in
      let grown = ensure-Extends (suc i - length items) a items h e in
      Extends-trans grown (set_item-Extends a _ i v _ (grown.keeps a is_list e))
  assign_index-Extends i (next ∷ rest) (some (a, items)) v h keeps at =
      let e = at a items refl in
      let grown = ensure-Extends (suc i - length items) a items h e in
      let slot =
        into_slot-Extends (get_elem? (ensure_list_size (suc i - length items) a items h).0 i)
          (next ∷ rest) (set_item a (ensure_list_size (suc i - length items) a items h).0 i) _
          (λ w h' more.
            set_item-Extends a _ i w h' (more.keeps a is_list (grown.keeps a is_list e))) in
      Extends-trans grown (Extends-trans slot (keeps _ _))

  assign_key-Extends :
      (k : String) (rest : List String) (cur : Value) (o : Option (ℕ × Dict Value)) (v : Value)
      (h : Heap)
      → Keeping
      → Extends h (assign_key k rest descend cur o v h).1
  assign_key-Extends k rest cur none v h keeps = Extends-refl h
  assign_key-Extends k [] cur (some (a, d)) v h keeps = Extends-put_key cur k v h
  assign_key-Extends k (next ∷ rest) cur (some (a, d)) v h keeps =
      Extends-trans
        (into_slot-Extends (lookup k d) (next ∷ rest) (put_key cur k) h
          (λ w h' _. Extends-put_key cur k w h'))
        (keeps _ _)

  assign_step-Extends :
      (o : Option ℕ) (token : String) (rest : List String) (cur v : Value) (h : Heap)
      → Keeping
      → Extends h (assign_step o token rest descend cur v h).1
  assign_step-Extends (some i) token rest cur v h keeps =
      assign_index-Extends i rest (list_at h cur) v h keeps (λ a xs e. kind_of_list_at h cur e)
  assign_step-Extends none token rest cur v h keeps =
      assign_key-Extends token rest cur (dict_at h cur) v h keeps

-- Whether the write succeeds or raises half way, no object is lost, a dict stays a dict and a list
-- a list.
pub assign-Extends :
    (tokens : List String) (v cur : Value) (h : Heap) → Extends h (assign tokens v cur h).1
unfolding assign
assign-Extends [] v cur h = Extends-refl h
assign-Extends (token ∷ rest) v cur h =
    assign_step-Extends (λ c. assign rest v c) (to_index token) token rest cur v h
      (λ c h'. assign-Extends rest v c h')
