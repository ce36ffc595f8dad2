-- ===== src/Context/Assign.antt =====
-- `_assign_nested_value`: the walk to the object that a path names, and the write there.
pub mod Keeps
use qsmith.Prelude.{
  ℕ, zero, suc, ◌-◌, String, Option, none, some, List, [], ◌∷◌, ◌++◌, Outcome, ok, err, Exec, raise,
  length, get_elem?, set,
}
use qsmith.Prelude.Dict.{Dict, lookup}
use qsmith.Memory.{
  Value, null, bool, num, str, ref, Object, list, Heap, empty_dict, empty_list, fresh, alloc,
  dict_at, list_at, put_key,
}
use qsmith.Context.Path.{to_index}

-- `while len(items) <= idx: items.append({})`, for the rounds that it takes
unfoldable pub ensure_list_size : ℕ → ℕ → List Value → Heap → List Value × Heap
ensure_list_size zero a items h = (items, h)
ensure_list_size (suc rounds) a items h =
    let items' = items ++ (fresh h ∷ []) in
    ensure_list_size rounds a items' (set (alloc empty_dict h) a (list items'))

-- `[] if next_is_index else {}`
unfoldable pub container_for : List String → Object
unfolding to_index
container_for [] = empty_dict
container_for (next ∷ _) = elim (to_index next) [ some _ ↦ empty_list | none ↦ empty_dict ]

-- The slot that a step goes down into, and the heap once a missing container is made.
abbrev pub into_slot : Option Value → List String → (Value → Heap → Heap) → Heap → Value × Heap
into_slot none rest fill h = (fresh h, fill (fresh h) (alloc (container_for rest) h))
into_slot (some null) rest fill h = (fresh h, fill (fresh h) (alloc (container_for rest) h))
into_slot (some slot) rest fill h = (slot, h)

abbrev pub set_item : ℕ → List Value → ℕ → Value → Heap → Heap
set_item a items i v h = set h a (list (set items i v))

-- `descend` is the rest of the walk.
abbrev pub assign_index :
    ℕ
    → List String
    → (Value → Exec Heap (Unit {0}))
    → Option (ℕ × List Value)
    → Value
    → Exec Heap (Unit {0})
assign_index i rest descend none v h = (err "Target path expects a list segment.", h)
assign_index i [] descend (some (a, items)) v h =
    let (items', h') = ensure_list_size (suc i - length items) a items h in
    (ok tt, set_item a items' i v h')
assign_index i (next ∷ rest) descend (some (a, items)) v h =
    let (items', h') = ensure_list_size (suc i - length items) a items h in
    let (slot, h'') = into_slot (get_elem? items' i) (next ∷ rest) (set_item a items' i) h' in
    descend slot h''

abbrev pub assign_key :
    String
    → List String
    → (Value → Exec Heap (Unit {0}))
    → Value
    → Option (ℕ × Dict Value)
    → Value
    → Exec Heap (Unit {0})
assign_key k rest descend cur none v h = (err "Target path expects an object segment.", h)
assign_key k [] descend cur (some _) v h = (ok tt, put_key cur k v h)
assign_key k (next ∷ rest) descend cur (some (_, d)) v h =
    let (slot, h') = into_slot (lookup k d) (next ∷ rest) (put_key cur k) h in descend slot h'

abbrev pub assign_step :
    Option ℕ
    → String
    → List String
    → (Value → Exec Heap (Unit {0}))
    → Value
    → Value
    → Exec Heap (Unit {0})
assign_step (some i) k rest descend cur v h = assign_index i rest descend (list_at h cur) v h
assign_step none k rest descend cur v h = assign_key k rest descend cur (dict_at h cur) v h

unfoldable pub assign : List String → Value → Value → Exec Heap (Unit {0})
assign [] v cur = raise "Target path must include at least one segment."
assign (token ∷ rest) v cur = assign_step (to_index token) token rest (assign rest v) cur v
