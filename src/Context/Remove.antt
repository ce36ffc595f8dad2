-- ===== src/Context/Remove.antt =====
-- `_remove_nested_value`: the walk to the object that a path names, and the removal there. A path
-- that leads nowhere changes nothing.
use qsmith.Prelude.{ℕ, String, Option, none, some, List, [], ◌∷◌, get_elem?, set, remove_nth}
use qsmith.Prelude.Dict.{Dict, lookup, erase}
use qsmith.Memory.{Value, dict, list, Heap, dict_at, list_at}
use qsmith.Context.Path.{to_index}

abbrev pub below : (Value → Heap → Heap) → Option Value → Heap → Heap
below descend none h = h
below descend (some v) h = descend v h

abbrev pub remove_index :
    ℕ → List String → (Value → Heap → Heap) → Option (ℕ × List Value) → Heap → Heap
remove_index i rest descend none h = h
remove_index i [] descend (some (a, items)) h = set h a (list (remove_nth items i))
remove_index i (next ∷ rest) descend (some (a, items)) h = below descend (get_elem? items i) h

abbrev pub remove_key :
    String → List String → (Value → Heap → Heap) → Option (ℕ × Dict Value) → Heap → Heap
remove_key k rest descend none h = h
remove_key k [] descend (some (a, d)) h = set h a (dict (erase k d))
remove_key k (next ∷ rest) descend (some (a, d)) h = below descend (lookup k d) h

abbrev pub remove_step :
    Option ℕ → String → List String → (Value → Heap → Heap) → Value → Heap → Heap
remove_step (some i) k rest descend cur h = remove_index i rest descend (list_at h cur) h
remove_step none k rest descend cur h = remove_key k rest descend (dict_at h cur) h

-- A write out of bounds changes nothing, and neither does `erase` of a missing key.
unfoldable pub remove : List String → Value → Heap → Heap
remove [] cur h = h
remove (token ∷ rest) cur h = remove_step (to_index token) token rest (remove rest) cur h
