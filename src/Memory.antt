-- ===== src/Memory.antt =====
-- The Python objects that a run context is made of: dicts and lists on a heap, so that two places
-- may hold one object. Used by app/elaborations/services/suite_runs/run_context.py.
pub mod Kinds
pub mod Reads
use qsmith.Prelude.{
  ℕ, ◌≡◌, refl, Bool, String, Option, none, some, List, [], ◌∷◌, ◌++◌, length, get_elem?, set,
}
use qsmith.Prelude.Dict.{Dict, lookup, insert}
use qsmith.Prelude.Int.{ℤ}

-- A JSON value as Python holds it: a scalar, or a reference to a dict or a list.
pub data Value : Type 0 where
  null : Value
  bool : Bool → Value
  num : ℤ → Value
  str : String → Value
  ref : ℕ → Value

pub data Object : Type 0 where
  dict : Dict Value → Object
  list : List Value → Object

-- Objects by address. Nothing is ever freed.
abbrev pub Heap : Type 0
Heap = List Object

abbrev pub empty_dict : Object
empty_dict = dict []

abbrev pub empty_list : Object
empty_list = list []

abbrev as_dict : ℕ → Option Object → Option (ℕ × Dict Value)
as_dict a none = none
as_dict a (some (dict d)) = some (a, d)
as_dict a (some (list xs)) = none

abbrev as_list : ℕ → Option Object → Option (ℕ × List Value)
as_list a none = none
as_list a (some (dict d)) = none
as_list a (some (list xs)) = some (a, xs)

-- `isinstance(value, dict)`, with the object's address and what it holds
unfoldable pub dict_at : Heap → Value → Option (ℕ × Dict Value)
dict_at h (ref a) = as_dict a (get_elem? h a)
dict_at h _ = none

-- `isinstance(value, list)`
unfoldable pub list_at : Heap → Value → Option (ℕ × List Value)
list_at h (ref a) = as_list a (get_elem? h a)
list_at h _ = none

-- the value that the next allocation has
abbrev pub fresh : Heap → Value
fresh h = ref (length h)

abbrev pub alloc : Object → Heap → Heap
alloc o h = h ++ (o ∷ [])

abbrev pub key_of : String → Option (ℕ × Dict Value) → Option Value
key_of k none = none
key_of k (some (a, d)) = lookup k d

-- `obj.get(k)`, `none` where the object is no dict or lacks the key
unfoldable pub get_key : Heap → Value → String → Option Value
get_key h v k = key_of k (dict_at h v)

abbrev pub put_dict : String → Value → Heap → Option (ℕ × Dict Value) → Heap
put_dict k v h none = h
put_dict k v h (some (a, d)) = set h a (dict (insert k v d))

-- `obj[k] = v` for an object that is a dict
unfoldable pub put_key : Value → String → Value → Heap → Heap
put_key o k v h = put_dict k v h (dict_at h o)
