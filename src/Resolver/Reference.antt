-- ===== src/Resolver/Reference.antt =====
-- `_resolve_ref`: the walk along a path, from the scope.
use qsmith.Prelude.{
  ℕ, String, Option, none, some, List, [], ◌∷◌, Outcome, ok, err, get_elem?, ◌==◌, if◌then◌else◌,
}
use qsmith.Prelude.Text.{strip, is_empty, after_char}
use qsmith.Memory.{Value, Heap, list_at, get_key}
use qsmith.Resolver.Path.{Token, key, index, split_path, segment_tokens}

abbrev item_at : ℕ → Option (ℕ × List Value) → Option Value
item_at i none = none
item_at i (some (_, xs)) = get_elem? xs i

-- One token: `none` is `_MISSING`.
unfoldable pub step_token : Heap → Token → Value → Option Value
step_token h (index i) v = item_at i (list_at h v)
step_token h (key k) v = get_key h v k

abbrev pub onward : (Value → Option Value) → Option Value → Option Value
onward walk none = none
onward walk (some v) = walk v

unfoldable pub walk_tokens : Heap → List Token → Value → Option Value
unfolding step_token
walk_tokens h [] v = some v
walk_tokens h (t ∷ ts) v = onward (walk_tokens h ts) (step_token h t v)

abbrev next_segment : (Value → Outcome (Option Value)) → Option Value → Outcome (Option Value)
next_segment walk none = ok none
next_segment walk (some v) = walk v

abbrev walk_segment :
    Heap
    → (Value → Outcome (Option Value))
    → Value
    → Option (Outcome (List Token))
    → Outcome (Option Value)
walk_segment h walk v none = err "out of fuel"
walk_segment h walk v (some (err message)) = err message
walk_segment h walk v (some (ok ts)) = next_segment walk (walk_tokens h ts v)

-- A segment is read only once the walk has come to it.
unfoldable pub walk_segments : Heap → List String → Value → Outcome (Option Value)
unfolding walk_tokens segment_tokens
walk_segments h [] v = ok (some v)
walk_segments h (s ∷ ss) v = walk_segment h (walk_segments h ss) v (segment_tokens s)

abbrev below_dollar : Heap → Value → Option String → Outcome (Option Value)
below_dollar h scope none = err "Unsupported $ref. Expected '$.<path>'."
below_dollar h scope (some rest) = elim (after_char b'.' rest) [
  | none ↦ err "Unsupported $ref. Expected '$.<path>'."
  | some raw_path ↦
      if is_empty raw_path then ok (some scope) else walk_segments h (split_path raw_path) scope
]

unfoldable pub resolve_ref : Heap → Value → String → Outcome (Option Value)
unfolding strip walk_segments split_path
resolve_ref h scope expression =
    let ref = strip expression in
    if ref == "$" then ok (some scope) else below_dollar h scope (after_char b'$' ref)
