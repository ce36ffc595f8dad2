-- ===== src/Resolver/Names.antt =====
-- References that are made of plain names: what `_resolve_ref` does along them.
use qsmith.Prelude.{
  String, ◌≡◌, refl, ◌∙◌, ap, true, false, Option, none, some, Option-cases, Bool-cases, eq_iff,
  inl, inr, List, [], ◌∷◌, code, ok, eqb, All, and_right, arith, ◌==◌,
}
use qsmith.Prelude.Text.{is_empty, snoc, ◌<>◌}
use qsmith.Prelude.Text.Strip.{all_chars, append-nil, append-snoc, strip-is_solid}
use qsmith.Memory.{Value, Heap, get_key}
use qsmith.Context.Path.Plain.{
  IsPlain, not_dot, not_bracket, dotted, render, keep-filled, render-is_solid,
}
use qsmith.Resolver.Path.{split_scan, split_path, key, break_at, segment_tokens, text_length}
use qsmith.Resolver.Reference.{walk_segments, resolve_ref, onward}

split_scan-plain :
    (s buffer rest : String)
    → all_chars not_dot s ≡ true
    → all_chars not_bracket s ≡ true
    → split_scan (s <> rest) (record { buffer = buffer; bracket_level = 0 })
      ≡ split_scan rest (record { buffer = buffer <> s; bracket_level = 0 })
unfolding split_scan
split_scan-plain String.[] buffer rest dotless bracketless = rw append-nil
split_scan-plain (String.◌∷◌ c s) buffer rest dotless bracketless =
    let dot : eqb (code c) b'.' ≡ false = ground arith in
    let opens : eqb (code c) b'[' ≡ false = ground arith in
    let closes : eqb (code c) b']' ≡ false = ground arith in
    rw (dot, opens, closes)
      (rw (append-snoc buffer s c) at (
        split_scan-plain s (snoc buffer c) rest (and_right _ _ dotless)
          (and_right _ _ bracketless)))

split_scan-dotted :
    (names : List String) (buffer : String)
    → All IsPlain names
    → split_scan (dotted names) (record { buffer = buffer; bracket_level = 0 }) ≡ buffer ∷ names
unfolding split_scan
split_scan-dotted [] buffer _ = refl
split_scan-dotted (name ∷ names) buffer (p, ps) =
    ap (λ parts. buffer ∷ parts)
      (split_scan-plain name "" (dotted names) p.dotless p.bracketless
        ∙ split_scan-dotted names name ps)

split_path-dotted :
    (name : String) (names : List String)
    → All IsPlain (name ∷ names)
    → split_path (name <> dotted names) ≡ name ∷ names
unfolding split_path
split_path-dotted name names (p, ps) =
    rw (split_scan-plain name "" (dotted names) p.dotless p.bracketless)
      (rw (split_scan-dotted names name ps) (keep-filled (name ∷ names) (p, ps)))

break_at-bracketless : (s : String) → all_chars not_bracket s ≡ true → break_at b'[' s ≡ (s, none)
unfolding break_at
break_at-bracketless String.[] h = refl
break_at-bracketless (String.◌∷◌ c s) h =
    let opens : eqb (code c) b'[' ≡ false = ground arith in
    let later : all_chars not_bracket s ≡ true = and_right _ _ h in
    rw opens (rw (break_at-bracketless s later) refl)

segment_tokens-name :
    (name : String) → IsPlain name → segment_tokens name ≡ some (ok (key name ∷ []))
unfolding segment_tokens
segment_tokens-name String.[] p = let h : true ≡ false = p.filled in absurd (ground arith)
segment_tokens-name (String.◌∷◌ c s) p =
    let h : all_chars not_bracket (String.◌∷◌ c s) ≡ true = p.bracketless in
    let opens : eqb (code c) b'[' ≡ false = ground arith in
    rw opens (rw (break_at-bracketless (String.◌∷◌ c s) p.bracketless) refl)

-- The value behind names: one `get` after another.
abbrev pub walk_names : Heap → List String → Value → Option Value
walk_names h [] v = some v
walk_names h (name ∷ names) v = onward (walk_names h names) (get_key h v name)

walk_segments-names :
    (h : Heap) (names : List String) (v : Value)
    → All IsPlain names
    → walk_segments h names v ≡ ok (walk_names h names v)
unfolding walk_segments
walk_segments-names h [] v _ = refl
walk_segments-names h (name ∷ names) v (p, ps) = elim (Option-cases (get_key h v name)) [
  | inl gone ↦ rw (segment_tokens-name name p, gone) refl
  | inr (w, there) ↦ rw (segment_tokens-name name p, there) (walk_segments-names h names w ps)
]

pub not_dollar : (path : String) → ("$." <> path == "$") ≡ false
not_dollar path = elim (Bool-cases ("$." <> path == "$")) [
  | inl same ↦
      let length : text_length ("$." <> path) ≡ 1 =
        ap text_length ((eq_iff ("$." <> path) "$").0 same) in
      absurd (omega arith)
  | inr other ↦ other
]

is_empty-append : (s t : String) → is_empty s ≡ false → is_empty (s <> t) ≡ false
is_empty-append String.[] t h = absurd (ground arith)
is_empty-append (String.◌∷◌ c s) t h = refl

-- A reference that is written from plain names, at least one, is resolved by getting one name
-- after another from the scope, and it is missing where one of them is.
pub resolve_ref-names :
    (h : Heap) (scope : Value) (name : String) (names : List String)
    → All IsPlain (name ∷ names)
    → resolve_ref h scope (render (name ∷ names)) ≡ ok (walk_names h (name ∷ names) scope)
unfolding resolve_ref
resolve_ref-names h scope name names ps =
    rw (strip-is_solid (render (name ∷ names)) (render-is_solid (name ∷ names) ps)) (
      rw (not_dollar (name <> dotted names)) (
        rw (is_empty-append name (dotted names) ps.0.filled)
          (rw (split_path-dotted name names ps) (walk_segments-names h (name ∷ names) scope ps))))
