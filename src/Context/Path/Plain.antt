-- ===== src/Context/Path/Plain.antt =====
-- Plain names and the paths that are made of them: what `_path_tokens` reads is what was written.
use qsmith.Prelude.{
  String, ◌≡◌, refl, ap, ◌∙◌, Bool, true, false, not, ◌&&◌, List, [], ◌∷◌, Char, code, ok, keep,
  eqb, All, and_right, arith,
}
use qsmith.Prelude.Text.{is_empty, is_space, split, snoc, ◌<>◌}
use qsmith.Prelude.Text.Strip.{
  all_chars, is_solid, all_chars-append, append-nil, append-snoc, strip-is_solid,
}
use qsmith.Context.Path.{
  scan_end, scan, is_filled, segment_tokens, path_tokens, normalize_target_path, all_tokens,
}

abbrev pub not_dot : Char → Bool
not_dot c = not (eqb (code c) b'.')

abbrev pub not_bracket : Char → Bool
not_bracket c = not (eqb (code c) b'[') && not (eqb (code c) b']')

-- A name that a path can hold as it is: not empty, with no white space, dot or bracket.
pub record IsPlain (name : String) : Type 0 where
  pub filled : is_empty name ≡ false
  pub solid : is_solid name ≡ true
  pub dotless : all_chars not_dot name ≡ true
  pub bracketless : all_chars not_bracket name ≡ true

scan-plain :
    (s buffer : String)
    → all_chars not_bracket s ≡ true
    → scan s (record { buffer = buffer; index_mode = false })
      ≡ scan_end (record { buffer = buffer <> s; index_mode = false })
unfolding scan
scan-plain String.[] buffer h = rw append-nil
scan-plain (String.◌∷◌ c s) buffer h =
    let opens : eqb (code c) b'[' ≡ false = ground arith in
    let closes : eqb (code c) b']' ≡ false = ground arith in
    rw (opens, closes)
      (rw (append-snoc buffer s c) at (scan-plain s (snoc buffer c) (and_right _ _ h)))

scan_end-filled :
    (name : String)
    → is_empty name ≡ false
    → keep is_filled (scan_end (record { buffer = name; index_mode = false })) ≡ name ∷ []
unfolding scan_end
scan_end-filled name h = rw h (rw h)

pub segment_tokens-plain : (name : String) → IsPlain name → segment_tokens name ≡ name ∷ []
unfolding segment_tokens
segment_tokens-plain name p =
    rw (strip-is_solid name p.solid)
      (rw (scan-plain name "" p.bracketless) (scan_end-filled name p.filled))

split-dotless : (s : String) → all_chars not_dot s ≡ true → split b'.' s ≡ s ∷ []
unfolding split
split-dotless String.[] h = refl
split-dotless (String.◌∷◌ c s) h = ground (arith, split-dotless s)

split-append_dot :
    (s t : String) → all_chars not_dot s ≡ true → split b'.' (s <> ("." <> t)) ≡ s ∷ split b'.' t
unfolding split
split-append_dot String.[] t h = refl
split-append_dot (String.◌∷◌ c s) t h = ground (arith, split-append_dot s t)

-- `$` and the names, each behind a dot.
abbrev pub dotted : List String → String
dotted [] = ""
dotted (name ∷ names) = "." <> (name <> dotted names)

abbrev pub render : List String → String
render names = "$" <> dotted names

split-dotted :
    (name : String) (names : List String)
    → All IsPlain (name ∷ names)
    → split b'.' (name <> dotted names) ≡ name ∷ names
split-dotted name [] (p, _) = rw append-nil (split-dotless name p.dotless)
split-dotted name (next ∷ names) (p, ps) =
    split-append_dot name (next <> dotted names) p.dotless
    ∙ ap (λ ts. name ∷ ts) (split-dotted next names ps)

pub keep-filled : (names : List String) → All IsPlain names → keep is_filled names ≡ names
keep-filled [] _ = refl
keep-filled (name ∷ names) (p, ps) = rw (p.filled, keep-filled names ps)

all_tokens-plain : (names : List String) → All IsPlain names → all_tokens names ≡ names
all_tokens-plain [] _ = refl
all_tokens-plain (name ∷ names) (p, ps) =
    rw (segment_tokens-plain name p, all_tokens-plain names ps)

is_space_dot : is_space "." ≡ false
unfolding is_space
is_space_dot = refl

is_space_dollar : is_space "$" ≡ false
unfolding is_space
is_space_dollar = refl

dotted-is_solid : (names : List String) → All IsPlain names → is_solid (dotted names) ≡ true
unfolding is_solid
dotted-is_solid [] _ = refl
dotted-is_solid (name ∷ names) (p, ps) = rw is_space_dot (
    all_chars-append (λ c. not (is_space c)) name (dotted names) p.solid (dotted-is_solid names ps))

pub render-is_solid : (names : List String) → All IsPlain names → is_solid (render names) ≡ true
unfolding is_solid
render-is_solid names ps = rw is_space_dollar (dotted-is_solid names ps)

normalize-render :
    (name : String) (names : List String)
    → All IsPlain (name ∷ names)
    → normalize_target_path (render (name ∷ names)) ≡ ok (name <> dotted names)
unfolding normalize_target_path
normalize-render name names ps =
    rw (strip-is_solid (render (name ∷ names)) (render-is_solid (name ∷ names) ps))

-- A path that is written from plain names is read as those names.
pub path_tokens-render :
    (name : String) (names : List String)
    → All IsPlain (name ∷ names)
    → path_tokens (render (name ∷ names)) ≡ ok (name ∷ names)
unfolding path_tokens
path_tokens-render name names ps = rw (normalize-render name names ps) (
    rw (split-dotted name names ps)
      (rw (keep-filled (name ∷ names) ps) (rw (all_tokens-plain (name ∷ names) ps))))

pub constants-IsPlain : IsPlain "constants"
unfolding is_solid is_space
constants-IsPlain = record { filled = refl; solid = refl; dotless = refl; bracketless = refl }

pub local-IsPlain : IsPlain "local"
unfolding is_solid is_space
local-IsPlain = record { filled = refl; solid = refl; dotless = refl; bracketless = refl }

pub global-IsPlain : IsPlain "global"
unfolding is_solid is_space
global-IsPlain = record { filled = refl; solid = refl; dotless = refl; bracketless = refl }

-- The path that `set_context_var` writes.
pub path_tokens-constant :
    (scope name : String)
    → IsPlain scope
    → IsPlain name
    → path_tokens ("$." <> (scope <> (".constants." <> name)))
      ≡ ok (scope ∷ "constants" ∷ name ∷ [])
path_tokens-constant scope name p q =
    rw (append-nil name) at
      (path_tokens-render scope ("constants" ∷ name ∷ []) (p, (constants-IsPlain, (q, tt))))
