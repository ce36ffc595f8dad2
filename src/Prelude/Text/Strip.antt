-- ===== src/Prelude/Text/Strip.antt =====
-- Laws of the text functions: concatenation, and texts that stripping leaves alone.
use Prim.Native.Char.{Char}
use Prim.Native.String.{String, [], ◌∷◌}
use mathlib.Core.Path.{◌≡◌, refl, ap, ◌∙◌}
use mathlib.Core.Logic.{inl, inr}
use mathlib.Core.Bool.{Bool, true, false, ◌&&◌, not}
use native.Mathlib.Omega.{arith}
use qsmith.Prelude.Tests.{Bool-cases}
use qsmith.Prelude.Text.{◌<>◌, is_empty, is_space, lstrip, rstrip, strip, snoc}

abbrev pub all_chars : (Char → Bool) → String → Bool
all_chars p [] = true
all_chars p (c ∷ s) = p c && all_chars p s

-- no white space anywhere
unfoldable pub is_solid : String → Bool
is_solid s = all_chars (λ c. not (is_space c)) s

pub append-nil : (s : String) → s <> "" ≡ s
append-nil [] = refl
append-nil (c ∷ s) = ap (λ t. c ∷ t) (append-nil s)

pub append-snoc : (s t : String) (c : Char) → snoc s c <> t ≡ s <> (c ∷ t)
unfolding snoc
append-snoc [] t c = refl
append-snoc (d ∷ s) t c = ap (λ u. d ∷ u) (append-snoc s t c)

pub all_chars-append :
    (p : Char → Bool) (s t : String)
    → all_chars p s ≡ true
    → all_chars p t ≡ true
    → all_chars p (s <> t) ≡ true
all_chars-append p [] t h k = k
all_chars-append p (c ∷ s) t h k = ground (arith, all_chars-append p s t)

rstrip-is_solid : (s : String) → all_chars (λ c. not (is_space c)) s ≡ true → rstrip s ≡ s
unfolding rstrip
rstrip-is_solid [] h = refl
rstrip-is_solid (c ∷ s) h = ground (arith, rstrip-is_solid s)

lstrip-is_solid : (s : String) → all_chars (λ c. not (is_space c)) s ≡ true → lstrip s ≡ s
unfolding lstrip
lstrip-is_solid [] h = refl
lstrip-is_solid (c ∷ s) h = ground arith

pub strip-is_solid : (s : String) → is_solid s ≡ true → strip s ≡ s
unfolding strip is_solid
strip-is_solid s h = ap rstrip (lstrip-is_solid s h) ∙ rstrip-is_solid s h

-- A text that does not start with a space.
abbrev StartsSolid : String → Type 0
StartsSolid [] = Unit
StartsSolid (c ∷ s) = is_space c ≡ false

lstrip-StartsSolid : (s : String) → StartsSolid (lstrip s)
unfolding lstrip
lstrip-StartsSolid [] = tt
lstrip-StartsSolid (c ∷ s) = elim (Bool-cases (is_space c)) [
  | inl e ↦ rw e (lstrip-StartsSolid s)
  | inr e ↦ rw e e
]

rstrip-StartsSolid : (s : String) → StartsSolid s → StartsSolid (rstrip s)
unfolding rstrip
rstrip-StartsSolid [] h = tt
rstrip-StartsSolid (c ∷ s) h = elim (Bool-cases (is_empty (rstrip s))) [
  | inl e ↦ rw (e, h) h
  | inr e ↦ rw e h
]

lstrip-of_StartsSolid : (s : String) → StartsSolid s → lstrip s ≡ s
unfolding lstrip
lstrip-of_StartsSolid [] h = refl
lstrip-of_StartsSolid (c ∷ s) h = rw h refl

rstrip-rstrip : (s : String) → rstrip (rstrip s) ≡ rstrip s
unfolding rstrip
rstrip-rstrip [] = refl
rstrip-rstrip (c ∷ s) = elim (Bool-cases (is_empty (rstrip s) && is_space c)) [
  | inl e ↦ rw e refl
  | inr e ↦ rw e (rw (rstrip-rstrip s, e) refl)
]

pub strip-strip : (s : String) → strip (strip s) ≡ strip s
unfolding strip
strip-strip s =
    ap rstrip (
      lstrip-of_StartsSolid (rstrip (lstrip s))
        (rstrip-StartsSolid (lstrip s) (lstrip-StartsSolid s)))
    ∙ rstrip-rstrip (lstrip s)
