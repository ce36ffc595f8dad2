-- ===== src/Prelude/Text.antt =====
-- Python's `str` methods, by recursion over the characters of a text.
pub mod Strip
use Prim.Native.Nat.{ℕ, ◌+◌, ◌-◌, ◌*◌}
use Prim.Native.Char.{Char, code}
use Prim.Native.String.{String, [], ◌∷◌}
use mathlib.Core.Path.{◌≡◌, refl}
use mathlib.Core.Bool.{Bool, true, false, ◌&&◌, ◌||◌}
use mathlib.Core.Option.{Option, none, some}
use mathlib.Core.List
use mathlib.Core.List.{List}
use qsmith.Prelude.Tests.{leb, eqb, if◌then◌else◌}

infixr 60 ◌<>◌
-- Concatenation, as in an f-string.
abbrev pub ◌<>◌ : String → String → String
[] <> t = t
(c ∷ s) <> t = c ∷ (s <> t)

abbrev pub is_empty : String → Bool
is_empty [] = true
is_empty (c ∷ s) = false

-- `str.isspace` of one character: the code points that Unicode calls white space, and the
-- separators 28 to 31.
unfoldable pub is_space : Char → Bool
is_space c =
    let n = code c in
    (leb 9 n && leb n 13)
    || (leb 28 n && leb n 32)
    || eqb n 133
    || eqb n 160
    || eqb n 5760
    || (leb 8192 n && leb n 8202)
    || eqb n 8232
    || eqb n 8233
    || eqb n 8239
    || eqb n 8287
    || eqb n 12288

unfoldable pub is_digit : Char → Bool
is_digit c = let n = code c in leb 48 n && leb n 57

unfoldable pub lstrip : String → String
lstrip [] = []
lstrip (c ∷ s) = if is_space c then lstrip s else c ∷ s

unfoldable pub rstrip : String → String
rstrip [] = []
rstrip (c ∷ s) = let r = rstrip s in if is_empty r && is_space c then [] else c ∷ r

-- `s.strip()`
unfoldable pub strip : String → String
unfolding lstrip rstrip
strip s = rstrip (lstrip s)

unfoldable pub lstrip_char : ℕ → String → String
lstrip_char n [] = []
lstrip_char n (c ∷ s) = if eqb (code c) n then lstrip_char n s else c ∷ s

unfoldable pub rstrip_char : ℕ → String → String
rstrip_char n [] = []
rstrip_char n (c ∷ s) =
    let r = rstrip_char n s in if is_empty r && eqb (code c) n then [] else c ∷ r

-- `s.strip(ch)` for a single character
unfoldable pub strip_char : ℕ → String → String
unfolding lstrip_char rstrip_char
strip_char n s = rstrip_char n (lstrip_char n s)

-- `buffer.append(ch)`, the buffer read as the text that `"".join(buffer)` gives
unfoldable pub snoc : String → Char → String
snoc [] c = c ∷ []
snoc (d ∷ s) c = d ∷ snoc s c

-- `s.isdigit()`, for the ASCII digits
unfoldable pub all_digits : String → Bool
unfolding is_digit
all_digits [] = true
all_digits (c ∷ s) = is_digit c && all_digits s

-- `int(s)` of a text of digits
unfoldable pub digits_value : ℕ → String → ℕ
digits_value acc [] = acc
digits_value acc (c ∷ s) = digits_value (acc * 10 + (code c - 48)) s

-- puts a character before the first part of a split
unfoldable pub cons_first : Char → List String → List String
cons_first c List.[] = List.◌∷◌ (c ∷ []) List.[]
cons_first c (List.◌∷◌ p ps) = List.◌∷◌ (c ∷ p) ps

-- `s.split(ch)`
unfoldable pub split : ℕ → String → List String
unfolding cons_first
split n [] = List.◌∷◌ [] List.[]
split n (c ∷ s) =
    let rest = split n s in if eqb (code c) n then List.◌∷◌ [] rest else cons_first c rest

-- the text after a leading character, `none` where another one leads
abbrev pub after_char : ℕ → String → Option String
after_char n [] = none
after_char n (c ∷ s) = if eqb (code c) n then some s else none

strip_example : strip "  a b \n" ≡ "a b"
unfolding strip is_space
strip_example = refl

split_example : split b'.' "a..b" ≡ List.◌∷◌ "a" (List.◌∷◌ "" (List.◌∷◌ "b" List.[]))
unfolding split
split_example = refl

-- the character that stands in `to` where `c` stands in `from`
unfoldable pub translate : String → String → Char → Char
translate (a ∷ from) (b ∷ to) c = if eqb (code a) (code c) then b else translate from to c
translate _ _ c = c

abbrev upper_letters : String
upper_letters = "ABCDEFGHIJKLMNOPQRSTUVWXYZ"

abbrev lower_letters : String
lower_letters = "abcdefghijklmnopqrstuvwxyz"

-- `s.lower()`, for ASCII letters
unfoldable pub lower : String → String
unfolding translate
lower [] = []
lower (c ∷ s) = translate upper_letters lower_letters c ∷ lower s

-- `s.upper()`, for ASCII letters
unfoldable pub upper : String → String
unfolding translate
upper [] = []
upper (c ∷ s) = translate lower_letters upper_letters c ∷ upper s

-- `s.startswith(t)`
unfoldable pub starts_with : String → String → Bool
starts_with s [] = true
starts_with [] (d ∷ t) = false
starts_with (c ∷ s) (d ∷ t) = eqb (code c) (code d) && starts_with s t

-- `t in s`
unfoldable pub contains_text : String → String → Bool
unfolding starts_with
contains_text [] t = is_empty t
contains_text (c ∷ s) t = starts_with (c ∷ s) t || contains_text s t
