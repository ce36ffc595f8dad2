-- ===== src/Resolver/Path.antt =====
-- The path functions of run_context_resolver.py.
pub mod Fuel
use qsmith.Prelude.{
  ℕ, zero, suc, ◌+◌, ◌-◌, String, Bool, true, false, not, ◌&&◌, Option, none, some, List, [], ◌∷◌,
  ◌++◌, Char, code, Outcome, ok, err, keep, eqb, if◌then◌else◌,
}
use qsmith.Prelude.Text.{is_empty, strip, snoc, after_char, all_digits, digits_value, ◌<>◌}
use qsmith.Context.Path.{is_filled}

-- The variables of the loop in `_split_path`.
pub record Splitter : Type 0 where
  pub buffer : String
  pub bracket_level : ℕ

unfoldable pub split_char : Char → Splitter → List String × Splitter
unfolding snoc
split_char c s =
    if eqb (code c) b'.' && eqb s.bracket_level 0
    then (s.buffer ∷ [], record { buffer = ""; bracket_level = 0 })
    else if eqb (code c) b'['
    then ([], record { buffer = snoc s.buffer c; bracket_level = s.bracket_level + 1 })
    else if eqb (code c) b']'
    then ([], record { buffer = snoc s.buffer c; bracket_level = s.bracket_level - 1 })
    else ([], record s { buffer = snoc s.buffer c })

unfoldable pub split_scan : String → Splitter → List String
unfolding split_char
split_scan String.[] s = s.buffer ∷ []
split_scan (String.◌∷◌ c rest) s = let (parts, s') = split_char c s in parts ++ split_scan rest s'

abbrev pub split_start : Splitter
split_start = record { buffer = ""; bracket_level = 0 }

unfoldable pub split_path : String → List String
unfolding split_scan
split_path path = keep is_filled (split_scan path split_start)

-- A token: a property's name, or a list's index.
pub data Token : Type 0 where
  key : String → Token
  index : ℕ → Token

-- The text before a character, and the text behind it if there is one.
unfoldable pub break_at : ℕ → String → String × Option String
break_at n String.[] = ("", none)
break_at n (String.◌∷◌ c s) =
    let (before, rest) = break_at n s in
    if eqb (code c) n then ("", some s) else (String.◌∷◌ c before, rest)

abbrev add_token : List Token → Option (Outcome (List Token)) → Option (Outcome (List Token))
add_token ts none = none
add_token ts (some (err message)) = some (err message)
add_token ts (some (ok rest)) = some (ok (ts ++ rest))

abbrev index_token : String → Outcome (List Token)
index_token text =
    let raw = strip text in
    if not (is_empty raw) && all_digits raw
    then ok (index (digits_value 0 raw) ∷ [])
    else err "Invalid list index"

abbrev behind_index :
    Outcome (List Token) → Option (Outcome (List Token)) → Option (Outcome (List Token))
behind_index (err message) rest = some (err message)
behind_index (ok ts) rest = add_token ts rest

abbrev bracket_token :
    (String → Option (Outcome (List Token)))
    → String × Option String
    → Option (Outcome (List Token))
bracket_token loop (inside, none) = some (err "Invalid $ref segment")
bracket_token loop (inside, some rest) = behind_index (index_token inside) (loop rest)

abbrev property_token :
    (String → Option (Outcome (List Token)))
    → String
    → String × Option String
    → Option (Outcome (List Token))
property_token loop remaining (before, none) = some (ok (key remaining ∷ []))
property_token loop remaining (before, some rest) =
    add_token (if is_empty before then [] else key before ∷ []) (loop ("[" <> rest))

abbrev token_round :
    (String → Option (Outcome (List Token)))
    → String
    → Option String
    → Option (Outcome (List Token))
token_round loop remaining (some inner) = bracket_token loop (break_at b']' inner)
token_round loop remaining none = property_token loop remaining (break_at b'[' remaining)

-- The loop of `_segment_tokens`; `none` means that the fuel ran out.
unfoldable pub tokens_loop : ℕ → String → Option (Outcome (List Token))
unfolding break_at strip all_digits digits_value
tokens_loop fuel String.[] = some (ok [])
tokens_loop zero (String.◌∷◌ c s) = none
tokens_loop (suc fuel) (String.◌∷◌ c s) =
    token_round (tokens_loop fuel) (String.◌∷◌ c s) (after_char b'[' (String.◌∷◌ c s))

abbrev pub text_length : String → ℕ
text_length String.[] = 0
text_length (String.◌∷◌ c s) = suc (text_length s)

-- Every round takes a character away, so the length is fuel enough.
unfoldable pub segment_tokens : String → Option (Outcome (List Token))
unfolding tokens_loop
segment_tokens segment = tokens_loop (text_length segment) segment
