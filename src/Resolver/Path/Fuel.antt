-- ===== src/Resolver/Path/Fuel.antt =====
-- The loop of `_segment_tokens` ends: every round takes a character away.
use qsmith.Prelude.{
  ℕ, zero, suc, ◌≤◌, ◌<◌, String, ◌≡◌, refl, true, Bool-cases, Option, none, some, inl, inr,
  is_some, List, [], ◌∷◌, code, Outcome, ok, err, eqb, arith, if◌then◌else◌,
}
use qsmith.Prelude.Text.{is_empty, ◌<>◌}
use qsmith.Resolver.Path.{
  Token, key, break_at, tokens_loop, bracket_token, property_token, behind_index, add_token,
  index_token, text_length, segment_tokens,
}

break_at-shorter :
    (n : ℕ) (s rest : String) → (break_at n s).1 ≡ some rest → text_length rest < text_length s
unfolding break_at
break_at-shorter n String.[] rest e = absurd (ground arith)
break_at-shorter n (String.◌∷◌ c s) rest e = elim (Bool-cases (eqb (code c) n)) [
  | inl here ↦
      let same : some s ≡ some rest = rw here at e in
      let text : s ≡ rest = ground arith in rw text (omega arith)
  | inr not_here ↦
      let deeper : (break_at n s).1 ≡ some rest = rw not_here at e in
      let shorter = break_at-shorter n s rest deeper in omega arith
]

add_token-some :
    (ts : List Token) (o : Option (Outcome (List Token)))
    → is_some o ≡ true
    → is_some (add_token ts o) ≡ true
add_token-some ts none e = e
add_token-some ts (some (err message)) e = refl
add_token-some ts (some (ok rest)) e = refl

behind_index-some :
    (r : Outcome (List Token)) (o : Option (Outcome (List Token)))
    → is_some o ≡ true
    → is_some (behind_index r o) ≡ true
behind_index-some (err message) o e = refl
behind_index-some (ok ts) o e = add_token-some ts o e

module _ (loop : String → Option (Outcome (List Token))) where
  bracket_token-some :
      (p : String × Option String)
      → ((rest : String) → p.1 ≡ some rest → is_some (loop rest) ≡ true)
      → is_some (bracket_token loop p) ≡ true
  bracket_token-some (inside, none) ends = refl
  bracket_token-some (inside, some rest) ends =
      behind_index-some (index_token inside) (loop rest) (ends rest refl)

  property_token-some :
      (remaining : String) (p : String × Option String)
      → ((rest : String) → p.1 ≡ some rest → is_some (loop ("[" <> rest)) ≡ true)
      → is_some (property_token loop remaining p) ≡ true
  property_token-some remaining (before, none) ends = refl
  property_token-some remaining (before, some rest) ends =
      add_token-some (if is_empty before then [] else key before ∷ []) (loop ("[" <> rest))
        (ends rest refl)

-- Fuel of the text's length is enough.
tokens_loop-ends :
    (fuel : ℕ) (s : String) → text_length s ≤ fuel → is_some (tokens_loop fuel s) ≡ true
unfolding tokens_loop
tokens_loop-ends fuel String.[] h = refl
tokens_loop-ends zero (String.◌∷◌ c s) h = absurd (omega arith)
tokens_loop-ends (suc fuel) (String.◌∷◌ c s) h = elim (Bool-cases (eqb (code c) b'[')) [
  | inl opens ↦ rw opens (
      bracket_token-some (tokens_loop fuel) (break_at b']' s) (λ rest e.
        let shorter = break_at-shorter b']' s rest e in tokens_loop-ends fuel rest (omega arith)))
  | inr other ↦ rw other (
      property_token-some (tokens_loop fuel) (String.◌∷◌ c s) _ (λ rest e.
        let deeper : (break_at b'[' s).1 ≡ some rest = unfold break_at in rw other at e in
        let shorter = break_at-shorter b'[' s rest deeper in
        tokens_loop-ends fuel ("[" <> rest) (omega arith)))
]

-- Reading the tokens of a segment ends with tokens or with an error, whatever the segment: the
-- fuel never runs out.
pub segment_tokens-ends : (segment : String) → is_some (segment_tokens segment) ≡ true
unfolding segment_tokens
segment_tokens-ends segment = tokens_loop-ends (text_length segment) segment (omega arith)
