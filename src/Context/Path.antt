-- ===== src/Context/Path.antt =====
-- The path functions of app/elaborations/services/suite_runs/run_context.py.
pub mod Plain
use qsmith.Prelude.{
  ℕ, String, Bool, true, false, not, ◌&&◌, ◌||◌, Option, none, some, List, [], ◌∷◌, ◌++◌, Char,
  code, Outcome, ok, err, keep, eqb, ◌==◌, if◌then◌else◌,
}
use qsmith.Prelude.Text.{is_empty, strip, snoc, split, after_char, all_digits, digits_value}

-- `name` of a path `$.name` or `$name`
abbrev strip_dot : String → String
strip_dot s = elim (after_char b'.' s) [ none ↦ s | some rest ↦ rest ]

unfoldable pub strip_dollar : String → String
strip_dollar s = elim (after_char b'$' s) [ none ↦ s | some rest ↦ strip_dot rest ]

unfoldable pub normalize_target_path : String → Outcome String
unfolding strip_dollar strip
normalize_target_path path =
    let normalized = strip path in
    if is_empty normalized then err "Target path is required." else ok (strip_dollar normalized)

-- The variables of the loop in `_segment_tokens`: the text in the buffer, and whether the loop is
-- behind a bracket.
pub record Scanner : Type 0 where
  pub buffer : String
  pub index_mode : Bool

-- One round of the loop: the token that it appends, if any, and the variables after it.
unfoldable pub scan_char : Char → Scanner → List String × Scanner
unfolding strip snoc
scan_char c s =
    if eqb (code c) b'['
    then (
      (if is_empty s.buffer then [] else s.buffer ∷ []),
      record { buffer = ""; index_mode = true },
    )
    else if eqb (code c) b']'
    then (
      (let token = strip s.buffer in if is_empty token then [] else token ∷ []),
      record { buffer = ""; index_mode = false },
    )
    else ([], record s { buffer = snoc s.buffer c })

unfoldable pub scan_end : Scanner → List String
unfolding strip
scan_end s =
    if is_empty s.buffer then [] else (if s.index_mode then strip s.buffer else s.buffer) ∷ []

unfoldable pub scan : String → Scanner → List String
unfolding scan_char scan_end
scan String.[] s = scan_end s
scan (String.◌∷◌ c rest) s = let (tokens, s') = scan_char c s in tokens ++ scan rest s'

abbrev pub start : Scanner
start = record { buffer = ""; index_mode = false }

abbrev pub is_filled : String → Bool
is_filled s = not (is_empty s)

-- An empty source leaves the loop with no round and an empty buffer.
unfoldable pub segment_tokens : String → List String
unfolding scan strip
segment_tokens segment = keep is_filled (scan (strip segment) start)

abbrev all_tokens : List String → List String
all_tokens [] = []
all_tokens (part ∷ parts) = segment_tokens part ++ all_tokens parts

abbrev tokens_of : Outcome String → Outcome (List String)
tokens_of (err message) = err message
tokens_of (ok normalized) = ok (all_tokens (keep is_filled (split b'.' normalized)))

unfoldable pub path_tokens : String → Outcome (List String)
unfolding normalize_target_path segment_tokens split
path_tokens path = tokens_of (normalize_target_path path)

-- The root that a first token names.
unfoldable pub root_of_token : String → Option String
unfolding strip
root_of_token token =
    let root = strip token in
    if root == "vars"
    then some "global"
    else if root == "response"
    then some "response"
    else if (root == "runEnvelope") || (root == "global") || (root == "local") || (root == "result")
    then some root
    else none

abbrev root_of : Outcome (List String) → Outcome (Option String)
root_of (err message) = err message
root_of (ok []) = ok none
root_of (ok (token ∷ _)) = ok (root_of_token token)

unfoldable pub extract_context_root : String → Outcome (Option String)
unfolding path_tokens root_of_token
extract_context_root path = root_of (path_tokens path)

-- `_to_index`: the number that a token of digits stands for
unfoldable pub to_index : String → Option ℕ
unfolding strip all_digits digits_value
to_index token =
    let raw = strip token in
    if not (is_empty raw) && all_digits raw then some (digits_value 0 raw) else none

-- `"vars"` in front is another word for `"global"`.
abbrev pub rename_vars : List String → List String
rename_vars [] = []
rename_vars (token ∷ rest) = if token == "vars" then "global" ∷ rest else token ∷ rest

abbrev pub tail_tokens : List String → List String
tail_tokens [] = []
tail_tokens (_ ∷ rest) = rest

abbrev pub is_scope_root : String → Bool
is_scope_root root = (root == "runEnvelope") || (root == "global") || (root == "local")

abbrev pub is_scope_key : String → Bool
is_scope_key token =
    (token == "constants")
    || (token == "event")
    || (token == "run_id")
    || (token == "runEnvelope")
    || (token == "global")

-- A scope's own keys are named as they are, and any other name is one of its constants.
abbrev under_constants : Bool → List String → List String
under_constants scoped [] = []
under_constants scoped (token ∷ rest) =
    if scoped && not (is_scope_key token) then "constants" ∷ token ∷ rest else token ∷ rest

-- The tokens below the root, for `write_context_path` and `remove_context_path`.
unfoldable pub target_tokens : String → List String → List String
target_tokens root tokens = under_constants (is_scope_root root) (tail_tokens (rename_vars tokens))
