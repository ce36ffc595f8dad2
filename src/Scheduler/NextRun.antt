-- ===== src/Scheduler/NextRun.antt =====
-- `compute_next_run_at`.
use mathlib.Core.Option.{some-injective, none-ne-some}
use qsmith.Prelude.{
  subst, ℕ, ◌+◌, ◌*◌, ◌<◌, ◌≤◌, String, ◌≡◌, refl, Bool, true, false, not, Option, none, some,
  Bool-cases, inl, inr, arith, ltb, leb, Outcome, ok, err, ◌==◌, if◌then◌else◌, ok-injective,
  err-ne-ok,
}
use qsmith.Prelude.Int.{ℤ, pos, negsuc}
use qsmith.Prelude.Text.{strip, lower, ◌<>◌}

-- A minute in microseconds.
abbrev pub minute : ℕ
minute = 60000000

-- `timedelta` of the unit and the value
abbrev pub delta : String → ℕ → Option ℕ
delta unit n =
    if unit == "minutes"
    then some (n * minute)
    else if unit == "hours"
    then some (n * (60 * minute))
    else if unit == "days"
    then some (n * (1440 * minute))
    else none

-- `start_at and end_at and start_at >= end_at`
abbrev pub is_empty_window : Option ℕ → Option ℕ → Bool
is_empty_window none end = false
is_empty_window (some s) none = false
is_empty_window (some s) (some e) = leb e s

-- `candidate`, or the start where it would be too early
abbrev pub not_before_start : Option ℕ → ℕ → ℕ
not_before_start none t = t
not_before_start (some s) t = if ltb t s then s else t

abbrev pub first_run : Option ℕ → ℕ → ℕ → ℕ
first_run none now d = now + d
first_run (some s) now d = if ltb now s then s else not_before_start (some s) (now + d)

abbrev pub candidate_run : Option ℕ → Option ℕ → ℕ → ℕ → ℕ
candidate_run start none now d = first_run start now d
candidate_run start (some reference) now d = not_before_start start (reference + d)

abbrev pub not_after_end : Option ℕ → ℕ → Option ℕ
not_after_end none t = some t
not_after_end (some e) t = if ltb e t then none else some t

abbrev pub with_delta : String → Option ℕ → Option ℕ → ℕ → Option ℕ → Option ℕ → Outcome (Option ℕ)
with_delta unit start end now reference none =
    err ("Unsupported frequency unit '" <> (unit <> "'."))
with_delta unit start end now reference (some d) =
    ok (not_after_end end (candidate_run start reference now d))

abbrev pub is_positive : ℤ → Bool
is_positive (pos n) = ltb 0 n
is_positive (negsuc n) = false

abbrev pub magnitude : ℤ → ℕ
magnitude (pos n) = n
magnitude (negsuc n) = 0

unfoldable pub compute_next_run_at :
    Bool → String → ℤ → Option ℕ → Option ℕ → ℕ → Option ℕ → Outcome (Option ℕ)
unfolding strip lower
compute_next_run_at active unit value start end now reference =
    if not active
    then ok none
    else if not (is_positive value)
    then err "frequency_value must be greater than zero."
    else if is_empty_window start end
    then err "start_at must be earlier than end_at."
    else with_delta unit start end now reference (delta (lower (strip unit)) (magnitude value))

delta_pos : (unit : String) (n d : ℕ) → 0 < n → delta unit n ≡ some d → 0 < d
delta_pos unit n d h e = elim (Bool-cases (unit == "minutes")) [
  | inl m ↦ omega (arith, some-injective (n * minute) d (rw m at e))
  | inr m ↦ elim (Bool-cases (unit == "hours")) [
    | inl o ↦ omega (arith, some-injective (n * (60 * minute)) d (rw o at (rw m at e)))
    | inr o ↦ elim (Bool-cases (unit == "days")) [
      | inl y ↦
          omega (arith, some-injective (n * (1440 * minute)) d (rw y at (rw o at (rw m at e))))
      | inr y ↦ absurd (none-ne-some d (rw y at (rw o at (rw m at e))))
    ]
  ]
]

abbrev pub IsFrom : Option ℕ → ℕ → Type 0
IsFrom none t = Unit
IsFrom (some s) t = s ≤ t

abbrev pub IsUntil : Option ℕ → ℕ → Type 0
IsUntil none t = Unit
IsUntil (some e) t = t ≤ e

-- The time from which the next run is counted.
abbrev pub base_time : ℕ → Option ℕ → ℕ
base_time now none = now
base_time now (some reference) = reference

candidate_run_bounds :
    (start reference : Option ℕ) (now d : ℕ)
    → 0 < d
    → let t = candidate_run start reference now d in (base_time now reference < t) × IsFrom start t
candidate_run_bounds none none now d h = (ground arith, tt)
candidate_run_bounds none (some r) now d h = (ground arith, tt)
candidate_run_bounds (some s) none now d h = (ground arith, ground arith)
candidate_run_bounds (some s) (some r) now d h = (ground arith, ground arith)

not_after_end_bounds :
    (end : Option ℕ) (c t : ℕ) → not_after_end end c ≡ some t → (c ≡ t) × IsUntil end t
not_after_end_bounds none c t h = (ground arith, tt)
not_after_end_bounds (some e) c t h = (ground arith, ground arith)

with_delta_bounds :
    (unit : String) (start end reference : Option ℕ) (now t : ℕ) (o : Option ℕ)
    → ((d : ℕ) → o ≡ some d → 0 < d)
    → with_delta unit start end now reference o ≡ ok (some t)
    → (base_time now reference < t) × IsFrom start t × IsUntil end t
with_delta_bounds unit start end reference now t none h e = cc
with_delta_bounds unit start end reference now t (some d) h e =
    let c = candidate_run start reference now d in
    let (later, from) = candidate_run_bounds start reference now d (h d refl) in
    let (same, until) = not_after_end_bounds end c t (ok-injective _ _ e) in
    (subst (λ x. base_time now reference < x) same later, subst (IsFrom start) same from, until)

-- A next run that is computed lies after the time from which it is counted, not before the window
-- of the schedule and not after it.
pub compute_next_run_at_bounds :
    (active : Bool) (unit : String) (value : ℤ) (start end reference : Option ℕ) (now t : ℕ)
    → compute_next_run_at active unit value start end now reference ≡ ok (some t)
    → (base_time now reference < t) × IsFrom start t × IsUntil end t
unfolding compute_next_run_at
compute_next_run_at_bounds false unit value start end reference now t h = cc
compute_next_run_at_bounds true unit (negsuc n) start end reference now t h = cc
compute_next_run_at_bounds true unit (pos n) start end reference now t h =
    elim (Bool-cases (ltb 0 n)) [
      | inr z ↦ absurd (err-ne-ok _ _ (rw z at h))
      | inl p ↦ elim (Bool-cases (is_empty_window start end)) [
        | inl w ↦ absurd (err-ne-ok _ _ (rw w at (rw p at h)))
        | inr w ↦
            with_delta_bounds unit start end reference now t _
              (λ d e. delta_pos (lower (strip unit)) n d (ground arith) e) (rw w at (rw p at h))
      ]
    ]
