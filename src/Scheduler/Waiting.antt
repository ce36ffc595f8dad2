-- ===== src/Scheduler/Waiting.antt =====
-- The schedules that a poll has still to handle.
use mathlib.Core.Option.{some-injective, none-ne-some}
use qsmith.Prelude.{
  ℕ, String, ◌≡◌, refl, ◌∙◌, sym, ap, subst, Bool, true, false, ◌&&◌, some, Bool-cases, ◌⊎◌, inl,
  inr, List, [], ◌∷◌, map, keep, elem, arith, eq_iff, ◌==◌,
}
use qsmith.Prelude.Dict.{Dict, lookup}
use qsmith.Prelude.Sort.{sort, put_in}
use qsmith.Scheduler.Every.{Every, IsStable, with_state, SameTiming, TimedAs, update_fields-Every}
use qsmith.Scheduler.Tables.{
  Schedule, ScheduleTables, update_fields, is_at_or_before, is_due, get_due_schedules,
}
use qsmith.Scheduler.{is_after}

-- The schedule is not due, or its window has not begun.
abbrev pub IsHandled : ℕ → Schedule → Type 0
IsHandled now s = (is_due now s ≡ false) ⊎ (is_after s.start_at now ≡ true)

SameTiming-IsHandled :
    (now : ℕ) (s t : Schedule) → SameTiming s t → IsHandled now s → IsHandled now t
SameTiming-IsHandled now s t (a, n, st) (inl h) = inl (
    ap (λ x. x && is_at_or_before now t.next_run_at) (sym a)
    ∙ ap (λ x. s.active && is_at_or_before now x) (sym n)
    ∙ h)
SameTiming-IsHandled now s t (a, n, st) (inr h) = inr (ap (λ x. is_after x now) (sym st) ∙ h)

-- The schedule is handled, or stands in a list of those that are still to come.
abbrev pub Waits : ℕ → List String → String → Schedule → Type 0
Waits now ids id s = IsHandled now s ⊎ (elem id ids ≡ true)

pub Waits-stable : (now : ℕ) (ids : List String) (id : String) → IsStable (Waits now ids id)
Waits-stable now ids id s status message at (inl h) =
    inl (SameTiming-IsHandled now s (with_state status message at s) (refl, refl, refl) h)
Waits-stable now ids id s status message at (inr h) = inr h

Waits-tail :
    (now : ℕ) (id : String) (ids : List String) (j : String) (s : Schedule)
    → ¬ (id ≡ j)
    → Waits now (id ∷ ids) j s
    → Waits now ids j s
Waits-tail now id ids j s other (inl h) = inl h
Waits-tail now id ids j s other (inr h) = elim (Bool-cases (id == j)) [
  | inl same ↦ absurd (other ((eq_iff id j).0 same))
  | inr ne ↦ inr (rw ne at h)
]

abbrev pub Left : ℕ → List String → ScheduleTables → Type 0
Left now ids db = Every (Waits now ids) db

-- An update after which the schedule is not due takes it off the list.
pub update_fields-handles :
    (now : ℕ) (ids : List String) (id : String) (f : Schedule → Schedule) (db : ScheduleTables)
    → ((s : Schedule) → is_due now (f s) ≡ false)
    → Left now (id ∷ ids) db
    → Left now ids (update_fields id f db)
update_fields-handles now ids id f db done left =
    update_fields-Every (Waits now (id ∷ ids)) (Waits now ids) id f db (λ s _. inl (inl (done s)))
      (λ j s other w. Waits-tail now id ids j s other w) left

-- A schedule that is handled as it stands is off the list too.
pub Left-drop :
    (now : ℕ) (ids : List String) (id : String) (s : Schedule) (db : ScheduleTables)
    → IsHandled now s
    → Every (TimedAs id s) db
    → Left now (id ∷ ids) db
    → Left now ids db
Left-drop now ids id s db done timed left j t found = elim (Bool-cases (id == j)) [
  | inl same ↦ inl (SameTiming-IsHandled now s t (timed j t found ((eq_iff id j).0 same)) done)
  | inr ne ↦ elim (left j t found) [ inl h ↦ inl h | inr h ↦ inr (rw ne at h) ]
]

abbrev pub ids_of : List (String × Schedule) → List String
ids_of = map (λ ((id, s) : String × Schedule). id)

module _ (before : String × Schedule → String × Schedule → Bool) where
  elem-put_in :
      (id : String) (x : String × Schedule) (xs : List (String × Schedule))
      → elem id (ids_of (x ∷ xs)) ≡ true
      → elem id (ids_of (put_in before x xs)) ≡ true
  unfolding put_in
  elem-put_in id x [] h = h
  elem-put_in id (i, s) ((j, t) ∷ xs) h = ground (arith, elem-put_in id (i, s) xs)

  elem-sort :
      (id : String) (xs : List (String × Schedule))
      → elem id (ids_of xs) ≡ true
      → elem id (ids_of (sort before xs)) ≡ true
  unfolding sort
  elem-sort id [] h = h
  elem-sort id ((i, s) ∷ xs) h =
      elem-put_in id (i, s) (sort before xs) (ground (arith, elem-sort id xs))

elem-keep :
    (id : String) (s : Schedule) (p : String × Schedule → Bool) (d : Dict Schedule)
    → lookup id d ≡ some s
    → p (id, s) ≡ true
    → elem id (ids_of (keep p d)) ≡ true
unfolding lookup
elem-keep id s p [] found h = absurd (none-ne-some s found)
elem-keep id s p ((j, t) ∷ d) found h = elim (Bool-cases (j == id)) [
  | inl same ↦
      let first =
        subst (λ x. p (x, t) ≡ true) (sym ((eq_iff j id).0 same))
          (subst (λ x. p (id, x) ≡ true) (sym (some-injective t s (rw same at found))) h) in
      rw first (rw same refl)
  | inr ne ↦ let rest = elem-keep id s p d (rw ne at found) h in ground (arith, rest)
]

pub get_due_schedules-Left :
    (now : ℕ) (db : ScheduleTables) → Left now (ids_of (get_due_schedules now db)) db
unfolding get_due_schedules
get_due_schedules-Left now db id s found = elim (Bool-cases (is_due now s)) [
  | inr early ↦ inl (inl early)
  | inl due ↦ inr (elem-sort _ id _ (elem-keep id s _ db.schedules found due))
]
