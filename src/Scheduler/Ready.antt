-- ===== src/Scheduler/Ready.antt =====
-- Schedules that can run, and that stay there.
use qsmith.Prelude.{
  ℕ, ◌*◌, String, ◌≡◌, refl, ◌∙◌, Bool, true, false, Option, none, some, Bool-cases, inl, inr, List,
  [], ◌∷◌, elem, eq_refl, All-weaken, All-keep, arith, eq_iff, All, is_some, ok, ◌==◌,
  if◌then◌else◌,
}
use qsmith.Prelude.Dict.{Dict, lookup, insert, lookup-insert}
use qsmith.Prelude.Sort.{All-sort}
use qsmith.Prelude.Text.{strip, lower}
use qsmith.Scheduler.NextRun.{
  compute_next_run_at, is_positive, is_empty_window, delta, magnitude, minute, not_after_end,
  candidate_run,
}
use qsmith.Scheduler.Waiting.{ids_of}
use qsmith.Scheduler.Due.{next_run_or-on}
use qsmith.Scheduler.Every.{Every, update_fields-Every}
use qsmith.Scheduler.Tables.{
  Schedule, Execution, ScheduleTables, update_found, update_fields, get_due_schedules,
  get_running_schedules,
}
use qsmith.Scheduler.{
  next_run_or, refresh_found, refresh_each, execution_of, refresh_running_schedule_states,
}

-- A unit and a value that the code can turn into a time, and a window that is not empty.
abbrev pub IsValid : Schedule → Type 0
IsValid s =
    (is_positive s.frequency_value ≡ true)
    × (is_empty_window s.start_at s.end_at ≡ false)
    × (elem (lower (strip s.frequency_unit)) ("minutes" ∷ "hours" ∷ "days" ∷ []) ≡ true)

-- The schedule is valid, and its suite is there.
abbrev pub IsFit : List String → String → Schedule → Type 0
IsFit suites id s = IsValid s × (elem s.test_suite_id suites ≡ true)

delta-some :
    (unit : String) (n : ℕ)
    → elem unit ("minutes" ∷ "hours" ∷ "days" ∷ []) ≡ true
    → (d : ℕ) × (delta unit n ≡ some d)
delta-some unit n h = elim (Bool-cases (unit == "minutes")) [
  | inl m ↦ (n * minute, rw m refl)
  | inr m ↦ elim (Bool-cases (unit == "hours")) [
    | inl o ↦ (n * (60 * minute), rw (m, o) refl)
    | inr o ↦ elim (Bool-cases (unit == "days")) [
      | inl y ↦ (n * (1440 * minute), rw (m, o, y) refl)
      | inr y ↦ absurd (
          ground (
            arith,
            eq_iff "minutes" unit,
            eq_iff unit "minutes",
            eq_iff "hours" unit,
            eq_iff unit "hours",
            eq_iff "days" unit,
            eq_iff unit "days",
          ))
    ]
  ]
]

compute_next_run_at-ok :
    (s : Schedule) (now : ℕ) (reference : Option ℕ)
    → s.active ≡ true
    → IsValid s
    → (next : Option ℕ) × (compute_next_run_at s.active s.frequency_unit s.frequency_value
          s.start_at s.end_at now reference
        ≡ ok next)
unfolding compute_next_run_at
compute_next_run_at-ok s now reference on (positive, window, unit) =
    let (d, known) =
      delta-some (lower (strip s.frequency_unit)) (magnitude s.frequency_value) unit in
    (
      not_after_end s.end_at (candidate_run s.start_at reference now d),
      rw (on, positive, window, known) refl,
    )

pub next_run_or-ok :
    (otherwise : Option ℕ) (s : Schedule) (now : ℕ)
    → IsValid s
    → (next : Option ℕ) × (next_run_or otherwise s now ≡ ok next)
next_run_or-ok otherwise s now valid = elim (Bool-cases s.active) [
  | inl on ↦
      let (next, e) = compute_next_run_at-ok s now (some now) on valid in
      (next, next_run_or-on otherwise s now on ∙ e)
  | inr off ↦ (otherwise, rw off refl)
]

-- The suites, valid schedules, and the schedules that are to be there.
abbrev pub Ready : List String → List String → ScheduleTables → Type 0
Ready suites ids db =
    (db.suites ≡ suites)
    × Every (IsFit suites) db
    × All (λ j. is_some (lookup j db.schedules) ≡ true) ids

IsThere-insert :
    (id : String) (s : Schedule) (ids : List String) (d : Dict Schedule)
    → All (λ j. is_some (lookup j d) ≡ true) ids
    → All (λ j. is_some (lookup j (insert id s d)) ≡ true) ids
IsThere-insert id s [] d h = tt
IsThere-insert id s (j ∷ ids) d h = (here, IsThere-insert id s ids d h.1)
  where
    here : is_some (lookup j (insert id s d)) ≡ true
    here = elim (Bool-cases (id == j)) [
      | inl same ↦ rw (lookup-insert j id s d, same) refl
      | inr ne ↦ rw (lookup-insert j id s d, ne) h.0
    ]

update_found-IsThere :
    (id : String) (f : Schedule → Schedule) (ids : List String) (db : ScheduleTables)
    (o : Option Schedule)
    → All (λ j. is_some (lookup j db.schedules) ≡ true) ids
    → All (λ j. is_some (lookup j (update_found id f db o).schedules) ≡ true) ids
update_found-IsThere id f ids db none h = h
update_found-IsThere id f ids db (some s) h = IsThere-insert id (f s) ids db.schedules h

update_found-suites :
    (id : String) (f : Schedule → Schedule) (db : ScheduleTables) (o : Option Schedule)
    → (update_found id f db o).suites ≡ db.suites
update_found-suites id f db none = refl
update_found-suites id f db (some s) = refl

pub update_fields-Ready :
    (suites ids : List String) (id : String) (f : Schedule → Schedule) (db : ScheduleTables)
    → ((s : Schedule) → IsFit suites id s → IsFit suites id (f s))
    → Ready suites ids db
    → Ready suites ids (update_fields id f db)
unfolding update_fields
update_fields-Ready suites ids id f db keeps (same, fit, there) = (
  update_found-suites id f db (lookup id db.schedules) ∙ same,
  update_fields-Every (IsFit suites) (IsFit suites) id f db keeps (λ j s _ p. p) fit,
  update_found-IsThere id f ids db (lookup id db.schedules) there,
)

refresh_found-Ready :
    (wall : ℕ) (suites ids : List String) (id : String) (o : Option Execution) (db : ScheduleTables)
    → Ready suites ids db
    → Ready suites ids (refresh_found wall id o db)
refresh_found-Ready wall suites ids id none db ready = ready
refresh_found-Ready wall suites ids id (some e) db ready =
    elim (Bool-cases (lower (strip e.status) == "running")) [
      | inl r ↦ rw r ready
      | inr r ↦ rw r (update_fields-Ready suites ids id _ db (λ s fit. fit) ready)
    ]

refresh_each-Ready :
    (wall : ℕ) (suites ids : List String) (running : List (String × Schedule)) (db : ScheduleTables)
    → Ready suites ids db
    → Ready suites ids (refresh_each wall running db)
unfolding refresh_each
refresh_each-Ready wall suites ids [] db ready = ready
refresh_each-Ready wall suites ids ((id, s) ∷ running) db ready =
    refresh_each-Ready wall suites ids running _
      (refresh_found-Ready wall suites ids id (execution_of wall db s.last_execution_id) db ready)

pub refresh-Ready :
    (wall : ℕ) (suites ids : List String) (db : ScheduleTables)
    → Ready suites ids db
    → Ready suites ids (refresh_running_schedule_states wall db)
unfolding refresh_running_schedule_states
refresh-Ready wall suites ids db ready =
    refresh_each-Ready wall suites ids (get_running_schedules db) db ready

AreThere : (d : Dict Schedule) → All (λ (x : String × Schedule). is_some (lookup x.0 d) ≡ true) d
unfolding lookup
AreThere [] = tt
AreThere ((i, s) ∷ d) = (
  rw (eq_refl i) refl,
  All-weaken (λ (x : String × Schedule). is_some (lookup x.0 d) ≡ true) _
      (λ x h. there_behind (i == x.0) (lookup x.0 d) h) d (AreThere d),
)
  where
    there_behind :
        (b : Bool) (o : Option Schedule)
        → is_some o ≡ true
        → is_some (if b then some s else o) ≡ true
    there_behind true o h = refl
    there_behind false o h = h

All-ids_of :
    (P : String → Type 0) (xs : List (String × Schedule))
    → All (λ (x : String × Schedule). P x.0) xs
    → All P (ids_of xs)
All-ids_of P [] h = tt
All-ids_of P (x ∷ xs) h = (h.0, All-ids_of P xs h.1)

pub get_due_schedules-Ready :
    (suites : List String) (now : ℕ) (db : ScheduleTables)
    → Ready suites [] db
    → Ready suites (ids_of (get_due_schedules now db)) db
unfolding get_due_schedules
get_due_schedules-Ready suites now db (same, fit, _) =
    let there = λ (x : String × Schedule). is_some (lookup x.0 db.schedules) ≡ true in
    (
      same,
      fit,
      All-ids_of _ _ (All-sort there _ _ (All-keep there _ db.schedules (AreThere db.schedules))),
    )
