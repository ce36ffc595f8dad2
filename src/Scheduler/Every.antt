-- ===== src/Scheduler/Every.antt =====
-- The rows of the schedules, and what the refresh of their states leaves as it is.
use qsmith.Prelude.{
  ℕ, String, ◌≡◌, refl, ◌∙◌, sym, subst, Option, none, some, Option-cases, Bool-cases, inl, inr,
  List, [], ◌∷◌, ◌==◌,
}
use mathlib.Core.Option.{none-ne-some, some-injective}
use qsmith.Prelude.Dict.{lookup, lookup-insert-some}
use qsmith.Prelude.Text.{strip, lower}
use qsmith.Scheduler.Tables.{
  Schedule, Execution, ScheduleTables, update_fields, get_running_schedules,
}
use qsmith.Scheduler.{refresh_found, refresh_each, execution_of, refresh_running_schedule_states}

-- When a schedule runs next, and from when on at all.
abbrev pub SameTiming : Schedule → Schedule → Type 0
SameTiming s t = (s.active ≡ t.active) × (s.next_run_at ≡ t.next_run_at) × (s.start_at ≡ t.start_at)

abbrev pub Every : (String → Schedule → Type 0) → ScheduleTables → Type 0
Every P db = (id : String) (s : Schedule) → lookup id db.schedules ≡ some s → P id s

module _ (P : String → Schedule → Type 0) where
  -- An update, by what it does to the row that it finds.
  pub update_fields-Every :
      (Q : String → Schedule → Type 0) (id : String) (f : Schedule → Schedule) (db : ScheduleTables)
      → ((s : Schedule) → P id s → Q id (f s))
      → ((j : String) (s : Schedule) → ¬ (id ≡ j) → P j s → Q j s)
      → Every P db
      → Every Q (update_fields id f db)
  unfolding update_fields
  update_fields-Every Q id f db at others h j t found =
      elim (Option-cases (lookup id db.schedules)) [
        | inl gone ↦
            let there = rw gone at found in
            others j t
              (λ e. none-ne-some t (sym (subst (λ x. lookup x db.schedules ≡ none) e gone) ∙ there))
              (h j t there)
        | inr (s, there) ↦ elim (lookup-insert-some id j (f s) t db.schedules (rw there at found)) [
          | inl (here, ft) ↦ subst (λ x. Q x t) here (subst (Q id) ft (at s (h id s there)))
          | inr (other, old) ↦ others j t other (h j t old)
        ]
      ]

-- What the refresh writes of a row.
abbrev pub with_state : String → Option String → ℕ → Schedule → Schedule
with_state status message at s = record s {
  last_status = status;
  last_error_message = message;
  updated_at = at;
}

abbrev pub IsStable : (Schedule → Type 0) → Type 0
IsStable P =
    (s : Schedule) (status : String) (message : Option String) (at : ℕ)
    → P s
    → P (with_state status message at s)

-- What depends on nothing that the refresh writes holds after it as before.
module _ (P : String → Schedule → Type 0) (stable : (id : String) → IsStable (P id)) where
  refresh_found-Every :
      (wall : ℕ) (id : String) (o : Option Execution) (db : ScheduleTables)
      → Every P db
      → Every P (refresh_found wall id o db)
  refresh_found-Every wall id none db h = h
  refresh_found-Every wall id (some e) db h =
      elim (Bool-cases (lower (strip e.status) == "running")) [
        | inl r ↦ rw r h
        | inr r ↦
            rw r (update_fields-Every P P id _ db (λ s p. stable id s _ _ wall p) (λ j s _ p. p) h)
      ]

  refresh_each-Every :
      (wall : ℕ) (running : List (String × Schedule)) (db : ScheduleTables)
      → Every P db
      → Every P (refresh_each wall running db)
  unfolding refresh_each
  refresh_each-Every wall [] db h = h
  refresh_each-Every wall ((id, s) ∷ running) db h =
      refresh_each-Every wall running _
        (refresh_found-Every wall id (execution_of wall db s.last_execution_id) db h)

  pub refresh-Every :
      (wall : ℕ) (db : ScheduleTables)
      → Every P db
      → Every P (refresh_running_schedule_states wall db)
  unfolding refresh_running_schedule_states
  refresh-Every wall db h = refresh_each-Every wall (get_running_schedules db) db h

-- The row of a schedule that was read, as far as its times go.
abbrev pub TimedAs : String → Schedule → String → Schedule → Type 0
TimedAs id s j t = id ≡ j → SameTiming s t

pub TimedAs-stable : (id : String) (s : Schedule) (j : String) → IsStable (TimedAs id s j)
TimedAs-stable id s j t status message at h e = h e

pub TimedAs-lookup :
    (id : String) (s : Schedule) (db : ScheduleTables)
    → lookup id db.schedules ≡ some s
    → Every (TimedAs id s) db
TimedAs-lookup id s db found j t there e =
    subst (SameTiming s)
      (some-injective s t (sym found ∙ subst (λ x. lookup x db.schedules ≡ some t) (sym e) there))
      (refl, refl, refl)
