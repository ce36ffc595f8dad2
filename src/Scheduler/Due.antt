-- ===== src/Scheduler/Due.antt =====
-- A poll leaves no schedule due that could have run.
use mathlib.Core.Bool.{false≢true}
use qsmith.Prelude.{
  ℕ, String, ◌≡◌, refl, ◌∙◌, sym, subst, Bool, true, false, not, ◌&&◌, Option, none, some,
  Bool-cases, inl, inr, List, [], ◌∷◌, elem, arith, Outcome, ok, err, if◌then◌else◌,
}
use qsmith.Prelude.Dict.{lookup}
use qsmith.Scheduler.NextRun.{compute_next_run_at, compute_next_run_at_bounds}
use qsmith.Scheduler.Waiting.{
  IsHandled, Waits, Waits-stable, Left, ids_of, update_fields-handles, Left-drop,
  get_due_schedules-Left,
}
use qsmith.Scheduler.Every.{Every, TimedAs, TimedAs-stable, TimedAs-lookup, refresh-Every}
use qsmith.Scheduler.Tables.{
  Schedule, ScheduleTables, Start, PollState, TriggerResult, is_at_or_before, is_due,
  get_due_schedules, has_running_execution,
}
use qsmith.Scheduler.{
  is_after, is_before, next_run_or, update_with, after_failure, after_execute, event_of, skip_run,
  managed_session, refreshed, trigger_found, trigger_in_session, trigger_schedule, trigger_each,
  process_due_schedules, then_rest, add_result,
}

-- Where the code does not raise.
abbrev After : {A : Type 0} → ℕ → List String → Outcome A × PollState → Type 0
After now ids (ok a, sys) = Left now ids sys.db
After now ids (err message, sys) = Unit

pub next_run_or-on :
    (otherwise : Option ℕ) (s : Schedule) (now : ℕ)
    → s.active ≡ true
    → next_run_or otherwise s now
      ≡ compute_next_run_at s.active s.frequency_unit s.frequency_value s.start_at s.end_at now
          (some now)
next_run_or-on otherwise s now on = rw on refl

-- The next run of a schedule that is on is not due now.
next_run_or-later :
    (otherwise : Option ℕ) (s : Schedule) (now : ℕ) (next : Option ℕ)
    → s.active ≡ true
    → next_run_or otherwise s now ≡ ok next
    → is_at_or_before now next ≡ false
next_run_or-later otherwise s now none on e = refl
next_run_or-later otherwise s now (some t) on e =
    let later =
      (compute_next_run_at_bounds s.active s.frequency_unit s.frequency_value s.start_at s.end_at
        (some now) now t (sym (next_run_or-on otherwise s now on) ∙ e)).0 in
    ground (arith, later)

and_false : (b : Bool) → (b && false) ≡ false
and_false true = refl
and_false false = refl

update_with-After :
    (now : ℕ) (ids : List String) (id : String) (f : Option ℕ → Schedule → Schedule)
    (r : TriggerResult) (o : Outcome (Option ℕ)) (sys : PollState)
    → ((next : Option ℕ) → o ≡ ok next → (s : Schedule) → is_due now (f next s) ≡ false)
    → Left now (id ∷ ids) sys.db
    → After now ids (update_with id f r o sys)
update_with-After now ids id f r (err message) sys h left = tt
update_with-After now ids id f r (ok next) sys h left =
    update_fields-handles now ids id (f next) sys.db (h next refl) left

after_failure-After :
    (now : ℕ) (ids : List String) (id message : String) (o : Outcome (Option ℕ)) (sys : PollState)
    → After now ids (after_failure id message now o sys)
after_failure-After now ids id message (err other) sys = tt
after_failure-After now ids id message (ok next) sys = tt

managed_session-After :
    {A : Type 0}
    → (now : ℕ) (ids : List String) (before : ScheduleTables) (m : Outcome A × PollState)
    → After now ids m
    → After now ids (managed_session before m)
managed_session-After now ids before (ok a, sys) h = h
managed_session-After now ids before (err message, sys) h = tt

due_when_later :
    (now : ℕ) (next : Option ℕ) (b : Bool)
    → is_at_or_before now next ≡ false
    → (b && is_at_or_before now next) ≡ false
due_when_later now next b h = rw h (and_false b)

after_execute-After :
    (now : ℕ) (ids : List String) (id : String) (s : Schedule) (o : Outcome String)
    (sys : PollState)
    → s.active ≡ true
    → Left now (id ∷ ids) sys.db
    → After now ids (after_execute id s now o sys)
after_execute-After now ids id s (err message) sys on left =
    after_failure-After now ids id message (next_run_or none s now) sys
after_execute-After now ids id s (ok execution_id) sys on left =
    update_with-After now ids id _ _ (next_run_or none s now) _
      (λ next e t. due_when_later now next t.active (next_run_or-later none s now next on e)) left

skip_run-After :
    (now : ℕ) (ids : List String) (id : String) (s : Schedule) (sys : PollState)
    → s.active ≡ true
    → Left now (id ∷ ids) sys.db
    → After now ids (skip_run id s now sys)
skip_run-After now ids id s sys on left =
    update_with-After now ids id _ _ (next_run_or s.next_run_at s now) sys
      (λ next e t.
        due_when_later now next t.active (next_run_or-later s.next_run_at s now next on e))
      left

if-After :
    {A : Type 0}
    → (now : ℕ) (ids : List String) (b : Bool) (x y : Outcome A × PollState)
    → (b ≡ true → After now ids x)
    → (b ≡ false → After now ids y)
    → After now ids (if b then x else y)
if-After now ids true x y h k = h refl
if-After now ids false x y h k = k refl

module _ (wall : ℕ) (execute : Start → PollState → Outcome String) where
  trigger_found-After :
      (now : ℕ) (ids : List String) (id : String) (s : Schedule) (sys : PollState)
      → Every (TimedAs id s) sys.db
      → Left now (id ∷ ids) sys.db
      → After now ids (trigger_found wall execute false id s now sys)
  trigger_found-After now ids id s sys timed left =
      if-After now ids (not s.active) _ _
        (λ off. Left-drop now ids id s sys.db (inl (ground arith)) timed left)
        (λ on.
          if-After now ids (is_after s.start_at now && true) _ _
            (λ early. Left-drop now ids id s sys.db (inr (ground arith)) timed left)
            (λ _.
              if-After now ids (is_before s.end_at now && true) _ _
                (λ _. update_fields-handles now ids id _ sys.db (λ t. refl) left)
                (λ _.
                  if-After now ids (has_running_execution sys.db s.test_suite_id) _ _
                    (λ _. skip_run-After now ids id s sys (ground arith) left)
                    (λ _.
                      after_execute-After now ids id s (execute (event_of id s) sys) sys
                        (ground arith) left))))

  trigger_in_session-After :
      (now : ℕ) (ids : List String) (id : String) (o : Option Schedule) (sys : PollState)
      → lookup id sys.db.schedules ≡ o
      → Left now (id ∷ ids) sys.db
      → After now ids (trigger_in_session wall execute false id now o sys)
  trigger_in_session-After now ids id none sys found left = tt
  trigger_in_session-After now ids id (some s) sys found left =
      elim (Bool-cases (elem s.test_suite_id sys.db.suites)) [
        | inr gone ↦ rw gone tt
        | inl there ↦ rw there (
            trigger_found-After now ids id s (refreshed wall sys)
              (refresh-Every (TimedAs id s) (TimedAs-stable id s) wall sys.db
                (TimedAs-lookup id s sys.db found))
              (refresh-Every (Waits now (id ∷ ids)) (Waits-stable now (id ∷ ids)) wall sys.db left))
      ]

  trigger_schedule-After :
      (now : ℕ) (ids : List String) (id : String) (sys : PollState)
      → Left now (id ∷ ids) sys.db
      → After now ids (trigger_schedule wall execute false id now sys)
  unfolding trigger_schedule
  trigger_schedule-After now ids id sys left =
      managed_session-After now ids sys.db
        (trigger_in_session wall execute false id now (lookup id sys.db.schedules) sys)
        (trigger_in_session-After now ids id (lookup id sys.db.schedules) sys refl left)

  add_result-After :
      (now : ℕ) (r : TriggerResult) (m : Outcome (List TriggerResult) × PollState)
      → After now [] m
      → After now [] (add_result r m)
  add_result-After now r (ok rs, sys) h = h
  add_result-After now r (err message, sys) h = tt

  then_rest-After :
      (now : ℕ) (ids : List String) (later : PollState → Outcome (List TriggerResult) × PollState)
      (m : Outcome TriggerResult × PollState)
      → ((sys : PollState) → Left now ids sys.db → After now [] (later sys))
      → After now ids m
      → After now [] (then_rest later m)
  then_rest-After now ids later (ok r, sys) h left = add_result-After now r (later sys) (h sys left)
  then_rest-After now ids later (err message, sys) h left = tt

  trigger_each-After :
      (now : ℕ) (due : List (String × Schedule)) (sys : PollState)
      → Left now (ids_of due) sys.db
      → After now [] (trigger_each wall execute due now sys)
  unfolding trigger_each
  trigger_each-After now [] sys left = left
  trigger_each-After now ((id, s) ∷ due) sys left =
      let ids = ids_of due in
      then_rest-After now ids (trigger_each wall execute due now)
        (trigger_schedule wall execute false id now sys) (trigger_each-After now due)
        (trigger_schedule-After now ids id sys left)

-- Where a poll raises nothing, it leaves no schedule due whose window has begun: in the database
-- after it, each schedule is off, or has no next run or one that is later than the poll's time, or
-- starts later than that.
pub process_due_schedules-IsHandled :
    (wall : ℕ) (execute : Start → PollState → Outcome String) (now : ℕ) (sys sys' : PollState)
    (results : List TriggerResult) (id : String) (s : Schedule)
    → process_due_schedules wall execute now sys ≡ (ok results, sys')
    → lookup id sys'.db.schedules ≡ some s
    → IsHandled now s
unfolding process_due_schedules
process_due_schedules-IsHandled wall execute now sys sys' results id s polled found =
    let start = refreshed wall sys in
    elim (subst (After now []) polled
      (trigger_each-After wall execute now (get_due_schedules now start.db) start
        (get_due_schedules-Left now start.db))
      id s found) [ inl handled ↦ handled | inr waits ↦ absurd (false≢true waits) ]
