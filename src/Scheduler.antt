-- ===== src/Scheduler.antt =====
-- app/elaborations/services/test_suite_schedules/test_suite_scheduler_service.py, and what it calls
-- of app/elaborations/services/alembic/test_suite_schedule_service.py.
pub mod NextRun
pub mod Tables
pub mod Every
pub mod Waiting
pub mod Due
pub mod Ready
pub mod Returns
use qsmith.Prelude.{
  ℕ, ◌+◌, ◌<◌, String, Bool, true, false, not, ◌&&◌, ◌||◌, Option, none, some, List, [], ◌∷◌, ◌++◌,
  map, keep, any, elem, ltb, leb, eqb, Outcome, ok, err, Exec, ◌==◌, if◌then◌else◌,
}
use qsmith.Prelude.Dict.{Dict, lookup, insert}
use qsmith.Prelude.Int.{ℤ}
use qsmith.Prelude.Sort.{sort}
use qsmith.Prelude.Text.{strip, is_empty, lower, ◌<>◌}
use qsmith.Scheduler.NextRun.{compute_next_run_at}
use Prim.Native.String as Text
use Prim.Native.Nat.{Ordering}
use qsmith.Scheduler.Tables.{
  Schedule, Execution, ScheduleTables, Start, PollState, TriggerResult, update_found, update_fields,
  is_at_or_before, is_due, time_or_zero, by_time_and_id, get_due_schedules, is_not_null,
  get_running_schedules, has_running_execution,
}

abbrev pub text_or_none : String → Option String
text_or_none s = if is_empty s then none else some s

abbrev pub status_or_error : String → String
status_or_error s = if is_empty s then "error" else s

abbrev pub trigger_result : String → Schedule → String → Option String → String → TriggerResult
trigger_result id s status execution_id message = record {
  id = id;
  test_suite_id = s.test_suite_id;
  status = status;
  execution_id = execution_id;
  message = message;
}

abbrev pub is_after : Option ℕ → ℕ → Bool
is_after none now = false
is_after (some t) now = ltb now t

abbrev pub is_before : Option ℕ → ℕ → Bool
is_before none now = false
is_before (some t) now = ltb t now

-- The next run after one at `now`, or `otherwise` where the schedule is off.
abbrev pub next_run_or : Option ℕ → Schedule → ℕ → Outcome (Option ℕ)
next_run_or otherwise s now =
    if s.active
    then compute_next_run_at s.active s.frequency_unit s.frequency_value s.start_at s.end_at now
        (some now)
    else ok otherwise

-- The database after an update, with the result; or the error of the computation that it needs.
abbrev pub update_with :
    String
    → (Option ℕ → Schedule → Schedule)
    → TriggerResult
    → Outcome (Option ℕ)
    → Exec PollState TriggerResult
update_with id f r (err message) sys = (err message, sys)
update_with id f r (ok next) sys = (ok r, record sys { db = update_fields id (f next) sys.db })

abbrev pub skip_message : String
skip_message = "Skipped because the suite is already running."

abbrev pub after_start : String → Schedule → ℕ → String → Exec PollState TriggerResult
after_start id s now execution_id sys =
    update_with id
      (λ (next : Option ℕ) (t : Schedule). record t {
        next_run_at = next;
        last_run_at = some now;
        last_status = "running";
        last_execution_id = some execution_id;
        last_error_message = none;
        updated_at = now;
      })
      (trigger_result id s "started" (some execution_id) "Scheduled execution started.")
      (next_run_or none s now) sys

-- The update of the `except` branch, and the exception again.
abbrev pub after_failure : String → String → ℕ → Outcome (Option ℕ) → Exec PollState TriggerResult
after_failure id message now (err other) sys = (err other, sys)
after_failure id message now (ok next) sys = (
  err message,
  record sys {
    db =
        update_fields id
          (λ (t : Schedule). record t {
            next_run_at = next;
            last_status = "error";
            last_error_message = some message;
            updated_at = now;
          })
          sys.db;
  },
)

abbrev pub event_of : String → Schedule → Start
event_of id s = record {
  test_suite_id = s.test_suite_id;
  schedule_id = id;
  schedule_description = s.description;
}

abbrev pub after_execute : String → Schedule → ℕ → Outcome String → Exec PollState TriggerResult
after_execute id s now (err message) sys = after_failure id message now (next_run_or none s now) sys
after_execute id s now (ok execution_id) sys =
    after_start id s now execution_id (record sys { started = sys.started ++ (event_of id s ∷ []) })

abbrev pub skip_run : String → Schedule → ℕ → Exec PollState TriggerResult
skip_run id s now sys =
    update_with id
      (λ (next : Option ℕ) (t : Schedule). record t {
        next_run_at = next;
        last_status = "skipped";
        last_error_message = some skip_message;
        updated_at = now;
      })
      (trigger_result id s "skipped" none skip_message) (next_run_or s.next_run_at s now) sys

abbrev pub expire : String → Schedule → ℕ → Exec PollState TriggerResult
expire id s now sys = (
  ok (trigger_result id s "expired" none "Schedule validity window has ended."),
  record sys {
    db =
        update_fields id
          (λ (t : Schedule). record t {
            active = false;
            next_run_at = none;
            last_status = "idle";
            updated_at = now;
          })
          sys.db;
  },
)

-- `managed_session`: a raise rolls the database back. A thread that was started stays started.
abbrev pub managed_session :
    {A : Type 0} → ScheduleTables → Outcome A × PollState → Outcome A × PollState
managed_session before (ok a, sys) = (ok a, sys)
managed_session before (err message, sys) = (err message, record sys { db = before })

abbrev pub add_result :
    TriggerResult
    → Outcome (List TriggerResult) × PollState
    → Outcome (List TriggerResult) × PollState
add_result r (ok rs, sys) = (ok (r ∷ rs), sys)
add_result r (err message, sys) = (err message, sys)

abbrev pub then_rest :
    (PollState → Outcome (List TriggerResult) × PollState)
    → Outcome TriggerResult × PollState
    → Outcome (List TriggerResult) × PollState
then_rest later (ok r, sys) = add_result r (later sys)
then_rest later (err message, sys) = (err message, sys)

-- `wall` is the time that `utc_now` gives while states are refreshed.
module _ (wall : ℕ) where
  abbrev pub refresh_found : String → Option Execution → ScheduleTables → ScheduleTables
  refresh_found id none db = db
  refresh_found id (some e) db =
      let status = lower (strip e.status) in
      if status == "running"
      then db
      else update_fields id
          (λ (s : Schedule). record s {
            last_status = status_or_error status;
            last_error_message = text_or_none (strip e.error_message);
            updated_at = wall;
          })
          db

  abbrev pub execution_of : ScheduleTables → Option String → Option Execution
  execution_of db none = none
  execution_of db (some id) = if is_empty (strip id) then none else lookup (strip id) db.executions

  unfoldable pub refresh_each : List (String × Schedule) → ScheduleTables → ScheduleTables
  unfolding update_fields strip lower
  refresh_each [] db = db
  refresh_each ((id, s) ∷ rest) db =
      refresh_each rest (refresh_found id (execution_of db s.last_execution_id) db)

  -- `_refresh_running_schedule_states`; the count that it answers is not read.
  unfoldable pub refresh_running_schedule_states : ScheduleTables → ScheduleTables
  unfolding refresh_each get_running_schedules
  refresh_running_schedule_states db = refresh_each (get_running_schedules db) db

  abbrev pub refreshed : PollState → PollState
  refreshed sys = record sys { db = refresh_running_schedule_states sys.db }

  -- `execute` is `execute_test_suite_by_id`, which starts a thread and gives an identifier.
  module _ (execute : Start → PollState → Outcome String) where
    abbrev pub start_run : String → Schedule → ℕ → Exec PollState TriggerResult
    start_run id s now sys = after_execute id s now (execute (event_of id s) sys) sys

    abbrev pub trigger_found : Bool → String → Schedule → ℕ → Exec PollState TriggerResult
    trigger_found manual id s now sys =
        if not manual && not s.active
        then (ok (trigger_result id s "inactive" none "Schedule is inactive."), sys)
        else if is_after s.start_at now && not manual
        then (
          ok (trigger_result id s "not_due" none "Schedule is not within the active window yet."),
          sys,
        )
        else if is_before s.end_at now && not manual
        then expire id s now sys
        else if has_running_execution sys.db s.test_suite_id
        then skip_run id s now sys
        else start_run id s now sys

    abbrev pub trigger_in_session :
        Bool → String → ℕ → Option Schedule → Exec PollState TriggerResult
    trigger_in_session manual id now none sys =
        (err ("No test suite schedule found with id [ " <> (id <> " ]")), sys)
    trigger_in_session manual id now (some s) sys =
        if not (elem s.test_suite_id sys.db.suites)
        then (err ("No test suite found with id [ " <> (s.test_suite_id <> " ]")), sys)
        else trigger_found manual id s now (refreshed sys)

    unfoldable pub trigger_schedule : Bool → String → ℕ → Exec PollState TriggerResult
    unfolding refresh_running_schedule_states has_running_execution
    trigger_schedule manual id now sys =
        managed_session sys.db (trigger_in_session manual id now (lookup id sys.db.schedules) sys)

    -- The loop of `process_due_schedules`. A raise ends it.
    unfoldable pub trigger_each : List (String × Schedule) → ℕ → Exec PollState (List TriggerResult)
    unfolding trigger_schedule
    trigger_each [] now sys = (ok [], sys)
    trigger_each ((id, s) ∷ rest) now sys =
        then_rest (trigger_each rest now) (trigger_schedule false id now sys)

    unfoldable pub process_due_schedules : ℕ → Exec PollState (List TriggerResult)
    unfolding trigger_each get_due_schedules
    process_due_schedules now sys =
        let sys' = refreshed sys in trigger_each (get_due_schedules now sys'.db) now sys'
