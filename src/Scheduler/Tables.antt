-- ===== src/Scheduler/Tables.antt =====
-- The rows of the schedules and of the executions, and the queries of
-- app/elaborations/services/alembic/test_suite_schedule_service.py on them.
use qsmith.Prelude.{
  ℕ, String, Bool, true, false, ◌&&◌, ◌||◌, Option, none, some, List, keep, any, ltb, leb, eqb,
  ◌==◌,
}
use qsmith.Prelude.Dict.{Dict, lookup, insert}
use qsmith.Prelude.Int.{ℤ}
use qsmith.Prelude.Sort.{sort}
use Prim.Native.String as Text
use Prim.Native.Nat.{Ordering}

-- Times are microseconds. An empty text stands for a column that is null or empty.
pub record Schedule : Type 0 where
  pub test_suite_id : String
  pub description : String
  pub active : Bool
  pub frequency_unit : String
  pub frequency_value : ℤ
  pub start_at : Option ℕ
  pub end_at : Option ℕ
  pub next_run_at : Option ℕ
  pub last_run_at : Option ℕ
  pub last_status : String
  pub last_execution_id : Option String
  pub last_error_message : Option String
  pub updated_at : ℕ

pub record Execution : Type 0 where
  pub test_suite_id : String
  pub status : String
  pub error_message : String

-- The tables, by identifier, as the transactions that have been committed left them.
pub record ScheduleTables : Type 0 where
  pub schedules : Dict Schedule
  pub executions : Dict Execution
  pub suites : List String

-- What `execute_test_suite_by_id` was called with: the suite, and the schedule of the run's event.
pub record Start : Type 0 where
  pub test_suite_id : String
  pub schedule_id : String
  pub schedule_description : String

pub record PollState : Type 0 where
  pub db : ScheduleTables
  pub started : List Start

pub record TriggerResult : Type 0 where
  pub id : String
  pub test_suite_id : String
  pub status : String
  pub execution_id : Option String
  pub message : String

abbrev pub update_found :
    String → (Schedule → Schedule) → ScheduleTables → Option Schedule → ScheduleTables
update_found id f db none = db
update_found id f db (some s) = record db { schedules = insert id (f s) db.schedules }

-- `update_fields`, the fields written as a function
unfoldable pub update_fields : String → (Schedule → Schedule) → ScheduleTables → ScheduleTables
update_fields id f db = update_found id f db (lookup id db.schedules)

abbrev pub is_at_or_before : ℕ → Option ℕ → Bool
is_at_or_before now none = false
is_at_or_before now (some t) = leb t now

-- The filter of `get_due_schedules`.
abbrev pub is_due : ℕ → Schedule → Bool
is_due now s = s.active && is_at_or_before now s.next_run_at

abbrev pub time_or_zero : Option ℕ → ℕ
time_or_zero none = 0
time_or_zero (some t) = t

-- The order of a time and, where the times are the same, of the identifiers.
abbrev pub by_time_and_id : (Schedule → ℕ) → String × Schedule → String × Schedule → Bool
by_time_and_id time (i, s) (j, t) =
    ltb (time s) (time t)
    || (eqb (time s) (time t) && elim (Text.compare i j) [ Ordering.lt ↦ true | _ ↦ false ])

unfoldable pub get_due_schedules : ℕ → ScheduleTables → List (String × Schedule)
get_due_schedules now db =
    sort (by_time_and_id (λ (s : Schedule). time_or_zero s.next_run_at))
      (keep (λ ((id, s) : String × Schedule). is_due now s) db.schedules)

abbrev pub is_not_null : Option String → Bool
is_not_null none = false
is_not_null (some s) = true

unfoldable pub get_running_schedules : ScheduleTables → List (String × Schedule)
get_running_schedules db = sort (by_time_and_id (λ (s : Schedule). s.updated_at)) (
    keep
      (λ ((id, s) : String × Schedule).
        (s.last_status == "running") && is_not_null s.last_execution_id)
      db.schedules)

unfoldable pub has_running_execution : ScheduleTables → String → Bool
has_running_execution db suite_id =
    any (λ ((id, e) : String × Execution). (e.test_suite_id == suite_id) && (e.status == "running"))
      db.executions
