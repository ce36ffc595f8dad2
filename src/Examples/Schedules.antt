-- ===== src/Examples/Schedules.antt =====
-- The theorems on schedules, at one that is due and one that is not.
use mathlib.Core.Option.{none-ne-some, some-injective}
use qsmith.Prelude.{
  ◌<◌, ◌≤◌, String, ◌≡◌, refl, subst, inl, inr, Bool-cases, true, none, some, List, [], ◌∷◌, All,
  Outcome, ok, ◌==◌,
}
use qsmith.Prelude.Dict.{Dict, lookup, insert}
use qsmith.Prelude.Int.{pos}
use qsmith.Prelude.Sort.{sort, put_in}
use qsmith.Prelude.Text.{strip, lower, is_space}
use qsmith.Scheduler.Tables.{
  Schedule, Execution, Start, PollState, TriggerResult, get_due_schedules, get_running_schedules,
  update_fields, has_running_execution,
}
use qsmith.Scheduler.{
  process_due_schedules, trigger_each, trigger_schedule, refresh_running_schedule_states,
  refresh_each,
}
use qsmith.Scheduler.NextRun.{compute_next_run_at, compute_next_run_at_bounds}
use qsmith.Scheduler.Ready.{IsFit}
use qsmith.Scheduler.Waiting.{IsHandled}
use qsmith.Scheduler.Returns.{process_due_schedules_returns}

abbrev hourly : Schedule
hourly = record {
  test_suite_id = "suite";
  description = "every hour";
  active = true;
  frequency_unit = "hours";
  frequency_value = pos 1;
  start_at = some 5;
  end_at = none;
  next_run_at = some 20;
  last_run_at = none;
  last_status = "idle";
  last_execution_id = none;
  last_error_message = none;
  updated_at = 5;
}

-- Its last run has ended in the meantime.
abbrev daily : Schedule
daily = record hourly {
  frequency_unit = "days";
  next_run_at = some 90;
  last_status = "running";
  last_execution_id = some "e1";
}

abbrev ended : Execution
ended = record { test_suite_id = "suite"; status = "success"; error_message = "" }

abbrev polled_system : PollState
polled_system = record {
  db = record {
    schedules = ("h", hourly) ∷ ("d", daily) ∷ [];
    executions = ("e1", ended) ∷ [];
    suites = "suite" ∷ [];
  };
  started = [];
}

abbrev start_e2 : Start → PollState → Outcome String
start_e2 start sys = ok "e2"

starts_hourly :
    (let (r, sys) = process_due_schedules 31 start_e2 30 polled_system in sys.started) ≡ (
      record { test_suite_id = "suite"; schedule_id = "h"; schedule_description = "every hour" }
      ∷ [])
unfolding process_due_schedules trigger_each trigger_schedule get_due_schedules
    refresh_running_schedule_states refresh_each get_running_schedules update_fields
    has_running_execution compute_next_run_at sort put_in lookup insert strip lower is_space
starts_hourly = refl

hourly_next_run_at :
    compute_next_run_at true "hours" (pos 1) (some 5) (some 4000000000) 30 (some 30)
    ≡ ok (some 3600000030)
unfolding compute_next_run_at strip lower is_space
hourly_next_run_at = refl

compute_next_run_at_bounds_example :
    (30 < 3600000030) × (5 ≤ 3600000030) × (3600000030 ≤ 4000000000)
compute_next_run_at_bounds_example =
    compute_next_run_at_bounds true "hours" (pos 1) (some 5) (some 4000000000) (some 30) 30
      3600000030 hourly_next_run_at

lookup-All :
    (P : Schedule → Type 0) (d : Dict Schedule)
    → All (λ (x : String × Schedule). P x.1) d
    → (id : String) (s : Schedule) → lookup id d ≡ some s
    → P s
unfolding lookup
lookup-All P [] h id s found = absurd (none-ne-some s found)
lookup-All P ((j, t) ∷ d) h id s found = elim (Bool-cases (j == id)) [
  | inl same ↦ subst P (some-injective t s (rw same at found)) h.0
  | inr ne ↦ lookup-All P d h.1 id s (rw ne at found)
]

polled-IsFit :
    (id : String) (s : Schedule)
    → lookup id polled_system.db.schedules ≡ some s
    → IsFit polled_system.db.suites id s
unfolding strip lower is_space
polled-IsFit id s found =
    lookup-All (IsFit ("suite" ∷ []) "") polled_system.db.schedules
      (((refl, refl, refl), refl), (((refl, refl, refl), refl), tt)) id s found

process_due_schedules_returns_example :
    (results : List TriggerResult) × (sys' : PollState) × (process_due_schedules 31 start_e2 30
        polled_system
      ≡ (ok results, sys'))
    × ((id : String) (s : Schedule) → lookup id sys'.db.schedules ≡ some s → IsHandled 30 s)
process_due_schedules_returns_example =
    process_due_schedules_returns 31 start_e2 30 polled_system (λ start sys. refl) polled-IsFit
