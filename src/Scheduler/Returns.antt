-- ===== src/Scheduler/Returns.antt =====
-- A poll over valid schedules raises nothing.
use mathlib.Core.Bool.{false≢true}
use qsmith.Prelude.{
  ℕ, String, ◌≡◌, refl, sym, subst, Bool, true, false, not, ◌&&◌, Option, none, some, List, [], ◌∷◌,
  elem, Outcome, ok, err, is_ok, err-ne-ok, if◌then◌else◌,
}
use qsmith.Prelude.Dict.{lookup}
use qsmith.Scheduler.Waiting.{IsHandled, ids_of}
use qsmith.Scheduler.Due.{process_due_schedules-IsHandled}
use qsmith.Scheduler.Ready.{
  IsValid, IsFit, Ready, next_run_or-ok, update_fields-Ready, refresh-Ready,
  get_due_schedules-Ready,
}
use qsmith.Scheduler.Tables.{
  Schedule, ScheduleTables, Start, PollState, TriggerResult, get_due_schedules,
  has_running_execution,
}
use qsmith.Scheduler.{
  next_run_or, update_with, after_execute, event_of, is_after, is_before, managed_session,
  refreshed, trigger_found, trigger_in_session, trigger_schedule, trigger_each,
  process_due_schedules, then_rest, add_result,
}

abbrev Returns : {A : Type 0} → List String → List String → Outcome A × PollState → Type 0
Returns suites ids (ok a, sys) = Ready suites ids sys.db
Returns suites ids (err message, sys) = ⊥

managed_session-Returns :
    {A : Type 0}
    → (suites ids : List String) (before : ScheduleTables) (m : Outcome A × PollState)
    → Returns suites ids m
    → Returns suites ids (managed_session before m)
managed_session-Returns suites ids before (ok a, sys) h = h
managed_session-Returns suites ids before (err message, sys) h = h

update_with-Returns :
    (suites ids : List String) (id : String) (f : Option ℕ → Schedule → Schedule)
    (r : TriggerResult) (o : Outcome (Option ℕ)) (sys : PollState)
    → (next : Option ℕ) × (o ≡ ok next)
    → ((next : Option ℕ) (s : Schedule) → IsFit suites id s → IsFit suites id (f next s))
    → Ready suites ids sys.db
    → Returns suites ids (update_with id f r o sys)
update_with-Returns suites ids id f r (ok next) sys h keeps ready =
    update_fields-Ready suites ids id (f next) sys.db (keeps next) ready
update_with-Returns suites ids id f r (err message) sys (next, e) keeps ready =
    absurd (err-ne-ok message next e)

after_execute-Returns :
    (suites ids : List String) (id : String) (s : Schedule) (now : ℕ) (o : Outcome String)
    (sys : PollState)
    → is_ok o ≡ true
    → IsValid s
    → Ready suites ids sys.db
    → Returns suites ids (after_execute id s now o sys)
after_execute-Returns suites ids id s now (ok execution_id) sys h valid ready =
    update_with-Returns suites ids id _ _ (next_run_or none s now) _
      (next_run_or-ok none s now valid) (λ next t fit. fit) ready
after_execute-Returns suites ids id s now (err message) sys h valid ready = absurd (false≢true h)

if-Returns :
    {A : Type 0}
    → (suites ids : List String) (b : Bool) (x y : Outcome A × PollState) → Returns suites ids x
    → Returns suites ids y
    → Returns suites ids (if b then x else y)
if-Returns suites ids true x y h k = h
if-Returns suites ids false x y h k = k

module _ (wall : ℕ) (execute : Start → PollState → Outcome String)
    (starts : (e : Start) (sys : PollState) → is_ok (execute e sys) ≡ true) where
  trigger_found-Returns :
      (suites ids : List String) (manual : Bool) (id : String) (s : Schedule) (now : ℕ)
      (sys : PollState)
      → IsValid s
      → Ready suites ids sys.db
      → Returns suites ids (trigger_found wall execute manual id s now sys)
  trigger_found-Returns suites ids manual id s now sys valid ready =
      if-Returns suites ids (not manual && not s.active) _ _ ready (
        if-Returns suites ids (is_after s.start_at now && not manual) _ _ ready (
          if-Returns suites ids (is_before s.end_at now && not manual) _ _
            (update_fields-Ready suites ids id _ sys.db (λ t fit. fit) ready)
            (if-Returns suites ids (has_running_execution sys.db s.test_suite_id) _ _
              (update_with-Returns suites ids id _ _ (next_run_or s.next_run_at s now) sys
                (next_run_or-ok s.next_run_at s now valid) (λ next t fit. fit) ready)
              (after_execute-Returns suites ids id s now (execute (event_of id s) sys) sys
                (starts (event_of id s) sys) valid ready))))

  trigger_in_session-Returns :
      (suites ids : List String) (manual : Bool) (id : String) (now : ℕ) (o : Option Schedule)
      (sys : PollState)
      → lookup id sys.db.schedules ≡ o
      → Ready suites (id ∷ ids) sys.db
      → Returns suites ids (trigger_in_session wall execute manual id now o sys)
  trigger_in_session-Returns suites ids manual id now none sys found (same, fit, there) =
      absurd (false≢true (rw found at there.0))
  trigger_in_session-Returns suites ids manual id now (some s) sys found (same, fit, there) =
      let (valid, suite) = fit id s found in
      let present = subst (λ x. elem s.test_suite_id x ≡ true) (sym same) suite in
      rw present (
        trigger_found-Returns suites ids manual id s now (refreshed wall sys) valid
          (refresh-Ready wall suites ids sys.db (same, fit, there.1)))

  trigger_schedule-Returns :
      (suites ids : List String) (manual : Bool) (id : String) (now : ℕ) (sys : PollState)
      → Ready suites (id ∷ ids) sys.db
      → Returns suites ids (trigger_schedule wall execute manual id now sys)
  unfolding trigger_schedule
  trigger_schedule-Returns suites ids manual id now sys ready =
      managed_session-Returns suites ids sys.db
        (trigger_in_session wall execute manual id now (lookup id sys.db.schedules) sys)
        (trigger_in_session-Returns suites ids manual id now (lookup id sys.db.schedules) sys refl
          ready)

  add_result-Returns :
      (suites ids : List String) (r : TriggerResult) (m : Outcome (List TriggerResult) × PollState)
      → Returns suites ids m
      → Returns suites ids (add_result r m)
  add_result-Returns suites ids r (ok rs, sys) h = h
  add_result-Returns suites ids r (err message, sys) h = h

  then_rest-Returns :
      (suites ids : List String) (later : PollState → Outcome (List TriggerResult) × PollState)
      (m : Outcome TriggerResult × PollState)
      → ((sys : PollState) → Ready suites ids sys.db → Returns suites [] (later sys))
      → Returns suites ids m
      → Returns suites [] (then_rest later m)
  then_rest-Returns suites ids later (ok r, sys) h ready =
      add_result-Returns suites [] r (later sys) (h sys ready)
  then_rest-Returns suites ids later (err message, sys) h ready = absurd ready

  trigger_each-Returns :
      (suites : List String) (due : List (String × Schedule)) (now : ℕ) (sys : PollState)
      → Ready suites (ids_of due) sys.db
      → Returns suites [] (trigger_each wall execute due now sys)
  unfolding trigger_each
  trigger_each-Returns suites [] now sys ready = ready
  trigger_each-Returns suites ((id, s) ∷ due) now sys ready =
      then_rest-Returns suites (ids_of due) (trigger_each wall execute due now)
        (trigger_schedule wall execute false id now sys)
        (λ later. trigger_each-Returns suites due now later)
        (trigger_schedule-Returns suites (ids_of due) false id now sys ready)

Returns-ok :
    {A : Type 0}
    → (suites ids : List String) (m : Outcome A × PollState) → Returns suites ids m
    → (a : A) × (sys : PollState) × (m ≡ (ok a, sys))
Returns-ok suites ids (ok a, sys) h = (a, sys, refl)
Returns-ok suites ids (err message, sys) h = absurd h

-- A poll raises nothing and leaves no schedule due, where every schedule has a suite that is there,
-- a frequency that is positive and of a known unit, and a window that is not empty, and where every
-- run can be started: in the database after it, each schedule is off, or has no next run or one
-- that is later than the poll's time, or starts later than that.
pub process_due_schedules_returns :
    (wall : ℕ) (execute : Start → PollState → Outcome String) (now : ℕ) (sys : PollState)
    → ((e : Start) (sys : PollState) → is_ok (execute e sys) ≡ true)
    → ((id : String) (s : Schedule)
        → lookup id sys.db.schedules ≡ some s
        → IsFit sys.db.suites id s)
    → (results : List TriggerResult) × (sys' : PollState) × (process_due_schedules wall execute now
          sys
        ≡ (ok results, sys'))
      × ((id : String) (s : Schedule) → lookup id sys'.db.schedules ≡ some s → IsHandled now s)
unfolding process_due_schedules
process_due_schedules_returns wall execute now sys starts fit =
    let suites = sys.db.suites in
    let start = refreshed wall sys in
    let ready =
      get_due_schedules-Ready suites now start.db
        (refresh-Ready wall suites [] sys.db (refl, fit, tt)) in
    let due = get_due_schedules now start.db in
    let (results, sys', polled) =
      Returns-ok suites [] _
        (trigger_each-Returns wall execute starts suites due now start ready) in
    (
      results,
      sys',
      polled,
      λ id s found.
          process_due_schedules-IsHandled wall execute now sys sys' results id s polled found,
    )
