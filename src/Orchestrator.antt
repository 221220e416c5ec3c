-- ===== src/Orchestrator.antt =====
-- app/autonomous_orchestrator.py: which tasks are due, and `run_autonomous_orchestrator_once_async`, which
-- runs them under its own lock of `Scheduler`. The tasks' runners are those of another module, so they
-- are a parameter: a runner takes the tables and the time, and returns a result or raises. Times are in
-- seconds. Of the result that the last row records, the states of the tasks and the summary of the
-- candidates, which are only read, are left out.
use Prim.Native.Nat.{◌+◌, ◌*◌, ◌/◌, ◌%◌}
use Prim.Native.String.{String}
use auto_coin_bot.Common.{
  ℕ, Bool, true, false, not, ◌&&◌, ◌||◌, Option, none, some, List, [], ◌∷◌, ◌++◌, if◌then◌else◌,
  ltb, leb, ◌==◌, length,
}
use auto_coin_bot.Scheduler
use auto_coin_bot.Scheduler.{Table, TaskState, is_running}
use auto_coin_bot.Common.Table.{lookup}
pub mod Release
pub mod Once
mod Tests

pub data Task : Type 0 where
  scan fast_validation deep_validation promotion : Task

pub task_name : Task → String
task_name scan = "market_scan"
task_name fast_validation = "fast_validation"
task_name deep_validation = "deep_validation"
task_name promotion = "promotion_selector"

abbrev pub is_fast : Task → Bool
is_fast fast_validation = true
is_fast _ = false

abbrev pub is_promotion : Task → Bool
is_promotion promotion = true
is_promotion _ = false

-- The known reasons; any other text counts as SCHEDULED.
pub data Reason : Type 0 where
  server_startup runtime_started scheduled candidate_created : Reason
  live_eligible_created manual_run_now : Reason

pub reason_text : Reason → String
reason_text server_startup = "SERVER_STARTUP"
reason_text runtime_started = "RUNTIME_STARTED"
reason_text scheduled = "SCHEDULED"
reason_text candidate_created = "CANDIDATE_CREATED"
reason_text live_eligible_created = "LIVE_ELIGIBLE_CREATED"
reason_text manual_run_now = "MANUAL_RUN_NOW"

pub record Config : Type 0 where
  pub enabled : Bool
  pub interval_minutes : ℕ
  pub lock_ttl_seconds : ℕ

-- The tables and the clock.
pub record World : Type 0 where
  pub table : Table
  pub now : ℕ

pub next_orchestrator_run_at : Config → ℕ → ℕ
next_orchestrator_run_at config now = now + config.interval_minutes * 60

abbrev pub after : Option ℕ → ℕ → Bool
after none now = false
after (some t) now = ltb now t

abbrev running_row : Option TaskState → ℕ → Bool
running_row none now = false
running_row (some row) now = is_running row.status && after row.lock_until now

pub state_is_running : Task → World → Bool
unfolding task_name
state_is_running t w = running_row (lookup (task_name t) w.table) w.now

abbrev due_at : Option ℕ → ℕ → Bool
due_at none now = true
due_at (some t) now = leb t now

abbrev due_row : Option TaskState → ℕ → Bool
due_row none now = true
due_row (some row) now = due_at row.next_run_at now

pub is_due : Task → World → Bool
unfolding task_name
is_due t w = due_row (lookup (task_name t) w.table) w.now

-- The day and the second of the day in Korea.
abbrev pub kst_day : ℕ → ℕ
kst_day t = (t + 32400) / 86400

abbrev pub kst_second : ℕ → ℕ
kst_second t = (t + 32400) % 86400

-- With no next run, once a day from 4 o'clock on.
abbrev daily_due : Option ℕ → ℕ → Bool
daily_due finished now =
    if ltb (kst_second now) 14400
    then false
    else elim finished [ none ↦ true | some t ↦ not (kst_day t == kst_day now) ]

abbrev deep_row : Option TaskState → ℕ → Bool
deep_row none now = daily_due none now
deep_row (some row) now = elim row.next_run_at [
  | none ↦ daily_due row.last_finished_at now
  | some t ↦ leb t now
]

pub deep_due : World → Bool
unfolding task_name
deep_due w = deep_row (lookup (task_name deep_validation) w.table) w.now

abbrev pub when : Bool → Task → List Task → List Task
when test t ts = if test then t ∷ ts else ts

pub scheduled_children : Reason → World → List Task
unfolding is_due deep_due
scheduled_children server_startup w = scan ∷ fast_validation ∷ promotion ∷ []
scheduled_children manual_run_now w = scan ∷ fast_validation ∷ promotion ∷ []
scheduled_children runtime_started w =
    when (is_due scan w) scan (when (is_due fast_validation w) fast_validation (promotion ∷ []))
scheduled_children candidate_created w = promotion ∷ []
scheduled_children live_eligible_created w = promotion ∷ []
scheduled_children scheduled w = when (is_due scan w) scan (
    when (is_due fast_validation w) fast_validation
      (when (is_due promotion w) promotion (when (deep_due w) deep_validation [])))

-- The statuses that the counts tell apart.
pub data ChildStatus : Type 0 where
  skipped skipped_locked done : ChildStatus

abbrev pub was_skipped : ChildStatus → Bool
was_skipped done = false
was_skipped _ = true

pub record Child : Type 0 where
  pub task : Task
  pub status : ChildStatus
  pub saved_candidate_count : ℕ

-- What a runner does: it returns, or it raises an `Exception`. Other exceptions, such as the cancellation of
-- the task, which the program does not catch, are not modelled.
pub data Ran : Type 0 where
  returned : ChildStatus → ℕ → Ran
  raised : String → Ran

abbrev pub Runner : Type 0
Runner = Task → World → Ran × World

-- The loop's variables, and the error if a runner raised.
pub record Progress : Type 0 where
  pub world : World
  pub results : List Child
  pub executed : List Task
  pub failure : Option String

abbrev pub record_child : Task → Ran × World → Progress → Progress
record_child t (returned status saved, w) p = record p {
  world = w;
  results = p.results ++ record { task = t; status = status; saved_candidate_count = saved } ∷ [];
  executed = t ∷ p.executed;
}
record_child t (raised error, w) p = record p { world = w; failure = some error }

-- `_run_child`
pub run_child : Runner → Task → World → Ran × World
unfolding state_is_running
run_child run t w = if state_is_running t w then (returned skipped 0, w) else run t w

abbrev pub any_promotion : List Task → Bool
any_promotion [] = false
any_promotion (t ∷ ts) = is_promotion t || any_promotion ts

abbrev pub saved : Ran × World → Bool
saved (returned status n, w) = ltb 0 n
saved (raised error, w) = false

-- One round of the loop: the task, and the promotion after a fast validation that saved candidates.
pub run_task : Runner → Task → Progress → Progress
unfolding run_child
run_task run t p =
    let r = run_child run t p.world in
    let p' = record_child t r p in
    if is_fast t && saved r && not (any_promotion p'.executed)
    then record_child promotion (run_child run promotion p'.world) p'
    else p'

abbrev pub unless_failed : Option String → Progress → Progress → Progress
unless_failed none p q = p
unless_failed (some error) p q = q

-- The loop; an exception leaves it.
pub run_tasks : Runner → List Task → Progress → Progress
run_tasks run [] p = p
run_tasks run (t ∷ ts) p =
    let p' = run_task run t p in let rest = run_tasks run ts p' in unless_failed p'.failure rest p'

abbrev pub count : (ChildStatus → Bool) → List Child → ℕ
count test [] = 0
count test (c ∷ cs) = if test c.status then ℕ.suc (count test cs) else count test cs

pub orchestrator_task : String
orchestrator_task = "autonomous_orchestrator"

pub data Outcome : Type 0 where
  disabled skipped_locked completed failed : Outcome

abbrev finish : Scheduler.Status → Scheduler.Result → String → Config → World → World
finish status result error config w = record w {
  table =
      (Scheduler.finish_scheduler_task orchestrator_task
        (record {
          status = status;
          result = result;
          error = error;
          next_run_at = some (next_orchestrator_run_at config w.now);
        })
        w.now w.table).0;
}

pub finish_run : Config → Reason → Progress → Option String → Outcome × Progress
finish_run config reason p none = (
  completed,
  record p {
    world =
        finish Scheduler.Status.completed
          (("reason", Scheduler.text (reason_text reason))
            ∷ ("executed_count", Scheduler.number (count (λ s. not (was_skipped s)) p.results))
            ∷ ("skipped_count", Scheduler.number (count was_skipped p.results))
            ∷ [])
          "" config p.world;
  },
)
finish_run config reason p (some error) = (
  failed,
  record p {
    world =
        finish Scheduler.Status.failed (("reason", Scheduler.text (reason_text reason)) ∷ []) error
          config p.world;
  },
)

abbrev pub begin : World → Progress
begin w = record { world = w; results = []; executed = []; failure = none }

-- What follows the attempt to take the lock.
pub run_locked : Runner → Config → Reason → World → Bool × Table → Outcome × Progress
unfolding run_tasks finish_run scheduled_children
run_locked run config reason w (false, table) = (skipped_locked, begin w)
run_locked run config reason w (true, table) =
    let w' = record w { table = table } in
    let p = run_tasks run (scheduled_children reason w') (begin w') in
    finish_run config reason p p.failure

pub owner : Reason → String
owner server_startup = "orchestrator:SERVER_STARTUP"
owner runtime_started = "orchestrator:RUNTIME_STARTED"
owner scheduled = "orchestrator:SCHEDULED"
owner candidate_created = "orchestrator:CANDIDATE_CREATED"
owner live_eligible_created = "orchestrator:LIVE_ELIGIBLE_CREATED"
owner manual_run_now = "orchestrator:MANUAL_RUN_NOW"

pub take_lock : Config → Reason → World → Bool × Table
unfolding owner
take_lock config reason w =
    let (table, acquired, _) =
      Scheduler.acquire_scheduler_task_lock orchestrator_task (owner reason) config.lock_ttl_seconds
        w.now w.table in
    (acquired, table)

-- The run, for the setting that enables it.
pub run_if : Bool → Runner → Config → Reason → World → Outcome × Progress
unfolding run_locked take_lock
run_if true run config reason w = run_locked run config reason w (take_lock config reason w)
run_if false run config reason w = (
  disabled,
  begin (
      finish Scheduler.Status.disabled
        (("reason", Scheduler.text (reason_text reason))
          ∷ ("skip_reason", Scheduler.text "ORCHESTRATOR_DISABLED")
          ∷ [])
        "" config w),
)

pub run_autonomous_orchestrator_once : Runner → Config → Reason → World → Outcome × Progress
unfolding run_if
run_autonomous_orchestrator_once run config reason w = run_if config.enabled run config reason w
