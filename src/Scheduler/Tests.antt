-- ===== src/Scheduler/Tests.antt =====
-- A task's lock that is taken, refused, recovered and given back, and the theorems on it.
use Prim.Native.Nat.{◌+◌}
use Prim.Native.String.{String}
use auto_coin_bot.Common.{◌≡◌, refl, true, false, none, some, List, [], ◌∷◌, map, arith}
use auto_coin_bot.Common.Table.{str_eq, lookup}
use auto_coin_bot.Scheduler
use auto_coin_bot.Scheduler.Acquire.{
  IsHeld, Acquired, acquire_refused_iff, acquire_takes, acquire_stale,
}
use auto_coin_bot.Scheduler.Steps.{System, Event, select, upsert, step, steps}
use auto_coin_bot.Scheduler.Overlap.{overlap_exclusive}
use auto_coin_bot.Scheduler.Trace.{Call, calls, lock_exclusive, lock_recovers, finish_releases}

abbrev running_row : Scheduler.TaskState
running_row = record {
  status = Scheduler.Status.running;
  lock_owner = "a";
  lock_until = some 400;
  last_started_at = some 100;
  last_finished_at = some 50;
  next_run_at = none;
  last_error = "";
  last_result = [];
  run_count = 3;
  updated_at = 100;
}

abbrev table : Scheduler.Table
table = ("sync", running_row) ∷ []

abbrev first : Acquired
first = Scheduler.acquire_scheduler_task_lock "scan" "a" 300 1000 table

refused : (Scheduler.acquire_scheduler_task_lock "sync" "b" 300 399 table).1 ≡ false
unfolding Scheduler.acquire_scheduler_task_lock Scheduler.acquire_row lookup
refused = refl

recovered : (Scheduler.acquire_scheduler_task_lock "sync" "b" 300 400 table).1 ≡ true
unfolding Scheduler.acquire_scheduler_task_lock Scheduler.acquire_row lookup
recovered = refl

first_acquired : first.1 ≡ true
unfolding Scheduler.acquire_scheduler_task_lock Scheduler.acquire_row lookup
first_acquired = refl

acquire_refused_iff_sample :
    let r = Scheduler.acquire_scheduler_task_lock "sync" "b" 300 399 table in
    (r.1 ≡ false → (r.0 ≡ table) × (lookup "sync" table ≡ some r.2) × IsHeld r.2 300 399)
    × ((row : Scheduler.TaskState)
        → lookup "sync" table ≡ some row
        → IsHeld row 300 399
        → r.1 ≡ false)
acquire_refused_iff_sample = acquire_refused_iff table "sync" "b" 300 399

acquire_takes_sample :
    (lookup "scan" first.0 ≡ some first.2)
    × (first.2.status ≡ Scheduler.Status.running)
    × (first.2.lock_owner ≡ "a")
    × (first.2.lock_until ≡ some 1300)
    × (first.2.last_started_at ≡ some 1000)
    × ((other : String) → str_eq "scan" other ≡ false → lookup other first.0 ≡ lookup other table)
    × ((row : Scheduler.TaskState)
        → lookup "scan" table ≡ some row
        → (first.2.run_count ≡ row.run_count) × (first.2.next_run_at ≡ row.next_run_at))
acquire_takes_sample = acquire_takes table "scan" "a" 300 1000 first_acquired

abbrev again : Acquired
again = Scheduler.acquire_scheduler_task_lock "sync" "b" 300 400 table

acquire_stale_sample :
    (Scheduler.is_running Scheduler.Status.running ≡ false → again.2.last_result ≡ [])
    × (Scheduler.is_running Scheduler.Status.running ≡ true
        → (lookup "stale_lock_recovered" again.2.last_result ≡ some (Scheduler.flag true))
          × (lookup "recovered_at" again.2.last_result ≡ some (Scheduler.time 400))
          × (lookup "previous_lock_until" again.2.last_result
              ≡ some (Scheduler.time_json (some 400))))
acquire_stale_sample =
    acquire_stale table "sync" "b" 300 400 running_row (unfold lookup in refl) recovered

abbrev later : List Call
later =
    record { owner = "b"; ttl = 300; delay = 10 }
    ∷ record { owner = "a"; ttl = 600; delay = 200 }
    ∷ []

lock_exclusive_sample : calls "scan" 1000 first.0 later ≡ (map (λ _. false) later, first.0)
lock_exclusive_sample =
    lock_exclusive table "scan" "a" 300 1000 later first_acquired
      (omega arith, omega arith, (omega arith, omega arith, tt))

lock_recovers_example : (Scheduler.acquire_scheduler_task_lock "scan" "b" 60 1300 first.0).1 ≡ true
lock_recovers_example =
    lock_recovers table "scan" "a" 300 1000 "b" 60 1300 first_acquired (omega arith)

abbrev finish : Scheduler.Finish
finish = record {
  status = Scheduler.Status.completed;
  result = [];
  error = "";
  next_run_at = some 500;
}

finish_releases_sample :
    let (table', row) = Scheduler.finish_scheduler_task "sync" finish 200 table in
    (lookup "sync" table' ≡ some row)
    × ((Scheduler.acquire_scheduler_task_lock "sync" "b" 300 201 table').1 ≡ true)
    × (row.last_finished_at ≡ some 200)
    × (row.next_run_at ≡ some 500)
    × ((old : Scheduler.TaskState)
        → lookup "sync" table ≡ some old
        → row.run_count ≡ old.run_count + 1)
finish_releases_sample = finish_releases table "sync" finish 200 "b" 300 201 refl

-- The scan's lock was read as free by `a`, which has not yet written.
abbrev attempted : System
attempted = record {
  table = table;
  pending = record { owner = "a"; ttl = 300; now = 1000; current = none } ∷ [];
  acquired = [];
}

abbrev overlapping : List Event
overlapping =
    select "b" 300 1010 ∷ select "c" 600 1299 ∷ upsert 1 ∷ upsert 0 ∷ select "b" 300 1299 ∷ []

overlap_exclusive_example :
    let s' = step "scan" (upsert 0) attempted in
    (s'.acquired ≡ "a" ∷ []) × (steps "scan" overlapping s' ≡ s')
overlap_exclusive_example =
    overlap_exclusive "scan" attempted
      (record { owner = "a"; ttl = 300; now = 1000; current = none }) overlapping refl
      (omega arith, omega arith, (omega arith, omega arith, (omega arith, omega arith, tt)))
