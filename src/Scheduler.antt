-- ===== src/Scheduler.antt =====
-- The task lock of app/database.py: one row of `scheduler_task_state` for each task, taken by
-- `acquire_scheduler_task_lock` and given back by `finish_scheduler_task`. The definition of
-- `acquire_scheduler_task_lock` here is a call with nothing between its SELECT and its UPSERT;
-- Scheduler/Steps takes the two apart. A time is its number of seconds: the program compares its ISO
-- texts, which are ordered in the same way. The JSON of `last_result` is a dictionary of values.
use Prim.Native.Nat.{◌+◌, max}
use Prim.Native.String.{String}
use auto_coin_bot.Common.{
  ℕ, Bool, true, false, not, ◌&&◌, Option, none, some, List, [], ◌∷◌, ltb, leb, if◌then◌else◌,
}
use auto_coin_bot.Common.Table.{lookup, insert}
pub mod Acquire
pub mod Trace
pub mod Steps
pub mod Overlap
pub mod Runtime
mod Tests

-- The statuses that the callers of `finish_scheduler_task` write, in upper case.
pub data Status : Type 0 where
  idle running completed failed disabled skipped : Status

abbrev pub is_running : Status → Bool
is_running running = true
is_running _ = false

-- A value in the JSON of a result.
pub data Json : Type 0 where
  null : Json
  flag : Bool → Json
  time : ℕ → Json
  text : String → Json
  number : ℕ → Json

abbrev pub Result : Type 0
Result = List (String × Json)

pub record TaskState : Type 0 where
  pub status : Status
  pub lock_owner : String
  pub lock_until : Option ℕ
  pub last_started_at : Option ℕ
  pub last_finished_at : Option ℕ
  pub next_run_at : Option ℕ
  pub last_error : String
  pub last_result : Result
  pub run_count : ℕ
  pub updated_at : ℕ

abbrev pub Table : Type 0
Table = List (String × TaskState)

abbrev pub ttl_of : ℕ → ℕ
ttl_of ttl_seconds = max 1 ttl_seconds

-- `str(lock_until or "") > now_utc`: a missing text is before every time.
abbrev pub after : Option ℕ → ℕ → Bool
after none now = false
after (some t) now = ltb now t

-- `ttl_expired`, for a lock that was taken at `started_at`.
abbrev pub ttl_expired : Option ℕ → ℕ → ℕ → Bool
ttl_expired none ttl now = false
ttl_expired (some started_at) ttl now = leb (started_at + ttl_of ttl) now

-- The test for which `acquire_scheduler_task_lock` refuses.
pub held : TaskState → ℕ → ℕ → Bool
held current ttl now =
    is_running current.status
    && after current.lock_until now
    && not (ttl_expired current.last_started_at ttl now)

pub time_json : Option ℕ → Json
time_json none = null
time_json (some t) = time t

-- `stale_result.update({…})`.
pub stale_result : TaskState → ℕ → Result
stale_result current now = insert "recovered_at" (time now) (
    insert "previous_lock_until" (time_json current.lock_until)
      (insert "stale_lock_recovered" (flag true) current.last_result))

-- The row that the INSERT writes for a task with no row: the columns it leaves out have their defaults.
pub fresh_row : String → ℕ → ℕ → TaskState
fresh_row owner ttl now = record {
  status = running;
  lock_owner = owner;
  lock_until = some (now + ttl_of ttl);
  last_started_at = some now;
  last_finished_at = none;
  next_run_at = none;
  last_error = "";
  last_result = [];
  run_count = 0;
  updated_at = now;
}

-- The row that the conflict clause writes over `current`.
pub retaken_row : TaskState → String → ℕ → ℕ → TaskState
unfolding stale_result
retaken_row current owner ttl now = record current {
  status = running;
  lock_owner = owner;
  lock_until = some (now + ttl_of ttl);
  last_started_at = some now;
  last_error = "";
  last_result = if is_running current.status then stale_result current now else current.last_result;
  updated_at = now;
}

-- The row after a call, for the row before it; and whether the lock was acquired.
pub acquire_row : Option TaskState → String → ℕ → ℕ → Bool × TaskState
unfolding held fresh_row retaken_row
acquire_row none owner ttl now = (true, fresh_row owner ttl now)
acquire_row (some current) owner ttl now =
    if held current ttl now then (false, current) else (true, retaken_row current owner ttl now)

-- A refused call returns the row that it read; it writes nothing.
pub acquire_scheduler_task_lock : String → String → ℕ → ℕ → Table → Table × Bool × TaskState
acquire_scheduler_task_lock task owner ttl now table =
    let (acquired, row) = acquire_row (lookup task table) owner ttl now in
    (if acquired then insert task row table else table, acquired, row)

pub record Finish : Type 0 where
  pub status : Status
  pub result : Result
  pub error : String
  pub next_run_at : Option ℕ

pub finish_row : Option TaskState → Finish → ℕ → TaskState
finish_row none f now = record {
  status = f.status;
  lock_owner = "";
  lock_until = none;
  last_started_at = none;
  last_finished_at = some now;
  next_run_at = f.next_run_at;
  last_error = f.error;
  last_result = f.result;
  run_count = 1;
  updated_at = now;
}
finish_row (some current) f now = record current {
  status = f.status;
  lock_owner = "";
  lock_until = none;
  last_finished_at = some now;
  next_run_at = f.next_run_at;
  last_error = f.error;
  last_result = f.result;
  run_count = current.run_count + 1;
  updated_at = now;
}

pub finish_scheduler_task : String → Finish → ℕ → Table → Table × TaskState
unfolding finish_row
finish_scheduler_task task f now table =
    let row = finish_row (lookup task table) f now in (insert task row table, row)

pub load_scheduler_task_state : String → Table → Option TaskState
load_scheduler_task_state task table = lookup task table
