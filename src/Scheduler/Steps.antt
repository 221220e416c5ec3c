-- ===== src/Scheduler/Steps.antt =====
-- `acquire_scheduler_task_lock` of app/database.py in its two steps, between which other callers may
-- come: its SELECT is outside of any transaction, and its UPSERT does not look at the row again.
use Prim.Native.String.{String}
use auto_coin_bot.Common.{
  ℕ, zero, suc, Bool, false, Option, none, some, List, [], ◌∷◌, if◌then◌else◌,
}
use auto_coin_bot.Common.Table.{lookup, insert}
use auto_coin_bot.Scheduler
use auto_coin_bot.Scheduler.{TaskState, Result, Table}

-- A call that was not refused, after its SELECT: the clock and the row that it read.
pub record Attempt : Type 0 where
  pub owner : String
  pub ttl : ℕ
  pub now : ℕ
  pub current : Option TaskState

pub record System : Type 0 where
  pub table : Table
  pub pending : List Attempt  -- between the SELECT and the UPSERT
  pub acquired : List String  -- the owners of the calls that returned True, the last one first

pub data Event : Type 0 where
  select : String → ℕ → ℕ → Event  -- the owner, the time to live and the clock of a call
  upsert : ℕ → Event  -- of the pending call with that place

abbrev was_running : Option TaskState → Bool
was_running none = false
was_running (some current) = Scheduler.is_running current.status

-- `excluded.last_result_json`
abbrev new_result : Option TaskState → ℕ → Result
new_result none now = []
new_result (some current) now =
    if Scheduler.is_running current.status
    then Scheduler.stale_result current now
    else current.last_result

-- The row after the UPSERT, for the row that is there.
unfoldable pub upserted : Attempt → Option TaskState → TaskState
upserted a none = record (Scheduler.fresh_row a.owner a.ttl a.now) {
  last_result = new_result a.current a.now;
}
upserted a (some row) = record (Scheduler.retaken_row row a.owner a.ttl a.now) {
  last_result = if was_running a.current then new_result a.current a.now else row.last_result;
}

-- Whether the call returns after its SELECT.
abbrev pub is_refused : Option TaskState → ℕ → ℕ → Bool
is_refused none ttl now = false
is_refused (some current) ttl now = Scheduler.held current ttl now

abbrev pub attempt_at : ℕ → List Attempt → Option Attempt
attempt_at k [] = none
attempt_at zero (a ∷ attempts) = some a
attempt_at (suc k) (a ∷ attempts) = attempt_at k attempts

abbrev pub without : ℕ → List Attempt → List Attempt
without k [] = []
without zero (a ∷ attempts) = attempts
without (suc k) (a ∷ attempts) = a ∷ without k attempts

abbrev pub upsert_found : String → ℕ → Option Attempt → System → System
upsert_found task k none s = s
upsert_found task k (some a) s = record {
  table = insert task (upserted a (lookup task s.table)) s.table;
  pending = without k s.pending;
  acquired = a.owner ∷ s.acquired;
}

unfoldable pub step : String → Event → System → System
step task (select owner ttl now) s =
    let current = lookup task s.table in
    if is_refused current ttl now then s else record s {
      pending = record { owner = owner; ttl = ttl; now = now; current = current } ∷ s.pending;
    }
step task (upsert k) s = upsert_found task k (attempt_at k s.pending) s

unfoldable pub steps : String → List Event → System → System
steps task [] s = s
steps task (e ∷ events) s = steps task events (step task e s)
