-- ===== src/Scheduler/Runtime/Steps.antt =====
-- `acquire_runtime_lock` of app/database.py in its two steps, between which other instances may come:
-- its SELECT is outside of any transaction, and its UPSERT does not look at the row again.
use Prim.Native.String.{String}
use auto_coin_bot.Common.{
  ℕ, zero, suc, Bool, false, Option, none, some, List, [], ◌∷◌, if◌then◌else◌,
}
use auto_coin_bot.Common.Table.{lookup, insert}
use auto_coin_bot.Scheduler.Runtime
use auto_coin_bot.Scheduler.Runtime.{RuntimeLock, Locks, Instance}

-- A call that was not refused, after its SELECT.
pub record Attempt : Type 0 where
  pub instance : Instance
  pub ttl : ℕ
  pub now : ℕ

pub record System : Type 0 where
  pub locks : Locks
  pub pending : List Attempt  -- between the SELECT and the UPSERT
  pub acquired : List String  -- the instances whose calls returned True, the last one first

pub data Event : Type 0 where
  select : Instance → ℕ → ℕ → Event  -- the instance, the time to live and the clock of a call
  upsert : ℕ → Event  -- of the pending call with that place
  release : String → String → ℕ → Event  -- `release_runtime_lock`, one UPDATE

-- Whether the call returns after its SELECT.
abbrev pub is_refused : Option RuntimeLock → String → ℕ → Bool
is_refused none instance_id now = false
is_refused (some current) instance_id now = Runtime.taken current instance_id now

abbrev pub attempt_at : ℕ → List Attempt → Option Attempt
attempt_at k [] = none
attempt_at zero (a ∷ attempts) = some a
attempt_at (suc k) (a ∷ attempts) = attempt_at k attempts

abbrev pub without : ℕ → List Attempt → List Attempt
without k [] = []
without zero (a ∷ attempts) = attempts
without (suc k) (a ∷ attempts) = a ∷ without k attempts

abbrev pub upsert_found : String → ℕ → Option Attempt → System → System
upsert_found lock_id k none s = s
upsert_found lock_id k (some a) s = record {
  locks = insert lock_id (Runtime.running_row a.instance a.ttl a.now) s.locks;
  pending = without k s.pending;
  acquired = a.instance.instance_id ∷ s.acquired;
}

unfoldable pub step : String → Event → System → System
step lock_id (select i ttl now) s =
    if is_refused (lookup lock_id s.locks) i.instance_id now
    then s
    else record s { pending = record { instance = i; ttl = ttl; now = now } ∷ s.pending }
step lock_id (upsert k) s = upsert_found lock_id k (attempt_at k s.pending) s
step lock_id (release instance_id status now) s = record s {
  locks = Runtime.release_runtime_lock lock_id instance_id status now s.locks;
}

unfoldable pub steps : String → List Event → System → System
steps lock_id [] s = s
steps lock_id (e ∷ events) s = steps lock_id events (step lock_id e s)
