-- ===== src/Scheduler/Runtime.antt =====
-- The runtime lock of app/database.py, which keeps two instances of the trading runtime apart:
-- `load_runtime_lock`, `acquire_runtime_lock` and `release_runtime_lock` on the table `runtime_locks`.
-- The definition of `acquire_runtime_lock` here is a call with nothing between its SELECT and its UPSERT;
-- Scheduler/Runtime/Steps takes the two apart. Times are in seconds, as in `Scheduler`.
use Prim.Native.Nat.{◌+◌, ◌≤◌, ◌<◌}
use Prim.Native.String.{String}
use auto_coin_bot.Common.{
  ℕ, ◌≡◌, refl, Bool, true, false, not, ◌&&◌, Option, none, some, List, [], ◌∷◌, ltb, if◌then◌else◌,
  arith, Option-cases, Bool-cases, inl, inr, All,
}
use auto_coin_bot.Common.Table.{
  str_eq, str_eq_refl, lookup, insert, lookup-insert_self, lookup-insert_other,
}
pub mod Exclusion
pub mod Steps
pub mod Overlap
mod Tests

pub record RuntimeLock : Type 0 where
  pub instance_id : String
  pub hostname : String
  pub app_env : String
  pub runtime_owner : String
  pub status : String
  pub acquired_at : ℕ
  pub expires_at : ℕ
  pub updated_at : ℕ

abbrev pub Locks : Type 0
Locks = List (String × RuntimeLock)

pub record Instance : Type 0 where
  pub instance_id : String
  pub hostname : String
  pub app_env : String
  pub runtime_owner : String

pub load_runtime_lock : String → Locks → Option RuntimeLock
load_runtime_lock lock_id locks = lookup lock_id locks

-- The test for which `acquire_runtime_lock` refuses.
pub taken : RuntimeLock → String → ℕ → Bool
taken current instance_id now =
    str_eq current.status "RUNNING"
    && not (str_eq current.instance_id instance_id)
    && ltb now current.expires_at

pub running_row : Instance → ℕ → ℕ → RuntimeLock
running_row i ttl now = record {
  instance_id = i.instance_id;
  hostname = i.hostname;
  app_env = i.app_env;
  runtime_owner = i.runtime_owner;
  status = "RUNNING";
  acquired_at = now;
  expires_at = now + ttl;
  updated_at = now;
}

-- The rest of `acquire_runtime_lock`, after the SELECT.
pub acquire_over : Option RuntimeLock → String → Instance → ℕ → ℕ → Locks → Locks × Bool
unfolding taken running_row
acquire_over none lock_id i ttl now locks = (insert lock_id (running_row i ttl now) locks, true)
acquire_over (some current) lock_id i ttl now locks =
    if taken current i.instance_id now
    then (locks, false)
    else (insert lock_id (running_row i ttl now) locks, true)

pub acquire_runtime_lock : String → Instance → ℕ → ℕ → Locks → Locks × Bool
unfolding acquire_over
acquire_runtime_lock lock_id i ttl now locks =
    acquire_over (lookup lock_id locks) lock_id i ttl now locks

-- The UPDATE names the lock and the instance: it changes no other instance's row.
pub release_over : Option RuntimeLock → String → String → String → ℕ → Locks → Locks
release_over none lock_id instance_id status now locks = locks
release_over (some current) lock_id instance_id status now locks =
    if str_eq current.instance_id instance_id
    then insert lock_id (record current { status = status; expires_at = now; updated_at = now })
        locks
    else locks

pub release_runtime_lock : String → String → String → ℕ → Locks → Locks
unfolding release_over
release_runtime_lock lock_id instance_id status now locks =
    release_over (lookup lock_id locks) lock_id instance_id status now locks
