-- ===== src/Scheduler/Acquire.antt =====
-- What one call of `acquire_scheduler_task_lock` does, on every branch.
use Prim.Native.Nat.{◌+◌, ◌<◌}
use Prim.Native.String.{String}
use mathlib.Core.Path.{subst}
use auto_coin_bot.Common.{
  ℕ, ◌≡◌, refl, inl, inr, Bool, true, false, some, arith, Option-cases, Bool-cases,
}
use auto_coin_bot.Common.Table.{
  str_eq, lookup, lookup-insert, lookup-insert_self, lookup-insert_other,
}
use auto_coin_bot.Scheduler

-- A row that keeps others out at `now`, for a caller with the time to live `ttl`.
pub record IsHeld (row : Scheduler.TaskState) (ttl now : ℕ) : Type 0 where
  pub running : row.status ≡ Scheduler.Status.running
  pub until : ℕ
  pub lock_until : row.lock_until ≡ some until
  pub in_future : now < until
  pub started : (start : ℕ) → row.last_started_at ≡ some start → now < start + Scheduler.ttl_of ttl

pub held-IsHeld :
    (row : Scheduler.TaskState) (ttl now : ℕ)
    → Scheduler.held row ttl now ≡ true
    → IsHeld row ttl now
unfolding Scheduler.held
held-IsHeld row ttl now h = elim (Option-cases row.lock_until) [
  | inl e ↦ absurd (ground arith)
  | inr (t, e) ↦ record {
    running = ground arith;
    until = t;
    lock_until = e;
    in_future = ground arith;
    started = λ start s. ground arith;
  }
]

pub IsHeld-held :
    (row : Scheduler.TaskState) (ttl now : ℕ)
    → IsHeld row ttl now
    → Scheduler.held row ttl now ≡ true
unfolding Scheduler.held
IsHeld-held row ttl now h = elim (Option-cases row.last_started_at) [
  | inl e ↦ ground arith
  | inr (t, e) ↦ ground (arith, h.started t e)
]

abbrev pub Acquired : Type 0
Acquired = Scheduler.Table × Bool × Scheduler.TaskState

-- `acquire_scheduler_task_lock` refuses exactly when the task has a row that is RUNNING, whose
-- `lock_until` is in the future and whose start, if it has one, is less than the caller's time to live
-- ago. A refused call returns that row and changes nothing.
pub acquire_refused_iff :
    (table : Scheduler.Table) (task owner : String) (ttl now : ℕ)
    → let r = Scheduler.acquire_scheduler_task_lock task owner ttl now table in
      (r.1 ≡ false → (r.0 ≡ table) × (lookup task table ≡ some r.2) × IsHeld r.2 ttl now)
      × ((row : Scheduler.TaskState)
          → lookup task table ≡ some row
          → IsHeld row ttl now
          → r.1 ≡ false)
unfolding Scheduler.acquire_scheduler_task_lock Scheduler.acquire_row
acquire_refused_iff table task owner ttl now = elim (Option-cases (lookup task table)) [
  | inl e ↦ rw e (λ h. cc, λ row h k. cc)
  | inr (row, e) ↦ rw e (elim (Bool-cases (Scheduler.held row ttl now)) [
    | inl h ↦ rw h (λ _. (refl, refl, held-IsHeld row ttl now h), λ row' e' k. refl)
    | inr h ↦ rw h (
      λ k. absurd (cc),
      λ row' e' k. cc (h, IsHeld-held row ttl now (subst (λ s. IsHeld s ttl now) (cc) k)),
    )
  ])
]

-- An acquired lock: the row is RUNNING for the caller until `now` plus its time to live, other tasks'
-- rows are as before, and what a task keeps of earlier runs is kept.
pub acquire_takes :
    (table : Scheduler.Table) (task owner : String) (ttl now : ℕ)
    → let r = Scheduler.acquire_scheduler_task_lock task owner ttl now table in
      r.1 ≡ true
      → (lookup task r.0 ≡ some r.2)
        × (r.2.status ≡ Scheduler.Status.running)
        × (r.2.lock_owner ≡ owner)
        × (r.2.lock_until ≡ some (now + Scheduler.ttl_of ttl))
        × (r.2.last_started_at ≡ some now)
        × ((other : String) → str_eq task other ≡ false → lookup other r.0 ≡ lookup other table)
        × ((row : Scheduler.TaskState)
            → lookup task table ≡ some row
            → (r.2.run_count ≡ row.run_count) × (r.2.next_run_at ≡ row.next_run_at))
unfolding Scheduler.acquire_scheduler_task_lock Scheduler.acquire_row
acquire_takes table task owner ttl now = elim (Option-cases (lookup task table)) [
  | inl e ↦ rw e λ _. (
    lookup-insert_self task _ table,
    refl,
    refl,
    refl,
    refl,
    λ other h. lookup-insert_other task other _ table h,
    λ row k. cc,
  )
  | inr (row, e) ↦ rw e (elim (Bool-cases (Scheduler.held row ttl now)) [
    | inl h ↦ rw h λ k. cc
    | inr h ↦ rw h λ _. (
      lookup-insert_self task _ table,
      refl,
      refl,
      refl,
      refl,
      λ other k. lookup-insert_other task other _ table k,
      λ row' k. (cc k, cc k),
    )
  ])
]

-- The result of an earlier run survives an acquisition, except that a stale RUNNING row is marked
-- with the time of the recovery and the `lock_until` that it had.
pub acquire_stale :
    (table : Scheduler.Table) (task owner : String) (ttl now : ℕ) (row : Scheduler.TaskState)
    → lookup task table ≡ some row
    → let r = Scheduler.acquire_scheduler_task_lock task owner ttl now table in
      r.1 ≡ true
      → (Scheduler.is_running row.status ≡ false → r.2.last_result ≡ row.last_result)
        × (Scheduler.is_running row.status ≡ true
            → (lookup "stale_lock_recovered" r.2.last_result ≡ some (Scheduler.flag true))
              × (lookup "recovered_at" r.2.last_result ≡ some (Scheduler.time now))
              × (lookup "previous_lock_until" r.2.last_result
                  ≡ some (Scheduler.time_json row.lock_until)))
unfolding Scheduler.acquire_scheduler_task_lock Scheduler.acquire_row
acquire_stale table task owner ttl now row e =
    rw e (elim (Bool-cases (Scheduler.held row ttl now)) [
      | inl h ↦ rw h λ k. cc
      | inr h ↦
          rw h
            λ _. (λ k. rw k, λ k. rw k (simp lookup-insert, simp lookup-insert, simp lookup-insert))
    ])
