-- ===== src/Scheduler/Trace.antt =====
-- Calls on one task's lock over time, one whole call after another. Scheduler/Overlap is about calls
-- that overlap.
use Prim.Native.Nat.{◌+◌, ◌≤◌, ◌<◌}
use Prim.Native.String.{String}
use auto_coin_bot.Common.{
  ℕ, ◌≡◌, refl, Bool, true, false, List, [], ◌∷◌, arith, Option-cases, Bool-cases, map, none, some,
  inl, inr,
}
use auto_coin_bot.Common.Table.{lookup, lookup-insert_self}
use auto_coin_bot.Scheduler
use auto_coin_bot.Scheduler.Acquire.{IsHeld, acquire_refused_iff, acquire_takes}

-- A call of `acquire_scheduler_task_lock`, `delay` seconds after the one before it.
pub record Call : Type 0 where
  pub owner : String
  pub ttl : ℕ
  pub delay : ℕ

-- The calls in turn, from the time `now`: the answers, and the table at the end.
pub calls : String → ℕ → Scheduler.Table → List Call → List Bool × Scheduler.Table
calls task now table [] = ([], table)
calls task now table (c ∷ cs) =
    let now' = now + c.delay in
    let (table', acquired, _) =
      Scheduler.acquire_scheduler_task_lock task c.owner c.ttl now' table in
    let (rest, last) = calls task now' table' cs in (acquired ∷ rest, last)

-- Every call comes before `start` plus `ttl`, and before `start` plus its own time to live.
abbrev pub InTime : ℕ → ℕ → ℕ → List Call → Type 0
InTime start ttl now [] = Unit
InTime start ttl now (c ∷ cs) =
    (now + c.delay < start + Scheduler.ttl_of ttl)
    × (now + c.delay < start + Scheduler.ttl_of c.ttl)
    × InTime start ttl (now + c.delay) cs

pub held_in_time :
    (row : Scheduler.TaskState) (start ttl ttl' now : ℕ)
    → row.status ≡ Scheduler.Status.running
    → row.lock_until ≡ some (start + Scheduler.ttl_of ttl)
    → row.last_started_at ≡ some start
    → now < start + Scheduler.ttl_of ttl
    → now < start + Scheduler.ttl_of ttl'
    → Scheduler.held row ttl' now ≡ true
unfolding Scheduler.held
held_in_time row start ttl ttl' now r u s h k = ground arith

calls_refused :
    (task : String) (start ttl now : ℕ) (table : Scheduler.Table) (row : Scheduler.TaskState)
    (cs : List Call)
    → lookup task table ≡ some row
    → row.status ≡ Scheduler.Status.running
    → row.lock_until ≡ some (start + Scheduler.ttl_of ttl)
    → row.last_started_at ≡ some start
    → InTime start ttl now cs
    → calls task now table cs ≡ (map (λ _. false) cs, table)
unfolding calls Scheduler.acquire_scheduler_task_lock Scheduler.acquire_row
calls_refused task start ttl now table row [] e r u s t = refl
calls_refused task start ttl now table row (c ∷ cs) e r u s (t, t', ts) =
    rw (e, held_in_time row start ttl c.ttl (now + c.delay) r u s t t')
      (rw (calls_refused task start ttl (now + c.delay) table row cs e r u s ts))

-- Once a call has acquired the lock at `start` for `ttl` seconds, and until somebody finishes the
-- task, every whole call that comes after it, within both that time and its own time to live, is
-- refused, and the table stays as the holder left it.
pub lock_exclusive :
    (table : Scheduler.Table) (task owner : String) (ttl start : ℕ) (cs : List Call)
    → let r = Scheduler.acquire_scheduler_task_lock task owner ttl start table in
      r.1 ≡ true → InTime start ttl start cs → calls task start r.0 cs ≡ (map (λ _. false) cs, r.0)
lock_exclusive table task owner ttl start cs h t =
    let (row, run, _, until, began, _, _) = acquire_takes table task owner ttl start h in
    calls_refused task start ttl start _ _ cs row run until began t

-- A lock whose holder never finishes is recovered: a call at the end of its time to live, or later,
-- acquires it.
pub lock_recovers :
    (table : Scheduler.Table) (task owner : String) (ttl start : ℕ) (owner' : String) (ttl' now : ℕ)
    → let r = Scheduler.acquire_scheduler_task_lock task owner ttl start table in
      r.1 ≡ true
      → start + Scheduler.ttl_of ttl ≤ now
      → (Scheduler.acquire_scheduler_task_lock task owner' ttl' now r.0).1 ≡ true
lock_recovers table task owner ttl start owner' ttl' now h t =
    let r = Scheduler.acquire_scheduler_task_lock task owner ttl start table in
    let (row, run, _, until, _, _, _) = acquire_takes table task owner ttl start h in
    let again = Scheduler.acquire_scheduler_task_lock task owner' ttl' now r.0 in
    elim (Bool-cases again.1) [
      | inl e ↦ e
      | inr e ↦
          let (_, same, held) = (acquire_refused_iff r.0 task owner' ttl' now).0 e in
          absurd (late (again.2) (r.2) held (cc (same, row)) until)
    ]
  where
    late :
        (row row' : Scheduler.TaskState)
        → IsHeld row ttl' now
        → row ≡ row'
        → row'.lock_until ≡ some (start + Scheduler.ttl_of ttl)
        → ⊥
    late row row' held e u =
        let k : some held.until ≡ some (start + Scheduler.ttl_of ttl) = cc (held.lock_until, e) in
        let n : held.until ≡ start + Scheduler.ttl_of ttl = cc k in
        absurd (omega (arith, n, held.in_future, t))

-- `finish_scheduler_task` with a status other than RUNNING frees the lock at once, records the finish
-- and the next run, and counts the run.
pub finish_releases :
    (table : Scheduler.Table) (task : String) (f : Scheduler.Finish) (t : ℕ) (owner : String)
    (ttl now : ℕ)
    → Scheduler.is_running f.status ≡ false
    → let (table', row) = Scheduler.finish_scheduler_task task f t table in
      (lookup task table' ≡ some row)
      × ((Scheduler.acquire_scheduler_task_lock task owner ttl now table').1 ≡ true)
      × (row.last_finished_at ≡ some t)
      × (row.next_run_at ≡ f.next_run_at)
      × ((old : Scheduler.TaskState)
          → lookup task table ≡ some old
          → row.run_count ≡ old.run_count + 1)
unfolding Scheduler.finish_scheduler_task Scheduler.acquire_scheduler_task_lock
    Scheduler.acquire_row
finish_releases table task f t owner ttl now h = elim (Option-cases (lookup task table)) [
  | inl e ↦ rw e (
    lookup-insert_self task _ table,
    rw (lookup-insert_self task (Scheduler.finish_row none f t) table) (rw h),
    refl,
    refl,
    λ old k. cc,
  )
  | inr (row, e) ↦ rw e (
    lookup-insert_self task _ table,
    rw (lookup-insert_self task (Scheduler.finish_row (some row) f t) table) (rw h),
    refl,
    refl,
    λ old k. cc k,
  )
]
