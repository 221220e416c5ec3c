-- ===== src/Scheduler/Overlap.antt =====
-- Calls of `acquire_scheduler_task_lock` that overlap.
use Prim.Native.Nat.{◌+◌, ◌<◌}
use Prim.Native.String.{String}
use auto_coin_bot.Common.{
  ℕ, ◌≡◌, refl, Option, none, some, List, [], ◌∷◌, Bool-cases, inl, inr, if◌then◌else◌,
  Option-cases,
}
use auto_coin_bot.Common.Table.{lookup, insert, lookup-insert_self}
use auto_coin_bot.Scheduler
use auto_coin_bot.Scheduler.{TaskState, Table}
use auto_coin_bot.Scheduler.Steps
use auto_coin_bot.Scheduler.Steps.{Attempt, System, Event, select, upsert, upserted, step, steps}
use auto_coin_bot.Scheduler.Trace.{held_in_time}

-- Every SELECT is before `start` plus `ttl`, and before `start` plus its own time to live.
abbrev pub SelectsInTime : ℕ → ℕ → List Event → Type 0
SelectsInTime start ttl [] = Unit
SelectsInTime start ttl (select owner ttl' now ∷ events) =
    (now < start + Scheduler.ttl_of ttl)
    × (now < start + Scheduler.ttl_of ttl')
    × SelectsInTime start ttl events
SelectsInTime start ttl (upsert k ∷ events) = SelectsInTime start ttl events

-- A row that the attempt holds.
record IsHolder (a : Attempt) (row : TaskState) : Type 0 where
  running : row.status ≡ Scheduler.Status.running
  until : row.lock_until ≡ some (a.now + Scheduler.ttl_of a.ttl)
  began : row.last_started_at ≡ some a.now

upserted-IsHolder : (a : Attempt) (row : Option TaskState) → IsHolder a (upserted a row)
unfolding upserted Scheduler.fresh_row Scheduler.retaken_row
upserted-IsHolder a none = record { running = refl; until = refl; began = refl }
upserted-IsHolder a (some row) = record { running = refl; until = refl; began = refl }

select_refused :
    (task : String) (a : Attempt) (row : TaskState) (s : System) (owner : String) (ttl now : ℕ)
    → lookup task s.table ≡ some row
    → IsHolder a row
    → now < a.now + Scheduler.ttl_of a.ttl
    → now < a.now + Scheduler.ttl_of ttl
    → step task (select owner ttl now) s ≡ s
unfolding step
select_refused task a row s owner ttl now found h t t' =
    rw found (rw (held_in_time row a.now a.ttl ttl now h.running h.until h.began t t') refl)

upsert_nothing : (task : String) (k : ℕ) (s : System) → s.pending ≡ [] → step task (upsert k) s ≡ s
unfolding step
upsert_nothing task k s none_pending = rw none_pending refl

steps_refused :
    (task : String) (a : Attempt) (row : TaskState) (events : List Event) (s : System)
    → lookup task s.table ≡ some row
    → IsHolder a row
    → s.pending ≡ []
    → SelectsInTime a.now a.ttl events
    → steps task events s ≡ s
unfolding steps
steps_refused task a row [] s found h p t = refl
steps_refused task a row (select owner ttl now ∷ events) s found h p t =
    rw (select_refused task a row s owner ttl now found h t.0 t.1)
      (steps_refused task a row events s found h p t.2)
steps_refused task a row (upsert k ∷ events) s found h p t =
    rw (upsert_nothing task k s p) (steps_refused task a row events s found h p t)

only_attempt :
    (task : String) (s : System) (a : Attempt)
    → s.pending ≡ a ∷ []
    → step task (upsert 0) s ≡ record {
      table = insert task (upserted a (lookup task s.table)) s.table;
      pending = [];
      acquired = a.owner ∷ s.acquired;
    }
unfolding step
only_attempt task s a p = rw p refl

-- Where a call takes the lock while no other call is between its SELECT and its UPSERT, the call has
-- acquired it, and afterwards, until somebody finishes the task, no steps of other calls change
-- anything or acquire the lock, however they overlap, if their SELECTs come within the holder's time to
-- live and their own.
pub overlap_exclusive :
    (task : String) (s : System) (a : Attempt) (events : List Event)
    → s.pending ≡ a ∷ []
    → SelectsInTime a.now a.ttl events
    → let s' = step task (upsert 0) s in
      (s'.acquired ≡ a.owner ∷ s.acquired) × (steps task events s' ≡ s')
overlap_exclusive task s a events p t = rw (only_attempt task s a p) (
  refl,
  steps_refused task a (upserted a (lookup task s.table)) events _
      (lookup-insert_self task _ s.table) (upserted-IsHolder a (lookup task s.table)) refl t,
)

-- The answer of one call to a table, as `acquire_scheduler_task_lock` gives it, from its two steps.
uninterrupted :
    (task owner : String) (ttl now : ℕ) (table : Table)
    → let s =
        steps task
          (select owner ttl now ∷ upsert 0 ∷ [])
          (record { table = table; pending = []; acquired = [] }) in
      let (after, acquired, _) = Scheduler.acquire_scheduler_task_lock task owner ttl now table in
      (s.table ≡ after) × (s.acquired ≡ (if acquired then owner ∷ [] else []))
unfolding steps step upserted Scheduler.acquire_scheduler_task_lock Scheduler.acquire_row
    Scheduler.fresh_row Scheduler.retaken_row
uninterrupted task owner ttl now table = elim (Option-cases (lookup task table)) [
  | inl e ↦ rw e (rw e (refl, refl))
  | inr (row, e) ↦ rw e (elim (Bool-cases (Scheduler.held row ttl now)) [
    | inl k ↦ rw k (refl, refl)
    | inr k ↦ rw k (elim (Bool-cases (Scheduler.is_running row.status)) [
      | inl r ↦ rw (e, r) (refl, refl)
      | inr r ↦ rw (e, r) (refl, refl)
    ])
  ])
]
