-- ===== src/Scheduler/Runtime/Overlap.antt =====
-- Calls of `acquire_runtime_lock` and `release_runtime_lock` that overlap.
use Prim.Native.Nat.{◌+◌, ◌<◌}
use Prim.Native.String.{String}
use auto_coin_bot.Common.{
  ℕ, ◌≡◌, refl, false, some, List, [], ◌∷◌, Bool-cases, inl, inr, Option-cases, if◌then◌else◌,
}
use auto_coin_bot.Common.Table.{str_eq, lookup, insert, lookup-insert_self}
use auto_coin_bot.Scheduler.Runtime
use auto_coin_bot.Scheduler.Runtime.{RuntimeLock, Locks, Instance}
use auto_coin_bot.Scheduler.Runtime.Exclusion.{Owns, taken_owned, running_row-Owns}
use auto_coin_bot.Scheduler.Runtime.Steps.{
  Attempt, System, Event, select, upsert, release, step, steps,
}

-- Every SELECT and every release is another instance's, and every SELECT is before the time.
abbrev pub OtherSteps : String → ℕ → List Event → Type 0
OtherSteps instance_id until [] = Unit
OtherSteps instance_id until (select j ttl now ∷ events) =
    (str_eq instance_id j.instance_id ≡ false) × (now < until) × OtherSteps instance_id until events
OtherSteps instance_id until (upsert k ∷ events) = OtherSteps instance_id until events
OtherSteps instance_id until (release j status now ∷ events) =
    (str_eq instance_id j ≡ false) × OtherSteps instance_id until events

select_refused :
    (lock_id : String) (row : RuntimeLock) (i : String) (until : ℕ) (j : Instance) (ttl now : ℕ)
    (s : System)
    → lookup lock_id s.locks ≡ some row
    → Owns row i until
    → str_eq i j.instance_id ≡ false
    → now < until
    → step lock_id (select j ttl now) s ≡ s
unfolding step
select_refused lock_id row i until j ttl now s e o d t =
    rw e (rw (taken_owned row i j.instance_id until now o d t) refl)

upsert_nothing :
    (lock_id : String) (k : ℕ) (s : System) → s.pending ≡ [] → step lock_id (upsert k) s ≡ s
unfolding step
upsert_nothing lock_id k s none_pending = rw none_pending refl

release_nothing :
    (lock_id : String) (row : RuntimeLock) (i : String) (until : ℕ) (j status : String) (now : ℕ)
    (s : System)
    → lookup lock_id s.locks ≡ some row
    → Owns row i until
    → str_eq i j ≡ false
    → step lock_id (release j status now) s ≡ s
unfolding step Runtime.release_runtime_lock
release_nothing lock_id row i until j status now s e o d = rw e (rw (o.instance, d) refl)

steps_other :
    (lock_id : String) (row : RuntimeLock) (i : String) (until : ℕ) (events : List Event)
    (s : System)
    → lookup lock_id s.locks ≡ some row
    → Owns row i until
    → s.pending ≡ []
    → OtherSteps i until events
    → steps lock_id events s ≡ s
unfolding steps
steps_other lock_id row i until [] s e o p h = refl
steps_other lock_id row i until (select j ttl now ∷ events) s e o p h =
    rw (select_refused lock_id row i until j ttl now s e o h.0 h.1)
      (steps_other lock_id row i until events s e o p h.2)
steps_other lock_id row i until (upsert k ∷ events) s e o p h =
    rw (upsert_nothing lock_id k s p) (steps_other lock_id row i until events s e o p h)
steps_other lock_id row i until (release j status now ∷ events) s e o p h =
    rw (release_nothing lock_id row i until j status now s e o h.0)
      (steps_other lock_id row i until events s e o p h.1)

only_attempt :
    (lock_id : String) (s : System) (a : Attempt)
    → s.pending ≡ a ∷ []
    → step lock_id (upsert 0) s ≡ record {
      locks = insert lock_id (Runtime.running_row a.instance a.ttl a.now) s.locks;
      pending = [];
      acquired = a.instance.instance_id ∷ s.acquired;
    }
unfolding step
only_attempt lock_id s a p = rw p refl

-- Where an instance takes the runtime lock while no other call is between its SELECT and its UPSERT,
-- it has acquired the lock, and afterwards no steps of other instances change anything or acquire it,
-- however they overlap, if their SELECTs come before the lock expires: their releases change nothing at
-- any time.
pub overlap_between_instances :
    (lock_id : String) (s : System) (a : Attempt) (events : List Event)
    → s.pending ≡ a ∷ []
    → OtherSteps a.instance.instance_id (a.now + a.ttl) events
    → let s' = step lock_id (upsert 0) s in
      (s'.acquired ≡ a.instance.instance_id ∷ s.acquired) × (steps lock_id events s' ≡ s')
overlap_between_instances lock_id s a events p h = rw (only_attempt lock_id s a p) (
  refl,
  steps_other lock_id (Runtime.running_row a.instance a.ttl a.now) a.instance.instance_id
      (a.now + a.ttl) events _ (lookup-insert_self lock_id _ s.locks)
      (running_row-Owns a.instance a.ttl a.now) refl h,
)

-- The answer of one call to a table, as `acquire_runtime_lock` gives it, from its two steps.
uninterrupted :
    (lock_id : String) (i : Instance) (ttl now : ℕ) (locks : Locks)
    → let s =
        steps lock_id
          (select i ttl now ∷ upsert 0 ∷ [])
          (record { locks = locks; pending = []; acquired = [] }) in
      let (after, acquired) = Runtime.acquire_runtime_lock lock_id i ttl now locks in
      (s.locks ≡ after) × (s.acquired ≡ (if acquired then i.instance_id ∷ [] else []))
unfolding steps step Runtime.acquire_runtime_lock
uninterrupted lock_id i ttl now locks = elim (Option-cases (lookup lock_id locks)) [
  | inl e ↦ rw e (refl, refl)
  | inr (row, e) ↦ rw e (elim (Bool-cases (Runtime.taken row i.instance_id now)) [
    | inl k ↦ rw k (refl, refl)
    | inr k ↦ rw k (refl, refl)
  ])
]
