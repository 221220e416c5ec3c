-- ===== src/Scheduler/Runtime/Tests.antt =====
-- Two instances on one lock, and the theorems on them.
use Prim.Native.Nat.{◌≤◌}
use Prim.Native.String.{String}
use auto_coin_bot.Common.{◌≡◌, refl, true, false, List, [], ◌∷◌, arith}
use auto_coin_bot.Common.Table.{str_eq, lookup}
use auto_coin_bot.Scheduler.Runtime
use auto_coin_bot.Scheduler.Runtime.{Locks, Instance}
use auto_coin_bot.Scheduler.Runtime.Steps
use auto_coin_bot.Scheduler.Runtime.Steps.{System, select, upsert, step, steps}
use auto_coin_bot.Scheduler.Runtime.Overlap.{overlap_between_instances}
use auto_coin_bot.Scheduler.Runtime.Exclusion.{
  Event, acquire, release, performed, runtime_exclusive, runtime_available,
}

abbrev local : String → Instance
local id = record { instance_id = id; hostname = "h"; app_env = "local"; runtime_owner = "api" }

abbrev held : Locks
held = (Runtime.acquire_runtime_lock "live" (local "a") 60 1000 []).0

first_acquired : (Runtime.acquire_runtime_lock "live" (local "a") 60 1000 []).1 ≡ true
unfolding Runtime.acquire_runtime_lock lookup
first_acquired = refl

abbrev events : List Event
events =
    record { act = acquire (local "b") 600; at = 1010 }
    ∷ record { act = release "c" "STOPPED"; at = 1020 }
    ∷ []

runtime_exclusive_sample :
    (performed "live" events held ≡ held)
    × (Runtime.acquire_runtime_lock "live" (local "b") 60 1059 (performed "live" events held)
        ≡ (held, false))
runtime_exclusive_sample =
    runtime_exclusive "live" (local "a") (local "b") 60 60 1000 1059 events [] first_acquired
      (refl, omega arith, (refl, omega arith, tt)) refl (omega arith)

runtime_available_example :
    (1060 ≤ 1060 → (Runtime.acquire_runtime_lock "live" (local "b") 60 1060 held).1 ≡ true)
    × (str_eq "STOPPED" "RUNNING" ≡ false
        → (Runtime.acquire_runtime_lock "live"
            (local "b")
            60
            1060
            (Runtime.release_runtime_lock "live" "a" "STOPPED" 1005 held)).1
          ≡ true)
runtime_available_example =
    runtime_available "live" (local "a") (local "b") 60 60 1000 1005 1060 "STOPPED" []
      first_acquired

-- `a` has read the lock as free and has not yet written.
abbrev attempted : System
attempted = record {
  locks = [];
  pending = record { instance = local "a"; ttl = 60; now = 1000 } ∷ [];
  acquired = [];
}

abbrev overlapping : List Steps.Event
overlapping =
    select (local "b") 600 1010
    ∷ Steps.release "c" "STOPPED" 1020
    ∷ upsert 0
    ∷ select (local "b") 60 1059
    ∷ []

overlap_between_instances_example :
    let s' = step "live" (upsert 0) attempted in
    (s'.acquired ≡ "a" ∷ []) × (steps "live" overlapping s' ≡ s')
overlap_between_instances_example =
    overlap_between_instances "live" attempted
      (record { instance = local "a"; ttl = 60; now = 1000 }) overlapping refl
      (refl, omega arith, (refl, (refl, omega arith, tt)))

-- Two instances that both SELECT before either writes: both acquire the lock.
race :
    (steps "live"
      (select (local "a") 60 1000 ∷ select (local "b") 60 1000 ∷ upsert 1 ∷ upsert 0 ∷ [])
      (record { locks = []; pending = []; acquired = [] })).acquired
    ≡ "b" ∷ "a" ∷ []
unfolding steps step lookup
race = refl
