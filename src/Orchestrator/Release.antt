-- ===== src/Orchestrator/Release.antt =====
-- The orchestrator's lock is free again at the end of every run, also when a task raises.
use Prim.Native.String.{String}
use auto_coin_bot.Common.{ℕ, ◌≡◌, refl, Bool, true, false, Option, none, some, ◌≢◌}
use auto_coin_bot.Scheduler
use auto_coin_bot.Scheduler.Trace.{finish_releases}
use auto_coin_bot.Orchestrator
use auto_coin_bot.Orchestrator.{
  Runner, Config, Reason, World, Progress, Outcome, orchestrator_task, finish_run, run_locked,
}

-- Nobody holds the orchestrator's lock: a caller with any time to live acquires it at any time.
abbrev pub IsFree : World → Type 0
IsFree w =
    (owner : String) (ttl now : ℕ)
    → (Scheduler.acquire_scheduler_task_lock orchestrator_task owner ttl now w.table).1 ≡ true

finish_run-IsFree :
    (config : Config) (reason : Reason) (p : Progress) (failure : Option String)
    → IsFree (Orchestrator.finish_run config reason p failure).1.world
unfolding Orchestrator.finish_run
finish_run-IsFree config reason p none owner ttl now =
    (finish_releases p.world.table orchestrator_task _ p.world.now owner ttl now refl).1
finish_run-IsFree config reason p (some error) owner ttl now =
    (finish_releases p.world.table orchestrator_task _ p.world.now owner ttl now refl).1

finished :
    (config : Config) (reason : Reason) (p : Progress) (failure : Option String)
    → (Orchestrator.finish_run config reason p failure).0 ≡ Outcome.skipped_locked
    → ⊥
unfolding Orchestrator.finish_run
finished config reason p none h = cc h
finished config reason p (some error) h = cc h

run_locked-IsFree :
    (run : Runner) (config : Config) (reason : Reason) (w : World) (lock : Bool × Scheduler.Table)
    → let r = Orchestrator.run_locked run config reason w lock in
      (r.0 ≡ Outcome.skipped_locked → (r.1.world ≡ w) × (lock.0 ≡ false))
      × (r.0 ≢ Outcome.skipped_locked → IsFree r.1.world)
unfolding Orchestrator.run_locked
run_locked-IsFree run config reason w (false, table) = (λ h. (refl, refl), λ h. absurd (h refl))
run_locked-IsFree run config reason w (true, table) =
    let w' = record w { table = table } in
    let p =
      Orchestrator.run_tasks run (Orchestrator.scheduled_children reason w')
        (Orchestrator.begin w') in
    (
      λ h. absurd (finished config reason p p.failure h),
      λ h. finish_run-IsFree config reason p p.failure,
    )

run_if-IsFree :
    (enabled : Bool) (run : Runner) (config : Config) (reason : Reason) (w : World)
    → let r = Orchestrator.run_if enabled run config reason w in
      (r.0 ≡ Outcome.skipped_locked
        → (r.1.world ≡ w) × ((Orchestrator.take_lock config reason w).0 ≡ false))
      × (r.0 ≢ Outcome.skipped_locked → IsFree r.1.world)
unfolding Orchestrator.run_if
run_if-IsFree true run config reason w =
    run_locked-IsFree run config reason w (Orchestrator.take_lock config reason w)
run_if-IsFree false run config reason w = (
  λ h. absurd (cc h),
  λ h owner ttl now. (finish_releases w.table orchestrator_task _ w.now owner ttl now refl).1,
)

-- However the tasks' runners behave, and also when one raises or writes to the lock's row, a run that is
-- not turned away leaves the orchestrator's lock free. A run is turned away only if the lock is held,
-- and then it changes nothing.
pub run_releases :
    (run : Runner) (config : Config) (reason : Reason) (w : World)
    → let r = Orchestrator.run_autonomous_orchestrator_once run config reason w in
      (r.0 ≡ Outcome.skipped_locked
        → (r.1.world ≡ w) × ((Orchestrator.take_lock config reason w).0 ≡ false))
      × (r.0 ≢ Outcome.skipped_locked → IsFree r.1.world)
unfolding Orchestrator.run_autonomous_orchestrator_once
run_releases run config reason w = run_if-IsFree config.enabled run config reason w
