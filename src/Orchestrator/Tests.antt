-- ===== src/Orchestrator/Tests.antt =====
-- Runs with tasks that return and tasks that raise, and the theorems on them.
use Prim.Native.Nat.{◌+◌}
use auto_coin_bot.Common.{◌≡◌, ◌≢◌, refl, true, false, []}
use auto_coin_bot.Common.Table.{lookup}
use auto_coin_bot.Orchestrator
use auto_coin_bot.Orchestrator.{Runner, Config, Reason, World, Ran, Outcome}
use auto_coin_bot.Orchestrator.Release.{IsFree, run_releases}

-- Every task saves one candidate and takes ten seconds.
abbrev busy : Runner
busy t w = (Ran.returned Orchestrator.done 1, record w { now = w.now + 10 })

abbrev broken : Runner
broken t w = (Ran.raised "database is locked", record w { now = w.now + 10 })

abbrev config : Config
config = record { enabled = true; interval_minutes = 5; lock_ttl_seconds = 1800 }

abbrev world : World
world = record { table = []; now = 1000 }

outcomes :
    ((Orchestrator.run_locked busy config Reason.server_startup world (true, [])).0
      ≡ Outcome.completed)
    × ((Orchestrator.run_locked broken config Reason.server_startup world (true, [])).0
        ≡ Outcome.failed)
unfolding Orchestrator.run_locked Orchestrator.run_tasks Orchestrator.run_task
    Orchestrator.scheduled_children Orchestrator.run_child Orchestrator.state_is_running
    Orchestrator.finish_run lookup
outcomes = (refl, refl)

run_releases_example :
    let r =
      Orchestrator.run_autonomous_orchestrator_once broken config Reason.server_startup world in
    (r.0 ≡ Outcome.skipped_locked
      → (r.1.world ≡ world)
        × ((Orchestrator.take_lock config Reason.server_startup world).0 ≡ false))
    × (r.0 ≢ Outcome.skipped_locked → IsFree r.1.world)
run_releases_example = run_releases broken config Reason.server_startup world
