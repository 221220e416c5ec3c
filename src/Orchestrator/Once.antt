-- ===== src/Orchestrator/Once.antt =====
-- The tasks that a run performs, in order.
use auto_coin_bot.Common.{ℕ, ◌≡◌, List, map}
use auto_coin_bot.Orchestrator
use auto_coin_bot.Orchestrator.{Runner, World, Progress, Child, Task, Ran}

abbrev pub tasks : Progress → List Task
tasks p = map (λ (c : Child). c.task) p.results

-- A runner that never raises.
abbrev pub Returns : Runner → Type 0
Returns run =
    (t : Task) (w : World)
    → (status : Orchestrator.ChildStatus) × (n : ℕ) × (w' : World) × (run t w
        ≡ (Ran.returned status n, w'))
