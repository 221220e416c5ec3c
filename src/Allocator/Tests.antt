-- ===== src/Allocator/Tests.antt =====
-- A run with one empty slot and one reservation, and the theorem on it.
use auto_coin_bot.Common.{ℕ, ◌≡◌, refl, [], ◌∷◌, ℤ, map}
use auto_coin_bot.Common.Fixed.{fixed, fixed-IsOrdered}
use auto_coin_bot.Slots
use auto_coin_bot.Slots.{Slot, Status, Tables}
use auto_coin_bot.Allocator
use auto_coin_bot.Allocator.{Config, Candidate, Snapshot, Facts}
use auto_coin_bot.Allocator.Run
use auto_coin_bot.Allocator.Run.{Accepted}
use auto_coin_bot.Allocator.Account.{account, IsFunded}
use auto_coin_bot.Allocator.Funds.{allocate-IsFunded}
use auto_coin_bot.Allocator.Example.{config, candidates, facts, snapshot, tables}

abbrev summary : Accepted ℤ → ℕ × ℕ × ℤ
summary a = (a.candidate_id, a.slot_id, a.approved_order_krw)

-- The first takes all of the remaining exposure, and the replacement takes as much again.
overcommitted :
    map summary (Run.allocate config snapshot facts candidates 1 tables).accepted
    ≡ (4, 2, fixed.lit 30000 0) ∷ (3, 1, fixed.lit 30000 0) ∷ []
unfolding Run.allocate Run.allocate_all Run.allocate_one Run.allocate_by Run.allocate_entry
    Run.allocate_replacement Run.or_refuse Run.accept_entry Run.accept_replacement Run.best_first
    Run.insert_candidate Run.start Run.refuse Allocator.allocation_score
    Allocator.same_market_reserved_slot Allocator.judge_slot Allocator.candidate_block_reason
    Allocator.final_block Allocator.approved_order Allocator.replacement_budget Slots.reserve
    Slots.new_slot
overcommitted = refl

allocate-IsFunded_example :
    IsFunded config snapshot
      (account (Run.start snapshot 1 tables))
      (Run.allocate config snapshot facts candidates 1 tables)
allocate-IsFunded_example =
    allocate-IsFunded fixed-IsOrdered config snapshot facts candidates 1 tables
