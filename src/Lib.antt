-- ===== src/Lib.antt =====
-- Verification of auto-coin-bot, a bot that trades coins for KRW on Korean exchanges (app/ of the
-- repository, in Python). What is modelled is the part that decides: the locks that keep concurrent
-- runs apart, the risk checks before an order, the sizes of orders, the allocation of the capital, the
-- slots that positions take, the orders that sell and what becomes of them, the promotion of candidate
-- strategies, the simulations, the books of the fills, and the tokens of the administrator.
--
-- The parts, the file of each, and the code that it is about:
--
--   Common         shared names. Common/Float is the interface to Python's `float`, a record of its
--                  operations, with the laws that the proofs use as named hypotheses: IsOrdered holds of
--                  every IEEE double, IsMonotone of finite doubles while no result overflows. No proof
--                  takes a sum to be exact. Common/Fixed is an instance in billionths, on which the tests
--                  run and which meets the laws. Common/Least is about `min`, Common/Table is a dictionary or
--                  a keyed table.
--   Scheduler      app/database.py: acquire_scheduler_task_lock and finish_scheduler_task on the rows of
--                  scheduler_task_state. Scheduler/Acquire is about one call, Scheduler/Trace about one whole
--                  call after another. Scheduler/Steps takes the SELECT and the UPSERT of an acquisition
--                  apart, and Scheduler/Overlap is about calls that overlap. Scheduler/Runtime is
--                  acquire_runtime_lock and release_runtime_lock, with Steps and Overlap of its own.
--   Orchestrator   app/autonomous_orchestrator.py: the tasks that are due, and one run under the lock of
--                  Scheduler. The tasks' runners are a parameter: they may do anything to the tables, and
--                  may raise.
--   Slots          app/database.py: ensure_position_slots, reconcile_position_slots, reserve_position_slot
--                  and the reservations of orders, on slots, reservations and positions (Slots/Rows).
--   Auth           app/auth.py: the session tokens, which verify_session_token checks, with the base64 of
--                  Python's library (Auth/Base64).
--   Capital        app/capital_snapshot.py: build_capital_snapshot, from which the allocator starts.
--   Allocator      app/capital_allocator.py: the scores, the block reasons and the size of an order, and
--                  the loop of run_capital_allocator_once (Allocator/Run), which writes the tables of
--                  Slots. Allocator/Account is what it grants from.
--   Risk           app/risk_manager.py: Risk/State is compute_risk_state over the results of its queries,
--                  Risk/Market and Risk/Duplicate are two of the guards, Risk/Check is check_order_risk,
--                  what the guards do to the verdict, and Risk/Check/Guards the guards in order.
--   Exit           app/live_exit.py on the tables of Exit/Rows, with the functions of app/database.py that
--                  read and write them (Exit/Store): the triggers and the candidates (Exit/Trigger),
--                  evaluate_exit_order (Exit/Check), which ends in Risk's check_order_risk, and the orders:
--                  create_exit_order_preview (Exit/Preview), submit_exit_order (Exit/Submit),
--                  reconcile_exit_order (Exit/Reconcile) and cancel_exit_order (Exit/Cancel). The exchange
--                  is a parameter, which may answer anything. The other files are about proofs.
--   Recovery       app/live_recovery.py: normalize_exchange_order (Recovery/Order), what a fill does to the
--                  positions (Recovery/Fills), and sync_exit_order_position. Recovery/Lifecycle is the life
--                  of a position on sale as a transition system.
--   Sizing         app/order_sizing.py (Sizing/Balance) and app/dynamic_sizing.py (Sizing/Dynamic).
--   Paper          app/paper_trading.py: the loop of run_paper_trading.
--   Backtest       app/backtest.py: the loop and the metrics of run_backtest, on Backtest/Rows.
--   Exposure       app/smart_target_exposure.py, with aggregate_signal_score of
--                  app/smart_signal_engine.py.
--   KillSwitch     app/strategy_kill_switch.py: evaluate_strategy_kill_switch, with
--                  summarize_execution_quality of app/execution_quality.py.
--   Promotion      app/strategy_promotion_pipeline.py: promote_shadow_candidates, which asks KillSwitch, and
--                  promote_candidate_strategy of app/database.py.
--   SmallPosition  app/small_position_resolver.py: the size classes and the full exit of a small
--                  position.
--   Ledger         app/exchange_fills_ledger.py: compute_realized_pnl_from_ledger, which pairs sales with
--                  purchases, first in, first out.
--
-- The risk checks, the sizes and the slots are called by the live traders, and by Exit before an order
-- is sent; Recovery is told what the exchange says of the orders of Exit. Capital's snapshot is what
-- Allocator starts from, and Promotion asks KillSwitch. The orchestrator calls the scheduler's lock, and
-- the only state they share is in the tables.
--
-- State is passed explicitly: a function that writes takes the tables and returns them. A call is
-- one step, and an interleaving is a sequence of calls; only the two locks, whose SELECT stands outside of
-- a transaction, are also taken apart into their statements (Scheduler/Steps, Scheduler/Runtime/Steps). Texts of a closed set (statuses,
-- sides, codes) are data types with one constructor each, all others are texts. Times are whole seconds
-- (in Risk the clock has microseconds), which the program keeps as ISO texts that sort in the same way.
--
-- Fuel: only the loop that pairs a sale with lots (Ledger.match_lots) has any. The model gives it the
-- number of the market's lots and two, and Ledger/Total shows that this is enough. All other loops are
-- structural recursions.
--
-- Left out: the rest of the web API, the exchange clients and notifications, which are input and output;
-- the strategies, which are pandas code whose signals are inputs here; the live traders, the recovery of
-- orders that are entries, and the repairs of sessions and slots; the remaining tables. The texts of
-- messages and logs are not modelled, nor what a function returns only for display.
pub mod Allocator
pub mod Auth
pub mod Backtest
pub mod Capital
pub mod Common
pub mod Exit
pub mod Exposure
pub mod KillSwitch
pub mod Ledger
pub mod Orchestrator
pub mod Paper
pub mod Promotion
pub mod Recovery
pub mod Risk
pub mod Scheduler
pub mod Sizing
pub mod Slots
pub mod SmallPosition
