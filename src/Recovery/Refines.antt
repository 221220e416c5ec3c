-- ===== src/Recovery/Refines.antt =====
-- The reconciliation of an exit order moves positions by the steps of their life only.
use Prim.Native.String.{String}
use auto_coin_bot.Common.Float.{Float}
use auto_coin_bot.Exit.Rows
use auto_coin_bot.Exit.Rows.{Store}
use auto_coin_bot.Exit.Store
use auto_coin_bot.Recovery
