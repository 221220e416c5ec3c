-- ===== src/Recovery/Classified.antt =====
-- What the status of an order says of its volumes.
use Prim.Native.String.{String}
use auto_coin_bot.Common.{◌≡◌, ◌↔◌, Bool, true, false, ◌&&◌, ◌||◌, arith}
use auto_coin_bot.Common.Float.{Float, IsMonotone, gt, nought}
use auto_coin_bot.Exit.Rows.{OrderStatus, is_filled, is_partially_filled}
use auto_coin_bot.Recovery
use auto_coin_bot.Recovery.{RawOrder, done_states}

-- Nothing is known to be sold of such an order: it waits, or it was canceled.
abbrev pub is_unfilled : OrderStatus → Bool
is_unfilled OrderStatus.submitted = true
is_unfilled OrderStatus.waiting = true
is_unfilled OrderStatus.canceled = true
is_unfilled _ = false

module _ {F : Type 0} ⦃num : Float F⦄ where
  -- Each status stands for what the exchange reports.
  pub record IsClassified (state : String) (executed remaining : F) (st : OrderStatus)
      : Type 0 where
    pub partial :
        (is_partially_filled st ≡ true) ↔ (gt executed nought && gt remaining nought ≡ true)
    pub unfilled : is_unfilled st ≡ true → gt executed nought ≡ false
    pub complete : is_filled st ≡ true → gt executed nought && gt remaining nought ≡ false
    pub known : is_filled st || is_partially_filled st || is_unfilled st ≡ true

module _ {F : Type 0} ⦃num : Float F⦄ (mono : IsMonotone F) where
  status_of-IsClassified :
      (state : String) (executed remaining : F)
      → IsClassified state executed remaining (Recovery.status_of state executed remaining)
  unfolding Recovery.status_of
  status_of-IsClassified state executed remaining = ground (arith, mono.not-lt-le nought remaining)

  -- An order is PARTIALLY_FILLED exactly if some of its volume is executed and some remains, whatever its
  -- state, and where it is SUBMITTED, WAITING or CANCELED nothing of it is executed. It has one of these
  -- statuses or is FILLED, and then nothing executed remains open. This is so of finite numbers.
  pub normalize-IsClassified :
      (o : RawOrder F)
      → let st = Recovery.normalize_exchange_order o in
        IsClassified o.state st.executed_volume st.remaining_volume st.status
  unfolding Recovery.normalize_exchange_order
  normalize-IsClassified o = status_of-IsClassified o.state _ _
