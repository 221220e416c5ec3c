-- ===== src/Allocator/Bounds.antt =====
-- The bounds of an approved order, and what a candidate that nothing blocks has passed.
use Prim.Native.String.{String}
use auto_coin_bot.Common.{
  ◌≡◌, refl, Bool, true, false, Option, none, some, List, Bool-cases, inl, inr,
}
use auto_coin_bot.Common.Float.{Float, IsOrdered, lt, min}
use auto_coin_bot.Common.Table.{str_mem}
use auto_coin_bot.Common.Least.{min-below, min-right}
use auto_coin_bot.Allocator
use auto_coin_bot.Allocator.{Config, Candidate, Snapshot, Facts, Block, SameMarket}

module _ {F : Type 0} ⦃num : Float F⦄ (ord : IsOrdered F) where
  open ord use {lt_irrefl}

  pub approved_order-bounds :
      (config : Config F) (w : Snapshot F) (c : Candidate F) (budget : F)
      → let amount = Allocator.approved_order config w c budget in
        (lt budget amount ≡ false)
        × (lt (Allocator.max_single config w) amount ≡ false)
        × (lt config.max_order_krw amount ≡ false)
  unfolding Allocator.approved_order
  approved_order-bounds config w c budget =
      let single = Allocator.max_single config w in
      let wish = min budget (Allocator.desired_order config w c) in
      let two =
        min-below ord budget budget (Allocator.desired_order config w c) (lt_irrefl budget) in
      (
        min-below ord budget (min wish single) config.max_order_krw
            (min-below ord budget wish single two),
        min-below ord single (min wish single) config.max_order_krw (min-right ord wish single),
        min-right ord (min wish single) config.max_order_krw,
      )

pub or_block-none : (a b : Option Block) → Allocator.or_block a b ≡ none → (a ≡ none) × (b ≡ none)
or_block-none none b h = (refl, h)
or_block-none (some a) b h = cc h

pub when-none : (test : Bool) (b : Block) → Allocator.when test b ≡ none → test ≡ false
when-none true b h = cc h
when-none false b h = refl

module _ {F : Type 0} ⦃num : Float F⦄ where
  pub final_block-none :
      (config : Config F) (w : Snapshot F) (before : Option Block) (amount room : F)
      → Allocator.final_block config w before amount room ≡ none
      → (before ≡ none)
        × (Allocator.snapshot_block w ≡ none)
        × (lt amount config.min_order_krw ≡ false)
  unfolding Allocator.final_block
  final_block-none config w before amount room h =
      let parts = or_block-none _ _ h in
      let first = or_block-none _ _ parts.0 in (first.0, first.1, when-none _ _ parts.1)

  pub candidate_block_reason-none :
      (config : Config F) (f : Facts F) (markets : List String) (c : Candidate F)
      → Allocator.candidate_block_reason config f markets c ≡ none
      → str_mem c.market markets ≡ false
  unfolding Allocator.candidate_block_reason
  candidate_block_reason-none config f markets c h = elim (Bool-cases (str_mem c.market markets)) [
    | inl e ↦ cc (rw e at h)
    | inr e ↦ e
  ]
