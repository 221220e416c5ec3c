-- ===== src/Common/Float.antt =====
-- The interface to Python's `float`: what the program computes with, and the laws of comparison and
-- of rounding that the proofs use. `IsOrdered` holds of every IEEE double, NaN and the infinities
-- included. `IsMonotone` holds of finite doubles as long as no result overflows.
use Prim.Native.Nat.{ℕ}
use mathlib.Core.Path.{◌≡◌}
use mathlib.Core.Bool.{Bool, true, false, not}
use mathlib.Core.Option.{Option, none, some}
use mathlib.Core.List.{List, [], ◌∷◌}
use auto_coin_bot.Common.Tests.{if◌then◌else◌}

pub record Float (F : Type 0) : Type 0 where
  pub lit : ℕ → ℕ → F  -- the literal m / 10 ^ k
  pub add : F → F → F
  pub sub : F → F → F
  pub mul : F → F → F
  pub div : F → F → F
  pub lt : F → F → Bool
  pub le : F → F → Bool
  pub eq : F → F → Bool
  pub round : F → ℕ → F  -- to a number of decimal places
  pub floor_div : F → F → F  -- `x // y`
  pub trunc : F → F  -- `float(int(x))`

module _ {F : Type 0} ⦃num : Float F⦄ where
  infixl 65 ◌+◌ ◌-◌
  infixl 70 ◌*◌ ◌/◌
  abbrev pub ◌+◌ : F → F → F
  x + y = num.add x y

  abbrev pub ◌-◌ : F → F → F
  x - y = num.sub x y

  abbrev pub ◌*◌ : F → F → F
  x * y = num.mul x y

  abbrev pub ◌/◌ : F → F → F
  x / y = num.div x y

  -- `x < y`, `x <= y`, `x > y`, `x >= y`, as tests.
  abbrev pub lt : F → F → Bool
  lt x y = num.lt x y

  abbrev pub le : F → F → Bool
  le x y = num.le x y

  abbrev pub gt : F → F → Bool
  gt x y = num.lt y x

  abbrev pub ge : F → F → Bool
  ge x y = num.le y x

  abbrev pub dec : ℕ → ℕ → F
  dec m k = num.lit m k

  abbrev pub int : ℕ → F
  int m = num.lit m 0

  abbrev pub nought : F
  nought = num.lit 0 0

  -- The truth of a float, as in `x or y`.
  abbrev pub truthy : F → Bool
  truthy x = not (num.eq x nought)

  abbrev pub round : F → ℕ → F
  round x k = num.round x k

  abbrev pub floor_div : F → F → F
  floor_div x y = num.floor_div x y

  abbrev pub trunc : F → F
  trunc x = num.trunc x

  abbrev pub neg : F → F
  neg x = nought - x

  -- Python's `max` and `min` of two values keep the first of two equal ones.
  abbrev pub max : F → F → F
  max x y = if lt x y then y else x

  abbrev pub min : F → F → F
  min x y = if lt y x then y else x

  abbrev pub abs : F → F
  abs x = if lt x nought then neg x else x

  -- `_float(value)`: a missing value reads as 0.0.
  abbrev pub float_or : Option F → F → F
  float_or none d = d
  float_or (some x) d = x

  abbrev pub float : Option F → F
  float o = float_or o nought

  -- `x or y` of two numbers.
  abbrev pub or_else : F → F → F
  or_else x y = if truthy x then x else y

  -- Python's `sum`, which adds from the left, beginning with 0.
  abbrev pub sum_from : F → List F → F
  sum_from acc [] = acc
  sum_from acc (x ∷ xs) = sum_from (acc + x) xs

  abbrev pub sum : List F → F
  sum = sum_from nought

-- A value in a dictionary of the program: the key is missing, the value is None, or a number.
pub data Field (F : Type 0) : Type 0 where
  missing : Field F
  null : Field F
  value : F → Field F

-- `row.get(key, default)`
abbrev pub get_field : {F : Type 0} → Field F → Field F → Field F
get_field missing d = d
get_field null d = null
get_field (value x) d = value x

-- `_float(value, default)`, where None is no number.
abbrev pub field_or : {F : Type 0} → Field F → F → F
field_or missing d = d
field_or null d = d
field_or (value x) d = x

pub record IsOrdered (F : Type 0) ⦃num : Float F⦄ : Type 0 where
  pub lt_asym : (x y : F) → lt x y ≡ true → lt y x ≡ false
  pub lt_irrefl : (x : F) → lt x x ≡ false
  pub lt-not-eq : (x y : F) → lt x y ≡ true → num.eq y x ≡ false
  pub le-not-lt : (x y : F) → le x y ≡ true → lt y x ≡ false
  pub lt-le : (x y : F) → lt x y ≡ true → le x y ≡ true
  pub lt_trans : (x y z : F) → lt x y ≡ true → lt y z ≡ true → lt x z ≡ true
  pub le_trans : (x y z : F) → le x y ≡ true → le y z ≡ true → le x z ≡ true
  pub le-lt_trans : (x y z : F) → le x y ≡ true → lt y z ≡ true → lt x z ≡ true
  pub lt-le_trans : (x y z : F) → lt x y ≡ true → le y z ≡ true → lt x z ≡ true

pub record IsMonotone (F : Type 0) ⦃num : Float F⦄ : Type 0 where
  pub le_refl : (x : F) → le x x ≡ true
  pub not-lt-le : (x y : F) → lt x y ≡ false → le y x ≡ true
  pub add_nonneg : (x y : F) → le nought x ≡ true → le nought y ≡ true → le nought (x + y) ≡ true
  pub sub_nonneg : (x y : F) → le y x ≡ true → le nought (x - y) ≡ true
  pub sub_le : (x y : F) → le nought y ≡ true → le (x - y) x ≡ true
  pub mul_nonneg : (x y : F) → le nought x ≡ true → le nought y ≡ true → le nought (x * y) ≡ true
  pub one_nonneg : le {F = F} nought (int 1) ≡ true
  pub mul_le : (x y : F) → le nought x ≡ true → le y (int 1) ≡ true → le (x * y) x ≡ true
  pub lit_nonneg : (m k : ℕ) → le {F = F} nought (dec m k) ≡ true
  pub sub_self : (x : F) → x - x ≡ nought
  pub div_le_one : (x y : F) → lt nought y ≡ true → le x y ≡ true → le (x / y) (int 1) ≡ true
  pub div_nonneg : (x y : F) → le nought x ≡ true → lt nought y ≡ true → le nought (x / y) ≡ true
