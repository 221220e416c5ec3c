-- ===== src/Common/Fixed.antt =====
-- Decimal fixed-point numbers, in billionths: an instance of `Float` to run the model on, which meets
-- the laws. Products and quotients are cut off towards zero, and a quotient by zero is zero.
use Prim.Native.Nat.{ℕ, zero, suc, ◌+◌, ◌-◌, ◌*◌, ◌/◌, ◌^◌, ◌≤◌}
use mathlib.Core.Path.{◌≡◌, refl}
use mathlib.Core.Bool.{true, ◌&&◌}
use native.Mathlib.Nat.{mul-le-mul, le_refl}
use native.Mathlib.Omega.{arith}
use auto_coin_bot.Common.Int.{ℤ, pos, negsuc, pos_part, neg_part, sub_ℕ, ltb_ℤ, leb_ℤ}
use auto_coin_bot.Common.Float.{Float, IsOrdered, IsMonotone}

abbrev pub billion : ℕ
billion = 10 ^ 9

abbrev pub negative : ℕ → ℤ
negative zero = pos 0
negative (suc n) = negsuc n

-- |a| * |b| or |a| / |b| with the sign that the two give.
abbrev pub signed : (ℕ → ℕ → ℕ) → ℤ → ℤ → ℤ
signed f (pos a) (pos b) = pos (f a b)
signed f (pos a) (negsuc b) = negative (f a (suc b))
signed f (negsuc a) (pos b) = negative (f (suc a) b)
signed f (negsuc a) (negsuc b) = pos (f (suc a) (suc b))

abbrev add_ℤ : ℤ → ℤ → ℤ
add_ℤ a b = sub_ℕ (pos_part a + pos_part b) (neg_part a + neg_part b)

abbrev minus_ℤ : ℤ → ℤ → ℤ
minus_ℤ a b = sub_ℕ (pos_part a + neg_part b) (neg_part a + pos_part b)

abbrev mul_ℤ : ℤ → ℤ → ℤ
mul_ℤ = signed (λ a b. a * b / billion)

abbrev div_ℤ : ℤ → ℤ → ℤ
div_ℤ = signed (λ a b. a * billion / b)

-- The nearest multiple of 10 ^ -k, a half away from zero.
abbrev round_to : ℤ → ℕ → ℤ
round_to a k = let unit = 10 ^ (9 - k) in signed (λ x one. (x + unit / 2) / unit * unit) a (pos 1)

abbrev floor_div_ℤ : ℤ → ℤ → ℤ
floor_div_ℤ (pos a) (pos b) = pos (a / b * billion)
floor_div_ℤ (pos a) (negsuc b) = negative ((a + b) / suc b * billion)
floor_div_ℤ (negsuc a) (pos b) = negative ((a + b) / b * billion)
floor_div_ℤ (negsuc a) (negsuc b) = pos (suc a / suc b * billion)

abbrev trunc_ℤ : ℤ → ℤ
trunc_ℤ a = signed (λ x unit. x / unit * unit) a (pos billion)

instance abbrev pub fixed : Float ℤ
fixed = record {
  lit = λ m k. pos (m * billion / 10 ^ k);
  add = add_ℤ;
  sub = minus_ℤ;
  mul = mul_ℤ;
  div = div_ℤ;
  lt = ltb_ℤ;
  le = leb_ℤ;
  eq = λ a b. leb_ℤ a b && leb_ℤ b a;
  round = round_to;
  floor_div = floor_div_ℤ;
  trunc = trunc_ℤ;
}

pub fixed-IsOrdered : IsOrdered ℤ
fixed-IsOrdered = record {
  lt_asym = λ x y h. ground arith;
  lt_irrefl = λ x. ground arith;
  lt-not-eq = λ x y h. ground arith;
  le-not-lt = λ x y h. ground arith;
  lt-le = λ x y h. ground arith;
  lt_trans = λ x y z h k. ground arith;
  le_trans = λ x y z h k. ground arith;
  le-lt_trans = λ x y z h k. ground arith;
  lt-le_trans = λ x y z h k. ground arith;
}

mul_ℤ_nonneg :
    (x y : ℤ) → leb_ℤ (pos 0) x ≡ true → leb_ℤ (pos 0) y ≡ true → leb_ℤ (pos 0) (mul_ℤ x y) ≡ true
mul_ℤ_nonneg (pos a) (pos b) h k = ground arith
mul_ℤ_nonneg (pos a) (negsuc b) h k = ground arith
mul_ℤ_nonneg (negsuc a) y h k = ground arith

div_ℤ_nonneg :
    (x y : ℤ) → leb_ℤ (pos 0) x ≡ true → ltb_ℤ (pos 0) y ≡ true → leb_ℤ (pos 0) (div_ℤ x y) ≡ true
div_ℤ_nonneg (pos a) (pos b) h k = ground arith
div_ℤ_nonneg (pos a) (negsuc b) h k = ground arith
div_ℤ_nonneg (negsuc a) y h k = ground arith

mul_ℤ_le :
    (x y : ℤ)
    → leb_ℤ (pos 0) x ≡ true
    → leb_ℤ y (pos (1 * billion / 10 ^ 0)) ≡ true
    → leb_ℤ (mul_ℤ x y) x ≡ true
mul_ℤ_le (pos a) (pos b) h k =
    let small : b ≤ billion = ground arith in
    let product : a * b ≤ a * billion = mul-le-mul (le_refl a) small in ground (arith, product)
mul_ℤ_le (pos a) (negsuc b) h k =
    elim (a * suc b / billion) as (λ n. leb_ℤ (negative n) (pos a) ≡ true) [
      | zero ↦ ground arith
      | suc n ↦ ground arith
    ]
mul_ℤ_le (negsuc a) y h k = ground arith

div_ℤ_le_one :
    (x y : ℤ)
    → ltb_ℤ (pos 0) y ≡ true
    → leb_ℤ x y ≡ true
    → leb_ℤ (div_ℤ x y) (pos (1 * billion / 10 ^ 0)) ≡ true
div_ℤ_le_one (pos a) (pos zero) h k = ground arith
div_ℤ_le_one (pos a) (pos (suc b)) h k =
    let small : a ≤ suc b = ground arith in
    let product : a * billion ≤ suc b * billion = mul-le-mul small (le_refl billion) in
    let q : a * billion / suc b ≤ billion = grind (arith, product) in ground (arith, q)
div_ℤ_le_one (negsuc a) (pos b) h k =
    elim (suc a * billion / b) as (λ n. leb_ℤ (negative n) (pos (1 * billion / 10 ^ 0)) ≡ true) [
      | zero ↦ ground arith
      | suc n ↦ ground arith
    ]
div_ℤ_le_one x (negsuc b) h k = ground arith

pub fixed-IsMonotone : IsMonotone ℤ
fixed-IsMonotone = record {
  le_refl = λ x. ground arith;
  not-lt-le = λ x y h. ground arith;
  add_nonneg = λ x y h k. ground arith;
  sub_nonneg = λ x y h. ground arith;
  sub_le = λ x y h. ground arith;
  mul_nonneg = mul_ℤ_nonneg;
  one_nonneg = refl;
  mul_le = mul_ℤ_le;
  lit_nonneg = λ m k. ground arith;
  sub_self = λ x. ground arith;
  div_le_one = div_ℤ_le_one;
  div_nonneg = div_ℤ_nonneg;
}
