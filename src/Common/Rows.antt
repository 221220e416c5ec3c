-- ===== src/Common/Rows.antt =====
-- Database tables as lists of rows: the first row that meets a condition, an UPDATE, and the numbers of
-- the rows that meet one.
use Prim.Native.Nat.{ℕ, ◌+◌, ◌≤◌}
use mathlib.Core.Path.{◌≡◌, refl, ap}
use mathlib.Core.Logic.{inl, inr}
use mathlib.Core.Bool.{Bool, true, false}
use mathlib.Core.Option.{Option, none, some}
use mathlib.Core.List.{List, [], ◌∷◌, ◌++◌}
use native.Mathlib.Omega.{arith}
use auto_coin_bot.Common.Tests.{if◌then◌else◌, Bool-cases, some-injective}
use auto_coin_bot.Common.Lists.{any}

abbrev pub as_ℕ : Bool → ℕ
as_ℕ b = if b then 1 else 0

module _ {ℓ} {A : Type ℓ} where
  unfoldable pub select_first : (A → Bool) → List A → Option A
  select_first p [] = none
  select_first p (x ∷ xs) = if p x then some x else select_first p xs

  unfoldable pub update_where : (A → Bool) → (A → A) → List A → List A
  update_where p f [] = []
  update_where p f (x ∷ xs) = (if p x then f x else x) ∷ update_where p f xs

  abbrev pub count : (A → Bool) → List A → ℕ
  count p [] = 0
  count p (x ∷ xs) = as_ℕ (p x) + count p xs

  abbrev pub filter : (A → Bool) → List A → List A
  filter p [] = []
  filter p (x ∷ xs) = let rest = filter p xs in if p x then x ∷ rest else rest

  pub count_zero : (p : A → Bool) (xs : List A) → any p xs ≡ false → count p xs ≡ 0
  count_zero p [] h = refl
  count_zero p (x ∷ xs) h = elim (Bool-cases (p x)) [
    | inl e ↦ cc (rw e at h)
    | inr e ↦ rw e (omega (arith, count_zero p xs (rw e at h)))
  ]

  pub select_first-holds :
      (p : A → Bool) (xs : List A) {x : A} → select_first p xs ≡ some x → p x ≡ true
  unfolding select_first
  select_first-holds p [] e = cc e
  select_first-holds p (y ∷ ys) {x} e = elim (Bool-cases (p y)) [
    | inl k ↦ let same : y ≡ x = some-injective (rw k at e) in cc (same, k)
    | inr k ↦ select_first-holds p ys (rw k at e)
  ]

  -- A row that is found and meets a condition is one that meets it.
  pub select_first-any :
      (p q : A → Bool) (xs : List A) {x : A}
      → select_first p xs ≡ some x
      → q x ≡ true
      → any q xs ≡ true
  unfolding select_first
  select_first-any p q [] e h = cc e
  select_first-any p q (y ∷ ys) {x} e h = elim (Bool-cases (p y)) [
    | inl k ↦ let same : y ≡ x = some-injective (rw k at e) in ground (arith, same, h)
    | inr k ↦ let rest = select_first-any p q ys (rw k at e) h in ground (arith, rest)
  ]

  pub select_first-update :
      (p : A → Bool) (f : A → A) (xs : List A) {x : A}
      → select_first p xs ≡ some x
      → p (f x) ≡ true
      → select_first p (update_where p f xs) ≡ some (f x)
  unfolding select_first update_where
  select_first-update p f [] e h = cc e
  select_first-update p f (y ∷ ys) {x} e h = elim (Bool-cases (p y)) [
    | inl k ↦ let same : y ≡ x = some-injective (rw k at e) in rw k (rw same (rw h refl))
    | inr k ↦ rw k (rw k (select_first-update p f ys (rw k at e) h))
  ]

  pub select_first-update_other :
      (p q : A → Bool) (f : A → A) (xs : List A)
      → ((x : A) → q x ≡ true → p x ≡ false)
      → ((x : A) → q x ≡ true → p (f x) ≡ false)
      → select_first p (update_where q f xs) ≡ select_first p xs
  unfolding select_first update_where
  select_first-update_other p q f [] h k = refl
  select_first-update_other p q f (x ∷ xs) h k =
      let rest = select_first-update_other p q f xs h k in
      elim (Bool-cases (q x)) [
        | inl e ↦ rw e (rw (h x e, k x e) rest)
        | inr e ↦ rw e (rw rest refl)
      ]

  pub select_first-append :
      (p : A → Bool) (xs ys : List A) {x : A}
      → select_first p xs ≡ some x
      → select_first p (xs ++ ys) ≡ some x
  unfolding select_first
  select_first-append p [] ys e = cc e
  select_first-append p (z ∷ zs) ys e = elim (Bool-cases (p z)) [
    | inl k ↦ rw k (rw k at e)
    | inr k ↦ rw k (select_first-append p zs ys (rw k at e))
  ]

  pub update_where_none :
      (p : A → Bool) (f : A → A) (xs : List A) → count p xs ≡ 0 → update_where p f xs ≡ xs
  unfolding update_where
  update_where_none p f [] h = refl
  update_where_none p f (x ∷ xs) h = elim (Bool-cases (p x)) [
    | inl e ↦ absurd (omega (arith, rw e at h))
    | inr e ↦
        let rest : count p xs ≡ 0 = omega (arith, rw e at h) in
        rw e (ap (λ l. x ∷ l) (update_where_none p f xs rest))
  ]

  -- An UPDATE of the one row with a key changes a count by that row.
  pub count-update_where :
      (p q : A → Bool) (f : A → A) (xs : List A) {x : A}
      → count p xs ≤ 1
      → select_first p xs ≡ some x
      → count q (update_where p f xs) + as_ℕ (q x) ≡ count q xs + as_ℕ (q (f x))
  unfolding update_where select_first
  count-update_where p q f [] h e = cc e
  count-update_where p q f (y ∷ ys) {x} h e = elim (Bool-cases (p y)) [
    | inl k ↦
        let same : y ≡ x = some-injective (rw k at e) in
        let none_left : count p ys ≡ 0 = omega (arith, rw k at h) in
        rw k (rw (update_where_none p f ys none_left) (rw same (omega arith)))
    | inr k ↦
        let few : count p ys ≤ 1 = omega (arith, rw k at h) in
        let rest = count-update_where p q f ys few (rw k at e) in rw k (omega (arith, rest))
  ]

  pub update_where-compose :
      (p : A → Bool) (f g : A → A) (xs : List A)
      → ((x : A) → p x ≡ true → p (f x) ≡ true)
      → update_where p g (update_where p f xs) ≡ update_where p (λ x. g (f x)) xs
  unfolding update_where
  update_where-compose p f g [] h = refl
  update_where-compose p f g (x ∷ xs) h = elim (Bool-cases (p x)) [
    | inl e ↦ rw e (rw (h x e) (ap (λ l. g (f x) ∷ l) (update_where-compose p f g xs h)))
    | inr e ↦ rw e (rw e (ap (λ l. x ∷ l) (update_where-compose p f g xs h)))
  ]

  pub update_where-id : (p : A → Bool) (xs : List A) → update_where p (λ x. x) xs ≡ xs
  unfolding update_where
  update_where-id p [] = refl
  update_where-id p (x ∷ xs) = elim (Bool-cases (p x)) [
    | inl e ↦ rw e (ap (λ l. x ∷ l) (update_where-id p xs))
    | inr e ↦ rw e (ap (λ l. x ∷ l) (update_where-id p xs))
  ]

  pub count-update_same :
      (p q : A → Bool) (f : A → A) (xs : List A)
      → ((x : A) → q (f x) ≡ q x)
      → count q (update_where p f xs) ≡ count q xs
  unfolding update_where
  count-update_same p q f [] h = refl
  count-update_same p q f (x ∷ xs) h =
      let rest = count-update_same p q f xs h in
      elim (Bool-cases (p x)) [
        | inl e ↦ rw e (rw (h x) (rw rest refl))
        | inr e ↦ rw e (rw rest refl)
      ]
