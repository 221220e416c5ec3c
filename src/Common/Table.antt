-- ===== src/Common/Table.antt =====
-- Dictionaries and keyed database tables: association lists by text keys. A write replaces the entry
-- of its key, or else appends one.
use Prim.Native.String.{String}
use mathlib.Core.Path.{◌≡◌, refl}
use mathlib.Core.Bool.{Bool, true, false, ◌||◌}
use mathlib.Core.Option.{Option, none, some}
use mathlib.Core.List.{List, [], ◌∷◌}
use native.Mathlib.Omega.{arith}
use text.Mathlib.Text.{◌==◌}
use text.Mathlib.TextEquality.{eq_iff}
use text.Mathlib.TextPositions.{eq_refl}
use auto_coin_bot.Common.Tests.{if◌then◌else◌}

abbrev pub str_eq : String → String → Bool
str_eq a b = a == b

pub str_eq_refl : (a : String) → str_eq a a ≡ true
str_eq_refl a = eq_refl a

-- `value in {…}`.
abbrev pub str_mem : String → List String → Bool
str_mem a [] = false
str_mem a (b ∷ bs) = str_eq a b || str_mem a bs

module _ {ℓ} {V : Type ℓ} where
  -- `table[key] = value`
  unfoldable pub insert : String → V → List (String × V) → List (String × V)
  insert key value [] = (key, value) ∷ []
  insert key value (row ∷ rows) =
      if str_eq row.0 key then (key, value) ∷ rows else row ∷ insert key value rows

  -- `setdefault`
  unfoldable pub set_default : String → V → List (String × V) → List (String × V)
  set_default key value [] = (key, value) ∷ []
  set_default key value (row ∷ rows) =
      if str_eq row.0 key then row ∷ rows else row ∷ set_default key value rows

  -- `table.get(key)`
  unfoldable pub lookup : String → List (String × V) → Option V
  lookup key [] = none
  lookup key (row ∷ rows) = if str_eq row.0 key then some row.1 else lookup key rows

  pub lookup-insert :
      (key other : String) (value : V) (rows : List (String × V))
      → lookup other (insert key value rows)
        ≡ (if str_eq key other then some value else lookup other rows)
  unfolding insert lookup
  lookup-insert key other value [] = refl
  lookup-insert key other value (row ∷ rows) = ground (
    arith,
    lookup-insert key other value rows,
    eq_iff row.0 key,
    eq_iff row.0 other,
    eq_iff key other,
  )

  pub lookup-insert_self :
      (key : String) (value : V) (rows : List (String × V))
      → lookup key (insert key value rows) ≡ some value
  lookup-insert_self key value rows = rw (lookup-insert key key value rows) (rw (eq_refl key))

  pub lookup-insert_other :
      (key other : String) (value : V) (rows : List (String × V))
      → str_eq key other ≡ false
      → lookup other (insert key value rows) ≡ lookup other rows
  lookup-insert_other key other value rows h = rw (lookup-insert key other value rows) (rw h)
