-- ===== src/Slots/Cover.antt =====
-- What `ensure_position_slots` guarantees.
use Prim.Native.Nat.{◌≤◌, max}
use Prim.Native.String.{String}
use auto_coin_bot.Common.{
  append_assoc, append_nil, ℕ, zero, suc, ◌≡◌, refl, sym, ap, ◌∙◌, Bool, true, ◌||◌, List, [], ◌∷◌,
  ◌++◌, arith, Bool-cases, inl, inr, any, ◌==◌, leb, leb→le,
}
use auto_coin_bot.Common.Float.{Float}
use auto_coin_bot.Slots
use auto_coin_bot.Slots.{Slot, Tables}

module _ {F : Type 0} ⦃num : Float F⦄ where
  abbrev pub has_number : ℕ → List (Slot F) → Bool
  has_number n slots = any (λ (s : Slot F). s.slot_number == n) slots

  has_number-append :
      (n : ℕ) (xs ys : List (Slot F)) → has_number n (xs ++ ys) ≡ has_number n xs || has_number n ys
  has_number-append n [] ys = refl
  has_number-append n (x ∷ xs) ys = ground (arith, has_number-append n xs ys)

  -- The slots that a call adds to the table.
  abbrev pub Added : Tables F → Tables F → Type 0
  Added t t' = (new : List (Slot F)) × (t'.slots ≡ t.slots ++ new)

  insert_slot-adds :
      (number : ℕ) (exchange : String) (now : ℕ) (t : Tables F)
      → let t' = Slots.insert_slot number exchange now t in
        Added t t' × (has_number number t'.slots ≡ true)
  unfolding Slots.insert_slot Slots.new_slot
  insert_slot-adds number exchange now t = elim (Bool-cases (has_number number t.slots)) [
    | inl e ↦ rw e (([], sym (append_nil t.slots)), e)
    | inr e ↦ rw e ((_, refl), has_number-append number t.slots _ ∙ ground (arith, e))
  ]

  insert_slots-adds :
      (max_slots : ℕ) (exchange : String) (now : ℕ) (t : Tables F)
      → let t' = Slots.insert_slots max_slots exchange now t in
        Added t t' × ((n : ℕ) → 1 ≤ n → n ≤ max_slots → has_number n t'.slots ≡ true)
  unfolding Slots.insert_slots
  insert_slots-adds zero exchange now t =
      (([], sym (append_nil t.slots)), λ n h k. absurd (omega (arith, h, k)))
  insert_slots-adds (suc m) exchange now t =
      let t1 = Slots.insert_slots m exchange now t in
      let ((new, e), all) = insert_slots-adds m exchange now t in
      let ((more, f), last) = insert_slot-adds (suc m) exchange now t1 in
      (
        (new ++ more, f ∙ ap (λ l. l ++ more) e ∙ append_assoc t.slots new more),
        λ n h k. elim (Bool-cases (leb n m)) [
          | inl g ↦
              ap (has_number n) f
              ∙ has_number-append n t1.slots more
              ∙ ground (arith, all n h (leb→le n m g))
          | inr g ↦
              let top : n ≡ suc m = ground (arith, k) in
              ap (λ j. has_number j (Slots.insert_slot (suc m) exchange now t1).slots) top ∙ last
        ],
      )

  -- `ensure_position_slots` only adds slots, and leaves one for every number from 1 to the number asked
  -- for, which counts as 1 if it is 0.
  pub ensure_covers :
      (max_slots : ℕ) (exchange : String) (now : ℕ) (t : Tables F)
      → let t' = Slots.ensure_position_slots max_slots exchange now t in
        Added t t' × ((n : ℕ) → 1 ≤ n → n ≤ max 1 max_slots → has_number n t'.slots ≡ true)
  unfolding Slots.ensure_position_slots
  ensure_covers max_slots exchange now t = insert_slots-adds (max 1 max_slots) exchange now t
