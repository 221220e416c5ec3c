-- ===== src/Slots/Settled.antt =====
-- What `reconcile_position_slots` leaves: every slot stands for a reservation or a position, or is empty.
use Prim.Native.String.{String}
use auto_coin_bot.Common.{
  ℕ, ◌≡◌, Bool, true, false, not, ◌&&◌, ◌||◌, Option, none, some, List, [], ◌∷◌, arith, Bool-cases,
  inl, inr, All, map, any, is_some, if◌then◌else◌, ◌==◌,
}
use auto_coin_bot.Common.Float.{Float}
use auto_coin_bot.Common.Table.{str_eq}
use auto_coin_bot.Slots
use auto_coin_bot.Slots.{
  Slot, Status, Reservation, Position, Tables, is_reserved, is_pending_entry, is_empty_status,
  is_active, among, ids, select,
}

active-not-pending :
    (st : Status) → is_active st ≡ true → (is_reserved st ≡ false) × (is_pending_entry st ≡ false)
active-not-pending st h = ground arith

module _ {F : Type 0} ⦃num : Float F⦄ where
  -- A RESERVED slot of the exchange has a reservation that holds it, and a slot that is neither RESERVED
  -- nor ENTERING is empty and without a position, or its position is an active one.
  pub record IsSettled (exchange : String) (now : ℕ) (reservations : List (Reservation F))
      (active : List ℕ) (s : Slot F) : Type 0 where
    pub held :
        is_reserved s.status ≡ true
        → str_eq s.exchange exchange ≡ true
        → any (Slots.holds now s) reservations ≡ true
    pub backed :
        is_pending_entry s.status ≡ false
        → is_some s.live_position_id || not (is_empty_status s.status) ≡ true
        → among s.live_position_id active ≡ true

  -- The two UPDATEs that empty slots.
  abbrev pub freed : String → ℕ → List (Reservation F) → List ℕ → Slot F → Slot F
  freed exchange now reservations active s =
      Slots.free_inactive now active (Slots.free_unheld exchange now reservations s)

  emptied-IsSettled :
      (exchange : String) (now : ℕ) (rs : List (Reservation F)) (active : List ℕ) (s : Slot F)
      → IsSettled exchange now rs active (Slots.emptied now s)
  unfolding Slots.emptied
  emptied-IsSettled exchange now rs active s = record { held = λ r e. cc r; backed = λ p q. cc q }

  free_inactive-IsSettled :
      (exchange : String) (now : ℕ) (rs : List (Reservation F)) (active : List ℕ) (s : Slot F)
      → (is_reserved s.status ≡ true
          → str_eq s.exchange exchange ≡ true
          → any (Slots.holds now s) rs ≡ true)
      → IsSettled exchange now rs active (Slots.free_inactive now active s)
  unfolding Slots.free_inactive
  free_inactive-IsSettled exchange now rs active s h =
      let test =
        not (is_pending_entry s.status)
        && (is_some s.live_position_id || not (is_empty_status s.status))
        && not (among s.live_position_id active) in
      elim (Bool-cases test) [
        | inl e ↦ rw e (emptied-IsSettled exchange now rs active s)
        | inr e ↦ rw e (record { held = h; backed = λ p q. ground arith })
      ]

  freed-IsSettled :
      (exchange : String) (now : ℕ) (rs : List (Reservation F)) (active : List ℕ) (s : Slot F)
      → IsSettled exchange now rs active (freed exchange now rs active s)
  unfolding Slots.free_unheld
  freed-IsSettled exchange now rs active s =
      let test =
        str_eq s.exchange exchange && is_reserved s.status && not (any (Slots.holds now s) rs) in
      elim (Bool-cases test) [
        | inl e ↦ rw e (
            free_inactive-IsSettled exchange now rs active (Slots.emptied now s)
              (emptied-IsSettled exchange now rs active s).held)
        | inr e ↦ rw e (free_inactive-IsSettled exchange now rs active s (λ r k. ground arith))
      ]

  -- The two UPDATEs leave a slot as it is if it is settled, and make it so if it is not.
  pub freed_exact :
      (exchange : String) (now : ℕ) (rs : List (Reservation F)) (active : List ℕ) (s : Slot F)
      → (IsSettled exchange now rs active s → freed exchange now rs active s ≡ s)
        × IsSettled exchange now rs active (freed exchange now rs active s)
  unfolding Slots.free_unheld Slots.free_inactive
  freed_exact exchange now rs active s =
      (λ h. ground (arith, h.held, h.backed), freed-IsSettled exchange now rs active s)

  -- A position that the slots are filled from.
  abbrev IsCandidate : List ℕ → Position F → Type 0
  IsCandidate active p = (is_active p.status ≡ true) × (among (some p.id) active ≡ true)

  filled-IsSettled :
      (exchange : String) (now : ℕ) (rs : List (Reservation F)) (active : List ℕ) (p : Position F)
      (s : Slot F)
      → IsCandidate active p
      → IsSettled exchange now rs active (Slots.filled now p s)
  unfolding Slots.filled
  filled-IsSettled exchange now rs active p s (a, m) = record {
    held = λ r e. absurd (cc (r, (active-not-pending p.status a).0));
    backed = λ q k. m;
  }

  All-update :
      (P : Slot F → Type 0) (f : Slot F → Slot F) (id : ℕ) (slots : List (Slot F))
      → ((s : Slot F) → P (f s))
      → All P slots
      → All P (Slots.update_slot f id slots)
  All-update P f id [] h _ = tt
  All-update P f id (s ∷ slots) h (p, ps) = (choice (s.id == id), All-update P f id slots h ps)
    where
      choice : (t : Bool) → P (if t then f s else s)
      choice true = h s
      choice false = p

  place-IsSettled :
      (exchange : String) (now max_slots : ℕ) (rs : List (Reservation F)) (active : List ℕ)
      (p : Position F) (slots : List (Slot F))
      → IsCandidate active p
      → All (IsSettled exchange now rs active) slots
      → All (IsSettled exchange now rs active) (Slots.place max_slots now p slots)
  unfolding Slots.place
  place-IsSettled exchange now max_slots rs active p slots c h =
      fill (Slots.or_first (Slots.slot_of p.id slots) (Slots.first_empty max_slots slots))
    where
      fill :
          (o : Option (Slot F))
          → All (IsSettled exchange now rs active) (Slots.fill_slot now p o slots)
      fill none = h
      fill (some s) =
          All-update (IsSettled exchange now rs active) (Slots.filled now p) s.id slots
            (λ x. filled-IsSettled exchange now rs active p x c) h

  place_all-IsSettled :
      (exchange : String) (now max_slots : ℕ) (rs : List (Reservation F)) (active : List ℕ)
      (ps : List (Position F)) (slots : List (Slot F))
      → All (IsCandidate active) ps
      → All (IsSettled exchange now rs active) slots
      → All (IsSettled exchange now rs active) (Slots.place_all max_slots now ps slots)
  unfolding Slots.place_all
  place_all-IsSettled exchange now max_slots rs active [] slots _ h = h
  place_all-IsSettled exchange now max_slots rs active (p ∷ ps) slots (c, cs) h =
      place_all-IsSettled exchange now max_slots rs active ps _ cs
        (place-IsSettled exchange now max_slots rs active p slots c h)

  widen :
      (n : ℕ) (active : List ℕ) (ps : List (Position F))
      → All (IsCandidate active) ps
      → All (IsCandidate (n ∷ active)) ps
  widen n active [] _ = tt
  widen n active (p ∷ ps) ((a, m), cs) = ((a, ground arith), widen n active ps cs)

  select-IsCandidate :
      (exchange : String) (ps : List (Position F))
      → All (IsCandidate (ids (select exchange ps))) (select exchange ps)
  select-IsCandidate exchange [] = tt
  select-IsCandidate exchange (p ∷ ps) =
      elim (Bool-cases (str_eq p.exchange exchange && is_active p.status)) [
        | inl e ↦ rw e (
          (ground arith, ground arith),
          widen p.id (ids (select exchange ps)) (select exchange ps)
              (select-IsCandidate exchange ps),
        )
        | inr e ↦ rw e (select-IsCandidate exchange ps)
      ]

  All-freed :
      (exchange : String) (now : ℕ) (rs : List (Reservation F)) (active : List ℕ)
      (slots : List (Slot F))
      → All
          (IsSettled exchange now rs active)
          (map (Slots.free_inactive now active) (map (Slots.free_unheld exchange now rs) slots))
  All-freed exchange now rs active [] = tt
  All-freed exchange now rs active (s ∷ slots) =
      (freed-IsSettled exchange now rs active s, All-freed exchange now rs active slots)

  -- After `reconcile_position_slots`, whatever the tables were, every slot is settled: if it is
  -- RESERVED and of this exchange, it has a current reservation, and unless it is entering, it is empty
  -- without a position, or its position is one of the exchange's active ones. A reserved slot of another
  -- exchange need not have a reservation, and an active position need not have a slot.
  pub reconcile_settles :
      (max_slots : ℕ) (exchange : String) (now : ℕ) (positions : List (Position F)) (t : Tables F)
      → let t' = Slots.reconcile_position_slots max_slots exchange now positions t in
        All (IsSettled exchange now t'.reservations (ids (select exchange positions))) t'.slots
  unfolding Slots.reconcile_position_slots
  reconcile_settles max_slots exchange now positions t =
      let t' = Slots.ensure_position_slots max_slots exchange now t in
      let rs = map (Slots.expire exchange now) t'.reservations in
      let active = select exchange positions in
      place_all-IsSettled exchange now max_slots rs (ids active) active _
        (select-IsCandidate exchange positions) (All-freed exchange now rs (ids active) t'.slots)
