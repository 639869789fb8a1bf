-- ===== src/Stack/Bounds.antt =====
-- The stack stays within its slots and its limit (src/vm/state/stack.cpp).
use lua.Prelude.{
  ℕ, zero, suc, ◌+◌, ◌-◌, ◌≤◌, ◌<◌, ◌≡◌, inl, inr, refl, ap, take, Bool-cases, ltb→lt,
  if◌then◌else◌, min, max, List, [], ◌∷◌, Option, length, set, length-set, length-replicate, arith,
  ltb, leb,
}
use lua.Prelude.Result.{ok, err}
use lua.Stack.Slots.{
  Stack, stack_overflow, slot_limit, limit, resize, new, new_capacity, ensure_space, check_space,
  fill_nil,
}

-- The values in use lie in the slots, and the slots are within the limit.
pub record IsValid {A : Type 0} (s : Stack A) : Type 0 where
  pub in_slots : s.top ≤ length s.slots
  pub in_limit : length s.slots ≤ limit s

module _ {A : Type 0} (nil : A) where
  pub length-resize : (n : ℕ) (xs : List A) → length (resize nil n xs) ≡ n
  unfolding resize
  length-resize zero xs = refl
  length-resize (suc n) [] = omega (arith, length-replicate n nil)
  length-resize (suc n) (x ∷ xs) = omega (arith, length-resize n xs)

  pub length-fill_nil : (rounds i : ℕ) (xs : List A) → length (fill_nil nil rounds i xs) ≡ length xs
  unfolding fill_nil
  length-fill_nil zero i xs = refl
  length-fill_nil (suc rounds) i xs =
      omega (arith, length-fill_nil rounds (i + 1) (set xs i nil), length-set xs i nil)

  -- The new capacity holds what is required, does not shrink the stack, and is within the limit.
  pub new_capacity_bounds :
      (size required lim : ℕ)
      → size ≤ lim
      → required ≤ lim
      → 0 < required
      → (required ≤ new_capacity nil size required lim)
        × (size ≤ new_capacity nil size required lim)
        × (new_capacity nil size required lim ≤ lim)
  unfolding new_capacity
  new_capacity_bounds size required lim hs hr pos = ground arith

  pub new-IsValid : (initial : ℕ) (policy : Option ℕ) → IsValid (new nil initial policy)
  unfolding new
  new-IsValid initial policy =
      omega (arith, length-resize (min (max initial 20) (slot_limit policy)) [])

  -- The stack with room for `needed` more values.
  pub roomy : ℕ → Stack A → Stack A
  roomy needed s =
      if ltb (length s.slots - s.top) needed
      then record s {
        slots = resize nil (new_capacity nil (length s.slots) (s.top + needed) (limit s)) s.slots;
      }
      else s

  -- `checkSpace` is refused exactly when the values would not fit the limit, and else makes room.
  pub check_space_lem :
      (s : Stack A) (needed : ℕ)
      → IsValid s
      → check_space nil s needed
        ≡ (if leb (s.top + needed) (limit s) then ok (roomy needed s) else err stack_overflow)
  unfolding check_space ensure_space roomy
  check_space_lem s needed v = ground arith

  pub take-resize :
      (k n : ℕ) (xs : List A) → k ≤ n → k ≤ length xs → take k (resize nil n xs) ≡ take k xs
  unfolding resize
  take-resize zero n xs h l = refl
  take-resize (suc k) zero xs h l = absurd (omega arith)
  take-resize (suc k) (suc n) [] h l = absurd (omega arith)
  take-resize (suc k) (suc n) (x ∷ xs) h l =
      ap (λ (t : List A). x ∷ t) (take-resize k n xs (omega arith) (omega arith))

  -- Making room changes no value in use, and stays within the limit.
  pub roomy-IsValid :
      (s : Stack A) (needed : ℕ)
      → IsValid s
      → s.top + needed ≤ limit s
      → IsValid (roomy needed s)
        × (s.top + needed ≤ length (roomy needed s).slots)
        × ((roomy needed s).top ≡ s.top)
        × ((roomy needed s).policy ≡ s.policy)
        × (take s.top (roomy needed s).slots ≡ take s.top s.slots)
  unfolding roomy
  roomy-IsValid s needed v fits = elim (Bool-cases (ltb (length s.slots - s.top) needed)) [
    | inr enough ↦ rw enough (v, ground arith, refl, refl, refl)
    | inl short ↦
        let more = ltb→lt (length s.slots - s.top) needed short in
        let cap = new_capacity nil (length s.slots) (s.top + needed) (limit s) in
        let size = length-resize cap s.slots in
        let bounds =
          new_capacity_bounds (length s.slots) (s.top + needed) (limit s) v.in_limit fits
            (omega arith) in
        rw short (
          omega arith,
          omega arith,
          refl,
          refl,
          take-resize s.top cap s.slots (omega arith) v.in_slots,
        )
  ]

  -- The slots after `setTop` has grown them for a top of `n`, if that is needed.
  abbrev pub slots_for : ℕ → Stack A → List A
  slots_for n s =
      if ltb (length s.slots) n
      then resize nil (if ltb (limit s - min (limit s) 5) n then limit s else n + 5) s.slots
      else s.slots

  pub slots_for_bounds :
      (s : Stack A) (n : ℕ)
      → IsValid s
      → n ≤ limit s
      → (n ≤ length (slots_for n s))
        × (length (slots_for n s) ≤ limit s)
        × (s.top ≤ length (slots_for n s))
        × (take s.top (slots_for n s) ≡ take s.top s.slots)
  slots_for_bounds s n v h = elim (Bool-cases (ltb (length s.slots) n)) [
    | inr enough ↦ rw enough (ground arith, v.in_limit, v.in_slots, refl)
    | inl short ↦
        let more = ltb→lt (length s.slots) n short in
        let cap = if ltb (limit s - min (limit s) 5) n then limit s else n + 5 in
        let size = length-resize cap s.slots in
        let bounds : (n ≤ cap) × (cap ≤ limit s) = ground arith in
        rw short (
          omega arith,
          omega arith,
          omega arith,
          take-resize s.top cap s.slots (omega arith) v.in_slots,
        )
  ]
