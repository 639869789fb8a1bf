-- ===== src/Stack/Contents.antt =====
-- The stack as the list of the values in use (src/vm/state/stack.cpp).
use mathlib.Core.List.{append_assoc, append-nil}
use native.Mathlib.Numerals.{add-one}
use native.Mathlib.Nat.{add-zero}
use native.Mathlib.Decide.{dec_lt}
use lua.Prelude.{
  ◌⊎◌, inl, inr, ℕ, zero, suc, ◌+◌, ◌-◌, ◌≤◌, ◌<◌, ◌≡◌, refl, ap, sym, subst, ◌∙◌, List, [], ◌∷◌,
  ◌++◌, length, set, get_or, length-set, replicate, take, take-suc-set, take-suc, length-take,
  length-append, take-take, take_beyond, get_or-take, arith, ltb, le→leb, if◌then◌else◌,
}
use lua.Prelude.Result.{Result, ok, err, ◌>>=◌}
use lua.Stack.Bounds.{
  IsValid, roomy, check_space_lem, roomy-IsValid, length-fill_nil, slots_for, slots_for_bounds,
}
use lua.Stack.Slots.{
  StackError, Stack, stack_overflow, stack_underflow, out_of_range, limit, push_unchecked, push,
  pop, at, fill_nil, set_top,
}

module _ {A : Type 0} where
  -- The values in use, the bottom first.
  abbrev pub items : Stack A → List A
  items s = take s.top s.slots

snoc-injective :
    {A : Type 0} (xs ys : List A) (x y : A) → xs ++ x ∷ [] ≡ ys ++ y ∷ [] → (xs ≡ ys) × (x ≡ y)
snoc-injective [] [] x y e = (refl, cc)
snoc-injective [] (y' ∷ []) x y e = absurd (cc)
snoc-injective [] (y' ∷ y'' ∷ ys) x y e = absurd (cc)
snoc-injective (x' ∷ []) [] x y e = absurd (cc)
snoc-injective (x' ∷ x'' ∷ xs) [] x y e = absurd (cc)
snoc-injective (x' ∷ xs) (y' ∷ ys) x y e =
    let tails : xs ++ x ∷ [] ≡ ys ++ y ∷ [] = cc in
    let heads : x' ≡ y' = cc in let (p, q) = snoc-injective xs ys x y tails in (cc, q)

module _ {A : Type 0} (nil : A) where
  push_lem :
      (s : Stack A) (x : A)
      → IsValid s
      → (s.top < limit s
          → (t : Stack A) × (push nil s x ≡ ok t) × IsValid t × (items t ≡ items s ++ x ∷ []))
        × (limit s ≤ s.top → push nil s x ≡ err stack_overflow)
  unfolding push push_unchecked
  push_lem s x v = (
    λ h.
        let fits = le→leb (s.top + 1) (limit s) (omega arith) in
        let (valid, room, same_top, same_policy, kept) = roomy-IsValid nil s 1 v (omega arith) in
        let r = roomy nil 1 s in
        let len = length-set r.slots r.top x in
        (
          record r { slots = set r.slots r.top x; top = r.top + 1 },
          rw (check_space_lem nil s 1 v, fits),
          omega arith,
          rw (same_top, add-one s.top)
              (take-suc-set s.top r.slots x (omega arith) ∙ ap (λ (u : List A). u ++ x ∷ []) kept),
        ),
    λ h. rw (check_space_lem nil s 1 v) (ground arith),
  )

  pop_lem :
      (s : Stack A)
      → IsValid s
      → (s.top ≡ 0 → pop nil s ≡ err stack_underflow)
        × (0 < s.top
            → (x : A) × (t : Stack A) × (pop nil s ≡ ok (x, t))
              × IsValid t
              × (items s ≡ items t ++ x ∷ []))
  unfolding pop
  pop_lem s v = (
    λ h. ground arith,
    λ h.
        let last = s.top - 1 in
        let e : s.top ≡ suc last = omega arith in
        (
          get_or s.slots last nil,
          record s { top = last },
          ground arith,
          omega arith,
          ap (λ (k : ℕ). take k s.slots) e ∙ take-suc last s.slots nil (omega arith),
        ),
  )

  -- Below the limit a push succeeds, appends the value to the values in use and changes no other;
  -- at the limit it overflows.
  pub push-items :
      (s : Stack A) (x : A)
      → IsValid s
      → ((s.top < limit s)
          × ((t : Stack A) × (push nil s x ≡ ok t) × IsValid t × (items t ≡ items s ++ x ∷ [])))
        ⊎ ((limit s ≤ s.top) × (push nil s x ≡ err stack_overflow))
  push-items s x v = elim (dec_lt s.top (limit s)) [
    | yes room ↦ inl (room, (push_lem s x v).0 room)
    | no full ↦ inr (omega arith, (push_lem s x v).1 (omega arith))
  ]

  -- A pop of a stack with values in use returns the last of them and keeps the others; of an empty
  -- one it underflows.
  pop-items :
      (s : Stack A)
      → IsValid s
      → ((s.top ≡ 0) × (pop nil s ≡ err stack_underflow))
        ⊎ ((0 < s.top)
            × ((x : A) × (t : Stack A) × (pop nil s ≡ ok (x, t))
                × IsValid t
                × (items s ≡ items t ++ x ∷ [])))
  pop-items s v = elim (dec_lt 0 s.top) [
    | yes some_left ↦ inr (some_left, (pop_lem s v).1 some_left)
    | no empty_now ↦ inl (omega arith, (pop_lem s v).0 (omega arith))
  ]

  -- A pushed value is the next that is popped, and the values below it are as before.
  pub pop-push :
      (s : Stack A) (x : A)
      → IsValid s
      → s.top < limit s
      → (t : Stack A) × ((push nil s x >>= pop nil) ≡ ok (x, t)) × IsValid t × (items t ≡ items s)
  pop-push s x v h =
      let (t, pushed, valid, grown) = (push_lem s x v).0 h in
      let count = length-take t.top t.slots valid.in_slots in
      let pos : 0 < t.top =
        omega (arith, ap (λ (l : List A). length l) grown, length-append (items s) (x ∷ [])) in
      let (y, u, popped, valid', rest) = (pop_lem t valid).1 pos in
      let (same_items, same) = snoc-injective (items s) (items u) x y (sym grown ∙ rest) in
      let next : pop nil t ≡ ok (x, u) =
        subst (λ (z : A). pop nil t ≡ ok (z, u)) (sym same) popped in
      (
        u,
        ap (λ (r : Result StackError (Stack A)). r >>= pop nil) pushed ∙ next,
        valid',
        sym same_items,
      )

  -- `at` reads the values in use and refuses every other index.
  pub at-items :
      (s : Stack A) (i : ℕ)
      → IsValid s
      → at nil s i
        ≡ (if ltb i (length (items s)) then ok (get_or (items s) i nil) else err out_of_range)
  unfolding at
  at-items s i v =
      rw (length-take s.top s.slots v.in_slots) (ground (arith, get_or-take s.top i s.slots nil))

  take-fill_nil :
      (rounds i : ℕ) (xs : List A)
      → i + rounds ≤ length xs
      → take (i + rounds) (fill_nil nil rounds i xs) ≡ take i xs ++ replicate rounds nil
  unfolding fill_nil
  take-fill_nil zero i xs h = rw (add-zero, append-nil)
  take-fill_nil (suc rounds) i xs h =
      let e : i + suc rounds ≡ suc i + rounds = omega arith in
      rw (e, add-one i)
        (take-fill_nil rounds (suc i) (set xs i nil) (omega (arith, length-set xs i nil))
          ∙ (rw (take-suc-set i xs nil (omega arith)) (append_assoc (take i xs) (nil ∷ []) _)))

  set_top_lem :
      (s : Stack A) (n : ℕ)
      → IsValid s
      → (limit s < n → set_top nil s n ≡ err stack_overflow)
        × (n ≤ limit s
            → (t : Stack A) × (set_top nil s n ≡ ok t)
              × IsValid t
              × (t.top ≡ n)
              × (n ≤ s.top → items t ≡ take n (items s))
              × (s.top ≤ n → items t ≡ items s ++ replicate (n - s.top) nil))
  unfolding set_top fill_nil
  set_top_lem s n v = (
    λ h. ground arith,
    λ h.
        let (room, small, in_use, kept) = slots_for_bounds nil s n v h in
        let g = slots_for nil n s in
        let size = length-fill_nil nil (n - s.top) s.top g in
        (
          record s { slots = fill_nil nil (n - s.top) s.top g; top = n },
          ground arith,
          omega arith,
          refl,
          λ low.
              let none_left : n - s.top ≡ 0 = omega arith in
              rw none_left (sym (take-take n s.top g low) ∙ ap (λ (l : List A). take n l) kept),
          λ high.
              let whole : s.top + (n - s.top) ≡ n = omega arith in
              ap (λ (k : ℕ). take k (fill_nil nil (n - s.top) s.top g)) (sym whole)
              ∙ take-fill_nil (n - s.top) s.top g (omega arith)
              ∙ ap (λ (l : List A). l ++ replicate (n - s.top) nil) kept,
        ),
  )

  contents :
      (s : Stack A) (n : ℕ) (t : Stack A)
      → IsValid s
      → (n ≤ s.top → items t ≡ take n (items s))
      → (s.top ≤ n → items t ≡ items s ++ replicate (n - s.top) nil)
      → items t ≡ take n (items s) ++ replicate (n - s.top) nil
  contents s n t v cut extended = elim (dec_lt s.top n) [
    | yes more ↦
        let all = take_beyond n (items s) (omega (arith, length-take s.top s.slots v.in_slots)) in
        rw all (extended (omega arith))
    | no less ↦
        let none_new : n - s.top ≡ 0 = omega arith in rw (none_new, append-nil) (cut (omega arith))
  ]

  -- Setting the top within the limit cuts the values in use off, or extends them by nil values;
  -- beyond the limit it overflows.
  pub set_top-items :
      (s : Stack A) (n : ℕ)
      → IsValid s
      → ((limit s < n) × (set_top nil s n ≡ err stack_overflow))
        ⊎ ((t : Stack A) × (set_top nil s n ≡ ok t)
            × IsValid t
            × (t.top ≡ n)
            × (items t ≡ take n (items s) ++ replicate (n - s.top) nil))
  set_top-items s n v = elim (dec_lt (limit s) n) [
    | yes beyond ↦ inl (beyond, (set_top_lem s n v).0 beyond)
    | no within ↦
        let (t, run, valid, top, cut, extended) = (set_top_lem s n v).1 (omega arith) in
        inr (t, run, valid, top, contents s n t v cut extended)
  ]
