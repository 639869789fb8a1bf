-- ===== src/Tests/Stacks.antt =====
-- A stack of numbers (src/vm/state/stack.cpp) at work.
use lua.Prelude.{
  ℕ, ◌-◌, ◌<◌, ◌≤◌, ◌≡◌, ◌⊎◌, [], ◌∷◌, ◌++◌, none, length, take, replicate, get_or, ltb,
  if◌then◌else◌, arith,
}
use lua.Prelude.Result.{ok, err, ◌>>=◌}
use lua.Stack.Bounds.{IsValid, new-IsValid}
use lua.Stack.Contents.{items, push-items, pop-push, at-items, set_top-items}
use lua.Stack.Slots.{
  Stack, stack_overflow, out_of_range, limit, slot_limit, new, push, pop, at, set_top,
}

abbrev fresh : Stack ℕ
fresh = new 0 20 none

fresh-IsValid : IsValid fresh
fresh-IsValid = new-IsValid 0 20 none

push-items_example :
    ((fresh.top < limit fresh)
      × ((t : Stack ℕ) × (push 0 fresh 7 ≡ ok t) × IsValid t × (items t ≡ items fresh ++ 7 ∷ [])))
    ⊎ ((limit fresh ≤ fresh.top) × (push 0 fresh 7 ≡ err stack_overflow))
push-items_example = push-items 0 fresh 7 fresh-IsValid

abbrev used : Stack ℕ
used = record { slots = 5 ∷ 6 ∷ 0 ∷ []; top = 2; policy = none }

used-IsValid : IsValid used
used-IsValid = record { in_slots = omega arith; in_limit = unfold slot_limit in omega arith }

pop-push_example :
    (t : Stack ℕ) × ((push 0 used 9 >>= pop 0) ≡ ok (9, t)) × IsValid t × (items t ≡ items used)
pop-push_example = pop-push 0 used 9 used-IsValid (unfold slot_limit in omega arith)

at-items_example :
    at 0 used 1
    ≡ (if ltb 1 (length (items used)) then ok (get_or (items used) 1 0) else err out_of_range)
at-items_example = at-items 0 used 1 used-IsValid

set_top-items_example :
    ((limit used < 4) × (set_top 0 used 4 ≡ err stack_overflow))
    ⊎ ((t : Stack ℕ) × (set_top 0 used 4 ≡ ok t)
        × IsValid t
        × (t.top ≡ 4)
        × (items t ≡ take 4 (items used) ++ replicate (4 - used.top) 0))
set_top-items_example = set_top-items 0 used 4 used-IsValid
