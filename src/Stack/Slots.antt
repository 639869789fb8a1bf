-- ===== src/Stack/Slots.antt =====
-- The class `Stack` (src/vm/state/stack.hpp, stack.cpp). `slots` is `stack_`, the vector of
-- allocated slots; `top` counts those in use. The value type and `Value()` are parameters.
-- A method that throws returns an error; nothing of the stack is changed then.
use lua.Prelude.{
  ℕ, zero, suc, ◌+◌, ◌-◌, ◌*◌, ◌/◌, min, max, Bool, List, [], ◌∷◌, Option, none, some, ltb, leb,
  ◌==◌, if◌then◌else◌, length, get_or, set, replicate,
}
use lua.Prelude.Result.{Result, ok, err, ◌>>=◌, ◌>>◌, require}

pub data StackError : Type 0 where
  stack_overflow stack_underflow stack_is_empty out_of_range : StackError

abbrev pub min_stack_size : ℕ
min_stack_size = 20

abbrev pub vm_max_stack_size : ℕ
vm_max_stack_size = 1_000_000

abbrev pub extra_stack : ℕ
extra_stack = 5

pub record Stack (A : Type 0) : Type 0 where
  pub slots : List A
  pub top : ℕ
  -- `maxStackSlots` of the resource policy, if there is one
  pub policy : Option ℕ

unfoldable pub slot_limit : Option ℕ → ℕ
slot_limit none = vm_max_stack_size
slot_limit (some slots) = min slots vm_max_stack_size

module _ {A : Type 0} where
  abbrev pub limit : Stack A → ℕ
  limit s = slot_limit s.policy

  pub capacity : Stack A → ℕ
  capacity s = length s.slots

  unfoldable pub empty : Stack A → Bool
  empty s = s.top == 0

  unfoldable pub clear : Stack A → Stack A
  clear s = record s { top = 0 }

  unfoldable pub check_limit : Stack A → ℕ → Result StackError (Unit {0})
  check_limit s new_top = require (leb new_top (limit s)) stack_overflow

  -- A write at an index that the caller has made room for.
  unfoldable pub push_unchecked : Stack A → A → Stack A
  push_unchecked s v = record s { slots = set s.slots s.top v; top = s.top + 1 }

module _ {A : Type 0} (nil : A) where
  -- `vector::resize`: new slots hold `Value()`.
  unfoldable pub resize : ℕ → List A → List A
  resize zero xs = []
  resize (suc n) [] = nil ∷ replicate n nil
  resize (suc n) (x ∷ xs) = x ∷ resize n xs

  unfoldable pub new : ℕ → Option ℕ → Stack A
  unfolding resize
  new initial_size policy = record {
    slots = resize (min (max initial_size min_stack_size) (slot_limit policy)) [];
    top = 0;
    policy = policy;
  }

  unfoldable pub new_capacity : ℕ → ℕ → ℕ → ℕ
  new_capacity size required lim =
      max (if ltb (lim / 2) size then lim else size * 2)
        (if ltb (lim - min lim extra_stack) required then lim else required + extra_stack)

  unfoldable pub ensure_space : Stack A → ℕ → Result StackError (Stack A)
  ensure_space s needed =
      require (leb s.top (limit s)) stack_overflow
      >> require (leb needed (limit s - s.top)) stack_overflow
      >> ok (
          if ltb (length s.slots - s.top) needed
          then record s {
            slots = resize (new_capacity (length s.slots) (s.top + needed) (limit s)) s.slots;
          }
          else s)

  unfoldable pub check_space : Stack A → ℕ → Result StackError (Stack A)
  check_space s needed =
      require (leb s.top (limit s)) stack_overflow
      >> require (leb needed (limit s - s.top)) stack_overflow
      >> (if ltb (length s.slots - s.top) needed then ensure_space s needed else ok s)

  unfoldable pub push : Stack A → A → Result StackError (Stack A)
  push s v = check_space s 1 >>= λ s'. ok (push_unchecked s' v)

  -- `stack_[--top_]`: the slot keeps its value.
  unfoldable pub pop : Stack A → Result StackError (A × Stack A)
  unfolding empty
  pop s =
      if empty s
      then err stack_underflow
      else ok (get_or s.slots (s.top - 1) nil, record s { top = s.top - 1 })

  unfoldable pub top_value : Stack A → Result StackError A
  unfolding empty
  top_value s = if empty s then err stack_is_empty else ok (get_or s.slots (s.top - 1) nil)

  unfoldable pub at : Stack A → ℕ → Result StackError A
  at s index = if leb s.top index then err out_of_range else ok (get_or s.slots index nil)

  -- for (i = top_; i < newTop; ++i) stack_[i] = Value();
  unfoldable pub fill_nil : ℕ → ℕ → List A → List A
  fill_nil zero i xs = xs
  fill_nil (suc rounds) i xs = fill_nil rounds (i + 1) (set xs i nil)

  unfoldable pub set_top : Stack A → ℕ → Result StackError (Stack A)
  unfolding check_limit
  set_top s new_top =
      check_limit s new_top
      >> (let grown =
            if ltb (length s.slots) new_top
            then resize
                (if ltb (limit s - min (limit s) extra_stack) new_top
                  then limit s
                  else new_top + extra_stack)
                s.slots
            else s.slots in
          ok (record s { slots = fill_nil (new_top - s.top) s.top grown; top = new_top }))
