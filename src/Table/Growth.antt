-- ===== src/Table/Growth.antt =====
-- The array part grown by slots of nil (src/core/table.cpp, `setArrayRange`).
use native.Mathlib.Decide.{dec_lt}
use lua.Prelude.{
  ℕ, ◌-◌, ◌≤◌, ◌≡◌, List, length, length-append, length-replicate, replicate, get_or, get_or_beyond,
  get_or-append_left, get_or-append_right, get_or-replicate, arith,
}
use lua.Table.Whole.{grown}
use lua.Value.{Value, nil}

length-pad : (F : Type 0) (n : ℕ) → length {A = Value F} (replicate n nil) ≡ n
length-pad F n = length-replicate n nil

get_or-pad : (F : Type 0) (n i : ℕ) → get_or {A = Value F} (replicate n nil) i nil ≡ nil
get_or-pad F n i = get_or-replicate n i nil

module _ {F : Type 0} where
  -- The new slots.
  abbrev pad : ℕ → List (Value F)
  pad n = replicate n nil

  pub length-grown : (array : List (Value F)) (n : ℕ) → n ≤ length (grown array n)
  unfolding grown
  length-grown array n = elim (dec_lt (length array) n) [
    | yes short ↦
        ground
          (arith, length-append array (pad (n - length array)), length-pad F (n - length array))
    | no long ↦ ground arith
  ]

  pub grown-length :
      (array : List (Value F)) (n m : ℕ) → n ≤ m → length array ≤ m → length (grown array n) ≤ m
  unfolding grown
  grown-length array n m hn ha =
      ground (arith, length-append array (pad (n - length array)), length-pad F (n - length array))

  pub grown-get_or :
      (array : List (Value F)) (n i : ℕ) → get_or (grown array n) i nil ≡ get_or array i nil
  unfolding grown
  grown-get_or array n i = elim (dec_lt (length array) n) [
    | no long ↦ ground arith
    | yes short ↦ elim (dec_lt i (length array)) [
      | yes inside ↦ ground (arith, get_or-append_left array (pad (n - length array)) i nil inside)
      | no outside ↦ ground (
        arith,
        get_or_beyond array i nil (omega arith),
        get_or-append_right array (pad (n - length array)) i (i - length array) nil (omega arith),
        get_or-pad F (n - length array) (i - length array),
      )
    ]
  ]
