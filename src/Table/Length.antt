-- ===== src/Table/Length.antt =====
-- The length operator (src/core/table.cpp, `length`).
use lua.Prelude.{
  ℕ, zero, suc, ◌+◌, ◌-◌, ◌*◌, ◌/◌, Bool, true, false, not, ◌||◌, ltb, ◌==◌, if◌then◌else◌, length,
  get_or,
}
use lua.Table.Nodes.{find_hash_node}
use lua.Table.Whole.{Table, in_array, array_value, integer_key, is_found}
use lua.Prelude.Int.{i32_max}
use lua.Value.{Doubles, nil, is_nil}

-- while (high - low > 1), on fuel: the half whose ends differ in `present`
unfoldable pub bisect : (ℕ → Bool) → ℕ → ℕ → ℕ → ℕ
bisect present zero low high = low
bisect present (suc fuel) low high =
    let mid = low + (high - low) / 2 in
    let rest =
      bisect present fuel (if present mid then mid else low) (if present mid then high else mid) in
    if ltb 1 (high - low) then rest else low

-- Where the doubling loop ends: with a length, or with the ends of an interval.
pub data Doubled : Type 0 where
  returned : ℕ → Doubled
  between : ℕ → ℕ → Doubled

-- while (hasIntegerKey(high)), on fuel
unfoldable pub double_high : (ℕ → Bool) → ℕ → ℕ → ℕ → Doubled
double_high present zero low high = between low high
double_high present (suc fuel) low high =
    let rest = double_high present fuel high (high * 2) in
    if present high
    then (if ltb (i32_max / 2) high then returned high else rest)
    else between low high

unfoldable pub finish : (ℕ → Bool) → Doubled → ℕ
unfolding bisect
finish present (returned n) = n
finish present (between low high) = bisect present high low high

module _ {F : Type 0} ⦃d : Doubles F⦄ where
  unfoldable pub has_integer_key : Table F → ℕ → Bool
  unfolding in_array array_value is_nil find_hash_node is_found
  has_integer_key t index =
      if (index == 0) || ltb i32_max index
      then false
      else if not (is_nil (array_value t (in_array t (integer_key index))))
      then true
      else is_found (find_hash_node t.hash.nodes (integer_key index) false)

  -- The test of the search in the array part.
  unfoldable pub slot_there : Table F → ℕ → Bool
  unfolding is_nil
  slot_there t mid = not (is_nil (get_or t.array (mid - 1) nil))

  -- The search beyond the array part. 32 rounds of doubling pass the largest `i32`.
  unfoldable pub search_beyond : Table F → ℕ
  unfolding finish double_high has_integer_key
  search_beyond t =
      let size = length t.array in
      finish (has_integer_key t)
        (double_high (has_integer_key t) 32 size (if size == 0 then 1 else size * 2))

  unfoldable pub length_of : Table F → ℕ
  unfolding bisect slot_there has_integer_key search_beyond
  length_of t =
      let size = length t.array in
      if ltb 0 size
      then (if slot_there t size
          then (if has_integer_key t (size + 1) then search_beyond t else size)
          else bisect (slot_there t) size 0 size)
      else search_beyond t
