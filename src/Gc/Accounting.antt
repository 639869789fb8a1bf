-- ===== src/Gc/Accounting.antt =====
-- The byte accounts of the collector (src/gc/garbage_collector.cpp). `usize` has 64 bits, and
-- `isize` is its signed counterpart.
use lua.Prelude.{
  ℕ, ◌+◌, ◌-◌, ◌*◌, ◌/◌, ◌%◌, ◌^◌, ◌≤◌, max, min, ◌≡◌, ◌||◌, ltb, leb, if◌then◌else◌, arith,
}
use lua.Prelude.Int.{ℤ, pos, negsuc, ◌+ℤ◌, ◌-ℤ◌, ◌≤ℤ◌, ltb_ℤ, +ℤ_parts, -ℤ_parts}
use native.Mathlib.Nat.{mul-le-mul_left, le-div_iff_mul-le}
use lua.Table.Nodes.{usize_max}

abbrev pub isize_max : ℕ
isize_max = 2 ^ 63 - 1

-- The least `isize`, -(2 ^ 63)
abbrev pub isize_min : ℤ
isize_min = negsuc (2 ^ 63 - 1)

unfoldable pub add_debt : ℤ → ℕ → ℤ
add_debt debt bytes =
    if ltb isize_max bytes || ltb_ℤ (pos isize_max -ℤ pos bytes) debt
    then pos isize_max
    else debt +ℤ pos bytes

unfoldable pub subtract_debt : ℤ → ℕ → ℤ
subtract_debt debt bytes =
    if ltb isize_max bytes || ltb_ℤ debt (isize_min +ℤ pos bytes)
    then isize_min
    else debt -ℤ pos bytes

unfoldable pub add_live_bytes : ℕ → ℕ → ℕ
add_live_bytes total bytes = if ltb (usize_max - total) bytes then usize_max else total + bytes

unfoldable pub subtract_live_bytes : ℕ → ℕ → ℕ
subtract_live_bytes total bytes = if leb bytes total then total - bytes else 0

abbrev pub minimum_threshold : ℕ
minimum_threshold = 64 * 1024

-- `pause` holds `std::max(0, pause)`, which gives the same maximum with 100.
unfoldable pub paused_threshold : ℕ → ℕ → ℕ
paused_threshold live_bytes pause =
    let percent = max 100 pause in
    if ltb (usize_max / percent) live_bytes
    then usize_max
    else max minimum_threshold (live_bytes * percent / 100)

unfoldable pub saturated_step_bytes : ℕ → ℕ
saturated_step_bytes scaled =
    let whole = scaled / 100 in
    let remainder = scaled % 100 * 1024 / 100 in
    if ltb (usize_max / 1024) whole
    then usize_max
    else if ltb (usize_max - whole * 1024) remainder
    then usize_max
    else whole * 1024 + remainder

-- For a debt in the range of `isize`, adding a number of bytes that `isize` holds gives the sum, or
-- the largest `isize` where the sum lies beyond it, and subtracting gives the difference, or the
-- least `isize` where the difference lies beyond it. A larger number of bytes gives that bound,
-- whatever the debt. Both results are in the range of `isize`.
pub debt-saturates :
    (debt : ℤ) (bytes : ℕ)
    → debt ≤ℤ pos isize_max
    → isize_min ≤ℤ debt
    → (add_debt debt bytes ≡ (
        if ltb isize_max bytes || ltb_ℤ (pos isize_max) (debt +ℤ pos bytes)
        then pos isize_max
        else debt +ℤ pos bytes))
      × (subtract_debt debt bytes ≡ (
          if ltb isize_max bytes || ltb_ℤ (debt -ℤ pos bytes) isize_min
          then isize_min
          else debt -ℤ pos bytes))
      × ((isize_min ≤ℤ add_debt debt bytes) × (add_debt debt bytes ≤ℤ pos isize_max))
      × ((isize_min ≤ℤ subtract_debt debt bytes) × (subtract_debt debt bytes ≤ℤ pos isize_max))
unfolding add_debt subtract_debt
debt-saturates debt bytes high low = (
  ground (arith, +ℤ_parts debt (pos bytes), -ℤ_parts (pos isize_max) (pos bytes)),
  ground (arith, -ℤ_parts debt (pos bytes), +ℤ_parts isize_min (pos bytes)),
  (
    ground (arith, +ℤ_parts debt (pos bytes), -ℤ_parts (pos isize_max) (pos bytes)),
    ground (arith, +ℤ_parts debt (pos bytes), -ℤ_parts (pos isize_max) (pos bytes)),
  ),
  (
    ground (arith, -ℤ_parts debt (pos bytes), +ℤ_parts isize_min (pos bytes)),
    ground (arith, -ℤ_parts debt (pos bytes), +ℤ_parts isize_min (pos bytes)),
  ),
)

-- For every scaled number, the computation without an overflow gives the exact number of bytes, or
-- the largest `usize` where that lies beyond it.
pub saturated_step_bytes_lem :
    (scaled : ℕ) → saturated_step_bytes scaled ≡ min (scaled * 1024 / 100) usize_max
unfolding saturated_step_bytes
saturated_step_bytes_lem scaled = ground arith

-- A percentage of at least 100 gives no less.
scale : (live percent : ℕ) → 100 ≤ percent → live * 100 ≤ live * percent
scale live percent h = mul-le-mul_left live h

room : (live percent : ℕ) → 100 ≤ percent → live ≤ usize_max / percent → live * percent ≤ usize_max
room live percent h e = (le-div_iff_mul-le {k = percent} (omega arith)).0 e

pub paused_threshold-bounds :
    (live pause : ℕ)
    → live ≤ usize_max
    → (live ≤ paused_threshold live pause)
      × (paused_threshold live pause ≤ usize_max)
      × (minimum_threshold ≤ paused_threshold live pause)
unfolding paused_threshold
paused_threshold-bounds live pause h =
    ground
      (arith, scale live (max 100 pause) (omega arith), room live (max 100 pause) (omega arith))
