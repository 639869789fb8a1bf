-- ===== src/Table/Border.antt =====
-- The result of the length operator is a border (src/core/table.cpp).
use native.Mathlib.Decide.{ℕ_discrete, dec_lt}
use native.Mathlib.Nat.{pow-succ'}
use lua.Prelude.{
  ℕ, zero, suc, ◌+◌, ◌-◌, ◌*◌, ◌/◌, ◌^◌, ◌≤◌, ◌<◌, ◌≡◌, ◌⊎◌, inl, inr, refl, ap, ◌∙◌, Bool, true,
  false, none, ltb, lt→ltb, ◌==◌, if◌then◌else◌, length, get_or, arith, Bool-cases,
}
use lua.Table.Length.{
  bisect, Doubled, returned, between, double_high, finish, has_integer_key, slot_there,
  search_beyond, length_of,
}
use lua.Table.Nodes.{find_hash_node}
use lua.Table.Whole.{
  Table, integer_key, in_array, within_array, array_value, get_array, is_positive_integer_key,
  is_found,
}
use lua.Prelude.Int.{i32_max}
use lua.Value.{Doubles, nil, is_nil}

-- `n` is 0 or there, and `n + 1` is not there.
abbrev pub IsBorder : (ℕ → Bool) → ℕ → Type 0
IsBorder present n = ((n ≡ 0) ⊎ (present n ≡ true)) × (present (n + 1) ≡ false)

-- Bisection of an interval from 0 or a key that is there to one that is not ends at a border.
bisect-IsBorder :
    (present : ℕ → Bool) (fuel low high : ℕ)
    → (low ≡ 0) ⊎ (present low ≡ true)
    → present high ≡ false
    → low < high
    → high ≤ low + fuel
    → IsBorder present (bisect present fuel low high)
unfolding bisect
bisect-IsBorder present zero low high l h lt enough = absurd (omega arith)
bisect-IsBorder present (suc fuel) low high l h lt enough = elim (dec_lt 1 (high - low)) [
  | no close ↦
      let next : high ≡ low + 1 = omega arith in
      let stop : ltb 1 (high - low) ≡ false = ground arith in rw stop (l, rw (← next) h)
  | yes wide ↦
      let go = lt→ltb 1 (high - low) wide in
      let mid = low + (high - low) / 2 in
      elim (Bool-cases (present mid)) [
        | inl there ↦
            rw (go, there)
              (bisect-IsBorder present fuel mid high (inr there) h (omega arith) (omega arith))
        | inr gone ↦
            rw (go, gone) (bisect-IsBorder present fuel low mid l gone (omega arith) (omega arith))
      ]
]

bisect-lt :
    (present : ℕ → Bool) (fuel low high : ℕ) → low < high → bisect present fuel low high < high
unfolding bisect
bisect-lt present zero low high lt = lt
bisect-lt present (suc fuel) low high lt = elim (dec_lt 1 (high - low)) [
  | no close ↦ let stop : ltb 1 (high - low) ≡ false = ground arith in rw stop lt
  | yes wide ↦
      let go = lt→ltb 1 (high - low) wide in
      let mid = low + (high - low) / 2 in
      elim (Bool-cases (present mid)) [
        | inl there ↦ rw (go, there) (bisect-lt present fuel mid high (omega arith))
        | inr gone ↦
            let below = bisect-lt present fuel low mid (omega arith) in
            rw (go, gone) (omega (arith, below))
      ]
]

-- What the doubling loop hands over.
abbrev Handed : (ℕ → Bool) → Doubled → Type 0
Handed present (returned n) = (present n ≡ true) × (i32_max / 2 < n)
Handed present (between low high) =
    ((low ≡ 0) ⊎ (present low ≡ true)) × (present high ≡ false) × (low < high)

double_high-Handed :
    (present : ℕ → Bool) (fuel low high : ℕ)
    → ((n : ℕ) → i32_max < n → present n ≡ false)
    → (low ≡ 0) ⊎ (present low ≡ true)
    → low < high
    → i32_max < high * 2 ^ fuel
    → Handed present (double_high present fuel low high)
unfolding double_high
double_high-Handed present zero low high top l lt far = (l, top high (omega arith), lt)
double_high-Handed present (suc fuel) low high top l lt far = elim (Bool-cases (present high)) [
  | inr gone ↦ rw gone (l, gone, lt)
  | inl there ↦ elim (dec_lt (i32_max / 2) high) [
    | yes large ↦ rw (there, lt→ltb (i32_max / 2) high large) (there, large)
    | no small ↦
        let go : ltb (i32_max / 2) high ≡ false = ground arith in
        let further : i32_max < high * 2 * 2 ^ fuel =
          omega (arith, ap (λ (t : ℕ). high * t) (pow-succ' 2 fuel)) in
        rw (there, go)
          (double_high-Handed present fuel high (high * 2) top (inr there) (omega arith) further)
  ]
]

-- A border, or a key that is there and beyond half of the largest `i32`.
abbrev pub IsLength : (ℕ → Bool) → ℕ → Type 0
IsLength present n =
    ((n ≡ 0) ⊎ (present n ≡ true)) × ((present (n + 1) ≡ false) ⊎ (i32_max / 2 < n))

border-IsLength : (present : ℕ → Bool) (n : ℕ) → IsBorder present n → IsLength present n
border-IsLength present n (l, r) = (l, inl r)

finish-IsLength :
    (present : ℕ → Bool) (r : Doubled) → Handed present r → IsLength present (finish present r)
unfolding finish
finish-IsLength present (returned n) (there, large) = (inr there, inr large)
finish-IsLength present (between low high) (l, gone, lt) =
    border-IsLength present (bisect present high low high)
      (bisect-IsBorder present high low high l gone lt (omega arith))

module _ {F : Type 0} ⦃d : Doubles F⦄ where
  -- No key of the array part has a live node in the hash part.
  pub record Apart (t : Table F) : Type 0 where
    pub small : length t.array ≤ i32_max
    pub no_node :
        (i : ℕ)
        → 1 ≤ i
        → i ≤ length t.array
        → find_hash_node t.hash.nodes (integer_key i) false ≡ none

  beyond_top : (t : Table F) (n : ℕ) → i32_max < n → has_integer_key t n ≡ false
  unfolding has_integer_key
  beyond_top t n h = elim (Bool-cases (n == 0)) [
    | inl e ↦ rw e refl
    | inr e ↦ rw (e, lt→ltb i32_max n h) refl
  ]

  slot_value :
      (t : Table F) (i : ℕ)
      → 1 ≤ i
      → i ≤ length t.array
      → i ≤ i32_max
      → array_value t (in_array t (integer_key i)) ≡ get_or t.array (i - 1) nil
  unfolding array_value in_array within_array get_array is_positive_integer_key
  slot_value t i low high small =
      let (positive, whole, fits, back) = d.whole i low small in
      rw (positive, whole, fits, back) (ground arith)

  present_slot :
      (t : Table F) (i : ℕ)
      → Apart t
      → 1 ≤ i
      → i ≤ length t.array
      → has_integer_key t i ≡ slot_there t i
  unfolding has_integer_key slot_there is_found
  present_slot t i a low high =
      let zero_not : (i == 0) ≡ false = ground arith in
      let top_not : ltb i32_max i ≡ false = ground (arith, a.small) in
      let here = slot_value t i low high (omega (arith, a.small)) in
      elim (Bool-cases (is_nil (get_or t.array (i - 1) nil))) [
        | inl gone ↦ rw (zero_not, top_not, here, gone, a.no_node i low high) refl
        | inr there ↦ rw (zero_not, top_not, here, there) refl
      ]

  search_beyond-IsLength :
      (t : Table F)
      → (length t.array ≡ 0) ⊎ (has_integer_key t (length t.array) ≡ true)
      → IsLength (has_integer_key t) (search_beyond t)
  unfolding search_beyond
  search_beyond-IsLength t l =
      let size = length t.array in
      let start = if size == 0 then 1 else size * 2 in
      finish-IsLength (has_integer_key t) (double_high (has_integer_key t) 32 size start) (
        double_high-Handed (has_integer_key t) 32 size start (beyond_top t) l (ground arith)
          (ground arith))

  array-IsBorder :
      (t : Table F)
      → Apart t
      → 0 < length t.array
      → slot_there t (length t.array) ≡ false
      → IsBorder (has_integer_key t) (bisect (slot_there t) (length t.array) 0 (length t.array))
  array-IsBorder t a some_slots gone =
      let size = length t.array in
      let n = bisect (slot_there t) size 0 size in
      let inside : n < size = bisect-lt (slot_there t) size 0 size some_slots in
      let (left, right) =
        bisect-IsBorder (slot_there t) size 0 size (inl refl) gone some_slots (omega arith) in
      let beyond : has_integer_key t (n + 1) ≡ false =
        present_slot t (n + 1) a (omega arith) (omega arith) ∙ right in
      elim (ℕ_discrete n 0) [
        | yes e ↦ (inl e, beyond)
        | no ne ↦
            let there : slot_there t n ≡ true = elim left [ inl e ↦ absurd (ne e) | inr r ↦ r ] in
            (inr (present_slot t n a (omega arith) (omega arith) ∙ there), beyond)
      ]

  -- In a table whose array part has no key with a live node in the hash part, `length` gives a border
  -- of the integer keys (0 or a key that is there, whose successor is not there), or a key that is
  -- there and beyond half of the largest `i32`, where the source stops doubling. Both searches end.
  pub length_of-IsLength : (t : Table F) → Apart t → IsLength (has_integer_key t) (length_of t)
  unfolding length_of
  length_of-IsLength t a = elim (dec_lt 0 (length t.array)) [
    | no empty_array ↦
        let e : ltb 0 (length t.array) ≡ false = ground arith in
        rw e (search_beyond-IsLength t (inl (omega arith)))
    | yes some_slots ↦
        let e = lt→ltb 0 (length t.array) some_slots in
        let last = present_slot t (length t.array) a (omega arith) (omega arith) in
        elim (Bool-cases (slot_there t (length t.array))) [
          | inr gone ↦
              rw (e, gone)
                (border-IsLength (has_integer_key t) _ (array-IsBorder t a some_slots gone))
          | inl there ↦ elim (Bool-cases (has_integer_key t (length t.array + 1))) [
            | inl more ↦ rw (e, there, more) (search_beyond-IsLength t (inr (last ∙ there)))
            | inr none_more ↦ rw (e, there, none_more) (inr (last ∙ there), inl none_more)
          ]
        ]
  ]
