-- ===== src/Table/Next.antt =====
-- Traversal (src/core/table.cpp, `next`).
use native.Mathlib.Decide.{ℕ_discrete}
use lua.Prelude.{
  ℕ, zero, suc, ◌+◌, ◌-◌, ◌≤◌, ◌<◌, ◌≡◌, inl, inr, refl, true, false, not, ◌||◌, List, Option, none,
  some, if◌then◌else◌, length, get_or, arith, Bool-cases,
}
use lua.Prelude.Result.{Result, ok, err}
use lua.Table.Nodes.{
  HashNode, TableError, invalid_key_to_next, node, is_live, live_from, next_live_hash_node,
  find_hash_node,
}
use lua.Table.Whole.{Table, in_array, integer_key, is_found}
use lua.Value.{Doubles, Value, nil, is_nil}

module _ {F : Type 0} ⦃d : Doubles F⦄ where
  -- for (usize i = first; i < array_.size(); i++), on the rounds left
  unfoldable pub value_from : List (Value F) → ℕ → ℕ → Option ℕ
  unfolding is_nil
  value_from array zero i = none
  value_from array (suc rounds) i =
      let rest = value_from array rounds (i + 1) in
      if is_nil (get_or array i nil) then rest else some i

  -- The entry at a node, or the end.
  unfoldable pub node_entry : Table F → Option ℕ → Option (Value F × Value F)
  node_entry t none = none
  node_entry t (some i) = some ((node t.hash.nodes i).key, (node t.hash.nodes i).value)

  unfoldable pub array_entry : Table F → Option ℕ → Option (Value F × Value F)
  unfolding node_entry next_live_hash_node
  array_entry t none = node_entry t (next_live_hash_node t.hash.nodes 0)
  array_entry t (some i) = some (integer_key (i + 1), get_or t.array i nil)

  -- The rest of the array part from `first` on, and then the hash part.
  unfoldable pub entries_from : Table F → ℕ → Option (Value F × Value F)
  unfolding array_entry value_from
  entries_from t first = array_entry t (value_from t.array (length t.array - first) first)

  unfoldable pub after_node : Table F → Option ℕ → Result TableError (Option (Value F × Value F))
  unfolding node_entry next_live_hash_node
  after_node t none = err invalid_key_to_next
  after_node t (some i) = ok (node_entry t (next_live_hash_node t.hash.nodes (i + 1)))

  -- A key with a slot in the array part counts as one of the hash part when its slot is nil and it
  -- has a node, dead or live.
  unfoldable pub after_key :
      Table F → Value F → Option ℕ → Result TableError (Option (Value F × Value F))
  unfolding entries_from after_node find_hash_node is_found is_nil
  after_key t key none = after_node t (find_hash_node t.hash.nodes key true)
  after_key t key (some index) =
      if not (is_nil (get_or t.array (index - 1) nil))
        || not (is_found (find_hash_node t.hash.nodes key true))
      then ok (entries_from t index)
      else after_node t (find_hash_node t.hash.nodes key true)

  unfoldable pub next : Table F → Value F → Result TableError (Option (Value F × Value F))
  unfolding after_key entries_from in_array is_nil
  next t key = if is_nil key then ok (entries_from t 0) else after_key t key (in_array t key)

module _ {F : Type 0} where
  -- The first live node from `first` on, if there is one.
  pub FirstLive : List (HashNode F) → ℕ → Option ℕ → Type 0
  FirstLive ns first none = (m : ℕ) → first ≤ m → m < length ns → is_live (node ns m).state ≡ false
  FirstLive ns first (some i) =
      (first ≤ i)
      × (i < length ns)
      × (is_live (node ns i).state ≡ true)
      × ((m : ℕ) → first ≤ m → m < i → is_live (node ns m).state ≡ false)

  live_from-FirstLive :
      (ns : List (HashNode F)) (rounds first : ℕ)
      → rounds ≡ length ns - first
      → FirstLive ns first (live_from ns rounds first)
  unfolding live_from FirstLive
  live_from-FirstLive ns zero first e = λ m low high. absurd (omega arith)
  live_from-FirstLive ns (suc rounds) first e = elim (Bool-cases (is_live (node ns first).state)) [
    | inl alive ↦ rw alive (omega arith, omega arith, alive, λ m low high. absurd (omega arith))
    | inr gone ↦ rw gone (
        later (live_from ns rounds (first + 1)) gone
          (live_from-FirstLive ns rounds (first + 1) (omega arith)))
  ]
    where
      later :
          (r : Option ℕ)
          → is_live (node ns first).state ≡ false
          → FirstLive ns (first + 1) r
          → FirstLive ns first r
      later none gone h = λ m low high. elim (ℕ_discrete m first) [
        | yes same ↦ rw same gone
        | no ne ↦ h m (omega arith) high
      ]
      later (some i) gone (low, inside, alive, before) = (
        omega arith,
        inside,
        alive,
        λ m low' high. elim (ℕ_discrete m first) [
          | yes same ↦ rw same gone
          | no ne ↦ before m (omega arith) high
        ],
      )

  -- Traversal of the hash part goes on with the first live node from a slot on, and ends only if
  -- there is none: it skips no live node and gives no dead one.
  pub next_live_hash_node-FirstLive :
      (ns : List (HashNode F)) (first : ℕ) → FirstLive ns first (next_live_hash_node ns first)
  unfolding next_live_hash_node
  next_live_hash_node-FirstLive ns first = live_from-FirstLive ns (length ns - first) first refl
