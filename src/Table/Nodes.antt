-- ===== src/Table/Nodes.antt =====
-- The hash part of a table: a node array with open addressing, in which the slot of a removed key
-- stays occupied by a dead node (src/core/table.hpp, table.cpp). The size of the array is 0 or a
-- power of two. The calls of the collector (write barriers, accounting) change no field of the
-- table and are left out.
use Prim.Native.Nat.{bit_and}
use lua.Prelude.{
  ℕ, zero, suc, ◌+◌, ◌-◌, ◌*◌, ◌/◌, ◌^◌, Bool, true, false, ◌&&◌, ◌||◌, List, [], ◌∷◌, Option, none,
  some, ltb, ◌==◌, if◌then◌else◌, length, get_or, set, replicate,
}
use lua.Prelude.Result.{Result, ok, err, ◌>>=◌}
use lua.Value.{Doubles, Value, nil, value_eq, value_hash}

pub data HashNodeState : Type 0 where
  empty live dead : HashNodeState

pub record HashNode (F : Type 0) : Type 0 where
  pub key : Value F
  pub value : Value F
  pub hash : ℕ
  pub state : HashNodeState

-- The exceptions. `no_free_slot` stands for none: it is the end of the fuel of a probe for a free
-- slot, which `Store` and `Rehash` prove not to occur.
pub data TableError : Type 0 where
  index_is_nil index_is_nan array_limit hash_limit bad_array_length invalid_key_to_next : TableError
  no_free_slot : TableError

abbrev pub usize_max : ℕ
usize_max = 2 ^ 64 - 1

abbrev pub is_empty : HashNodeState → Bool
is_empty empty = true
is_empty _ = false

abbrev pub is_live : HashNodeState → Bool
is_live live = true
is_live _ = false

abbrev pub is_dead : HashNodeState → Bool
is_dead dead = true
is_dead _ = false

-- while (capacity < requested) capacity *= 2, on fuel. The capacity after 60 rounds from 8 is beyond
-- half of the largest `usize`, so that 64 rounds do not run out.
unfoldable pub double_until : ℕ → ℕ → ℕ → Result TableError ℕ
double_until zero capacity requested = err bad_array_length
double_until (suc fuel) capacity requested =
    let rest = double_until fuel (capacity * 2) requested in
    if ltb capacity requested
    then (if ltb (usize_max / 2) capacity then err bad_array_length else rest)
    else ok capacity

module _ {F : Type 0} where
  -- A default-constructed node.
  abbrev pub empty_node : HashNode F
  empty_node = record { key = nil; value = nil; hash = 0; state = empty }

  abbrev pub node : List (HashNode F) → ℕ → HashNode F
  node ns i = get_or ns i empty_node

  -- `(index + 1) & mask`
  abbrev pub next_index : List (HashNode F) → ℕ → ℕ
  next_index ns index = bit_and (index + 1) (length ns - 1)

  abbrev pub home : List (HashNode F) → ℕ → ℕ
  home ns hash = bit_and hash (length ns - 1)

  -- for (index = first; index < size; ++index), on the rounds left
  unfoldable pub live_from : List (HashNode F) → ℕ → ℕ → Option ℕ
  live_from ns zero index = none
  live_from ns (suc rounds) index =
      let rest = live_from ns rounds (index + 1) in
      if is_live (node ns index).state then some index else rest

  unfoldable pub next_live_hash_node : List (HashNode F) → ℕ → Option ℕ
  unfolding live_from
  next_live_hash_node ns first = live_from ns (length ns - first) first

  -- The loop of `rehash` that looks for a slot with no live node.
  unfoldable pub free_slot : List (HashNode F) → ℕ → ℕ → Result TableError ℕ
  free_slot ns zero index = err no_free_slot
  free_slot ns (suc fuel) index =
      let rest = free_slot ns fuel (next_index ns index) in
      if is_live (node ns index).state then rest else ok index

  -- One round of the loop of `rehash` over the old nodes.
  unfoldable pub move_node : List (HashNode F) → HashNode F → Result TableError (List (HashNode F))
  unfolding free_slot
  move_node replacement old =
      if is_live old.state
      then free_slot replacement (length replacement) (home replacement old.hash)
        >>= (λ index. ok (set replacement index old))
      else ok replacement

  unfoldable pub move_nodes :
      List (HashNode F) → List (HashNode F) → Result TableError (List (HashNode F))
  move_nodes replacement [] = ok replacement
  move_nodes replacement (old ∷ rest) = move_node replacement old >>= (λ next. move_nodes next rest)

  unfoldable pub rehash : List (HashNode F) → ℕ → Result TableError (List (HashNode F))
  unfolding double_until move_nodes
  rehash ns requested =
      double_until 64 8 requested >>= (λ capacity. move_nodes (replicate capacity empty_node) ns)

  -- `if (state == Dead && firstDead == NoHashNode) firstDead = index`
  unfoldable pub remember : List (HashNode F) → Option ℕ → ℕ → Option ℕ
  remember ns none index = if is_dead (node ns index).state then some index else none
  remember ns (some i) index = some i

  -- The loop of `setHash` for a new key: the first dead slot before the first empty one, if there
  -- is a dead one, and whether the slot is the empty one.
  unfoldable pub new_slot : List (HashNode F) → Option ℕ → ℕ → ℕ → Result TableError (ℕ × Bool)
  unfolding remember
  new_slot ns first_dead zero index = err no_free_slot
  new_slot ns first_dead (suc fuel) index =
      let rest = new_slot ns (remember ns first_dead index) fuel (next_index ns index) in
      if is_empty (node ns index).state
      then ok (elim first_dead [ none ↦ (index, true) | some i ↦ (i, false) ])
      else rest

module _ {F : Type 0} ⦃d : Doubles F⦄ where
  -- The test of a probed node.
  abbrev pub matches : HashNode F → Value F → Bool → Bool
  matches n key include_dead =
      (n.hash == value_hash key) && value_eq n.key key && (is_live n.state || include_dead)

  -- The loop of `findHashNode`, on the probes left; `none` is `NoHashNode`.
  unfoldable pub probe : List (HashNode F) → Value F → Bool → ℕ → ℕ → Option ℕ
  probe ns key include_dead zero index = none
  probe ns key include_dead (suc probes) index =
      let rest = probe ns key include_dead probes (next_index ns index) in
      if is_empty (node ns index).state
      then none
      else if matches (node ns index) key include_dead
      then some index
      else rest

  unfoldable pub find_hash_node : List (HashNode F) → Value F → Bool → Option ℕ
  unfolding probe
  find_hash_node ns key include_dead =
      probe ns key include_dead (length ns) (home ns (value_hash key))
