-- ===== src/Table/Whole.antt =====
-- The operations of a whole table (src/core/table.hpp, table.cpp). A throw leaves the table as the
-- caller has it; the only field that the source may have changed by then is `flags`. The calls of the
-- collector change no field and are left out.
use lua.Prelude.{
  ℕ, suc, ◌+◌, ◌-◌, Bool, true, false, not, ◌&&◌, ◌||◌, List, [], ◌∷◌, ◌++◌, Option, none, some,
  ltb, leb, ◌==◌, if◌then◌else◌, length, get_or, set, replicate,
}
use lua.Prelude.Result.{Result, ok, ◌>>=◌, ◌>>◌, require}
use lua.Table.Insert.{HashPart, set_hash, remove_hash}
use lua.Table.Nodes.{
  TableError, index_is_nil, index_is_nan, array_limit, bad_array_length, node, find_hash_node,
  usize_max,
}
use lua.Prelude.Int.{i32_max}
use lua.Value.{Doubles, Value, nil, number, is_nil, is_nan_value}

-- The limits of the resource policy that tables read.
pub record ResourcePolicy : Type 0 where
  pub max_table_array_slots : ℕ
  pub max_table_hash_entries : ℕ

-- `metatable` is the address of the metatable; `flags` caches the metamethods known to be absent.
pub record Table (F : Type 0) : Type 0 where
  pub array : List (Value F)
  pub hash : HashPart F
  pub metatable : Option ℕ
  pub flags : ℕ

module _ {F : Type 0} where
  abbrev pub no_hash : HashPart F
  no_hash = record { nodes = []; live_count = 0; used_count = 0 }

  unfoldable pub clear_table : Table F → Table F
  clear_table t = record { array = []; hash = no_hash; metatable = none; flags = 0 }

  unfoldable pub set_metatable : Table F → Option ℕ → Table F
  set_metatable t mt = record t { metatable = mt }

  unfoldable pub should_store_in_array : ResourcePolicy → Table F → ℕ → Bool
  should_store_in_array p t index =
      if ltb index 1
      then false
      else if ltb p.max_table_array_slots index
      then false
      else (leb index (length t.array) || (index == length t.array + 1))

  unfoldable pub get_array : Table F → ℕ → Value F
  get_array t index =
      if ltb index 1
      then nil
      else if ltb (index - 1) (length t.array)
      then get_or t.array (index - 1) nil
      else nil

  -- array_.resize(requiredSize, Value()), when it grows
  unfoldable pub grown : List (Value F) → ℕ → List (Value F)
  grown array required =
      if ltb (length array) required
      then array ++ replicate (required - length array) nil
      else array

unfoldable pub is_found : Option ℕ → Bool
is_found none = false
is_found (some i) = true

module _ {F : Type 0} ⦃d : Doubles F⦄ where
  unfoldable pub is_positive_integer_key : Value F → Option ℕ
  is_positive_integer_key (number a) =
      if d.less_eq a (d.of_nat 0) || not (d.equal a (d.floor a))
      then none
      else if not (d.less_eq a (d.of_nat i32_max))
      then none
      else some (d.to_i32 a)
  is_positive_integer_key _ = none

  abbrev pub integer_key : ℕ → Value F
  integer_key n = number (d.of_nat n)

  unfoldable pub within_array : Table F → Option ℕ → Option ℕ
  within_array t none = none
  within_array t (some index) = if leb index (length t.array) then some index else none

  -- isPositiveIntegerKey(key, index) && static_cast<usize>(index) <= array_.size()
  unfoldable pub in_array : Table F → Value F → Option ℕ
  unfolding is_positive_integer_key within_array
  in_array t key = within_array t (is_positive_integer_key key)

  unfoldable pub hash_value : Table F → Option ℕ → Value F
  hash_value t none = nil
  hash_value t (some i) = (node t.hash.nodes i).value

  unfoldable pub array_value : Table F → Option ℕ → Value F
  unfolding get_array
  array_value t none = nil
  array_value t (some index) = get_array t index

  unfoldable pub get : Table F → Value F → Value F
  unfolding in_array hash_value array_value find_hash_node is_nil
  get t key =
      let value = array_value t (in_array t key) in
      if is_nil value then hash_value t (find_hash_node t.hash.nodes key false) else value

  unfoldable pub has : Table F → Value F → Bool
  unfolding in_array array_value find_hash_node is_nil is_found
  has t key =
      if not (is_nil (array_value t (in_array t key)))
      then true
      else is_found (find_hash_node t.hash.nodes key false)

  unfoldable pub clear_slot : Table F → Option ℕ → List (Value F)
  unfolding is_nil
  clear_slot t none = t.array
  clear_slot t (some index) =
      if is_nil (get_or t.array (index - 1) nil) then t.array else set t.array (index - 1) nil

  unfoldable pub remove : Table F → Value F → Table F
  unfolding in_array clear_slot remove_hash
  remove t key = record t {
    array = clear_slot t (in_array t key);
    hash = remove_hash t.hash key;
    flags = 0;
  }

  -- The loop of `setArrayRange`.
  unfoldable pub set_values : Table F → ℕ → List (Value F) → Table F
  unfolding remove_hash
  set_values t i [] = t
  set_values t i (v ∷ vs) =
      set_values
        (record t { array = set t.array i v; hash = remove_hash t.hash (integer_key (i + 1)) })
        (suc i) vs

  unfoldable pub set_array_range :
      ResourcePolicy → Table F → ℕ → List (Value F) → Result TableError (Table F)
  unfolding grown set_values
  set_array_range p t first_index values =
      let first = first_index - 1 in
      let required = first + length values in
      if ltb first_index 1 || (length values == 0)
      then ok t
      else require (leb (length values) (usize_max - first)) bad_array_length
        >> (require (leb required p.max_table_array_slots) array_limit
            >> ok
                (set_values (record t { array = grown t.array required; flags = 0 }) first values))

  unfoldable pub set_array : ResourcePolicy → Table F → ℕ → Value F → Result TableError (Table F)
  unfolding set_array_range remove_hash is_nil
  set_array p t index value =
      if ltb index 1
      then ok t
      else if is_nil value && ltb (length t.array) index
      then ok (record t { hash = remove_hash t.hash (integer_key index) })
      else set_array_range p t index (value ∷ [])

  -- The end of `set`, for a value that is not nil.
  unfoldable pub set_hash_of :
      ResourcePolicy → Table F → Value F → Value F → Result TableError (Table F)
  unfolding set_hash
  set_hash_of p t key value =
      set_hash p.max_table_hash_entries t.hash key value
      >>= (λ h. ok (record t { hash = h; flags = 0 }))

  unfoldable pub store :
      ResourcePolicy → Table F → Value F → Value F → Option ℕ → Result TableError (Table F)
  unfolding set_array set_hash_of should_store_in_array
  store p t key value none = set_hash_of p t key value
  store p t key value (some index) =
      if should_store_in_array p t index
      then set_array p (record t { flags = 0 }) index value
      else set_hash_of p t key value

  unfoldable pub set_key :
      ResourcePolicy → Table F → Value F → Value F → Result TableError (Table F)
  unfolding store remove is_positive_integer_key is_nil is_nan_value
  set_key p t key value =
      require (not (is_nil key)) index_is_nil
      >> (require (not (is_nan_value key)) index_is_nan
          >> (if is_nil value
              then ok (remove t key)
              else store p t key value (is_positive_integer_key key)))
