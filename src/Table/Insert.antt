-- ===== src/Table/Insert.antt =====
-- `setHash` and `removeHash` with `ensureHashInsertCapacity` (src/core/table.cpp).
use lua.Prelude.{
  ℕ, ◌+◌, ◌-◌, ◌*◌, ◌/◌, true, false, List, Option, none, some, ltb, leb, ◌==◌, if◌then◌else◌,
  length, set,
}
use lua.Prelude.Result.{Result, ok, ◌>>=◌, ◌>>◌, require}
use lua.Table.Nodes.{
  HashNode, TableError, hash_limit, bad_array_length, live, dead, is_live, node, home,
  find_hash_node, new_slot, rehash, usize_max,
}
use lua.Value.{Doubles, Value, nil, value_hash}

-- The hash part with its counters: live nodes, and nodes that are not empty.
pub record HashPart (F : Type 0) : Type 0 where
  pub nodes : List (HashNode F)
  pub live_count : ℕ
  pub used_count : ℕ

module _ {F : Type 0} where
  -- `rehash` of the member array resets the count of used nodes.
  unfoldable pub rehash_to : HashPart F → ℕ → Result TableError (HashPart F)
  unfolding rehash
  rehash_to t requested =
      rehash t.nodes requested
      >>= (λ nodes. ok (record t { nodes = nodes; used_count = t.live_count }))

  unfoldable pub ensure_hash_insert_capacity : HashPart F → Result TableError (HashPart F)
  unfolding rehash_to
  ensure_hash_insert_capacity t =
      let size = length t.nodes in
      if size == 0
      then rehash_to t 8
      else if leb (t.used_count + 1) (size - size / 4)
      then ok t
      else if ltb (t.live_count * 2) t.used_count
      then rehash_to t size
      else require (leb size (usize_max / 2)) bad_array_length >> rehash_to t (size * 2)

module _ {F : Type 0} ⦃d : Doubles F⦄ where
  abbrev pub live_node : Value F → Value F → HashNode F
  live_node key value = record { key = key; value = value; hash = value_hash key; state = live }

  -- The end of `setHash` for a key that has no node: the slot is found and filled.
  unfoldable pub insert_new : HashPart F → Value F → Value F → Result TableError (HashPart F)
  unfolding new_slot
  insert_new t key value =
      new_slot t.nodes none (length t.nodes) (home t.nodes (value_hash key)) >>= (λ r. ok (record {
        nodes = set t.nodes r.0 (live_node key value);
        live_count = t.live_count + 1;
        used_count = if r.1 then t.used_count + 1 else t.used_count;
      }))

  -- The branch of a key whose node is at `i`: a live one gets the value, a dead one comes back.
  unfoldable pub set_found : ℕ → HashPart F → ℕ → Value F → Result TableError (HashPart F)
  set_found max_entries t i value =
      let n = node t.nodes i in
      if is_live n.state
      then ok (record t { nodes = set t.nodes i (record n { value = value }) })
      else require (ltb t.live_count max_entries) hash_limit
        >> ok (record t {
          nodes = set t.nodes i (record n { value = value; state = live });
          live_count = t.live_count + 1;
        })

  -- `setHash` after the search for a node of the key; `max_entries` is `maxTableHashEntries` of the
  -- resource policy.
  unfoldable pub set_at :
      ℕ → HashPart F → Value F → Value F → Option ℕ → Result TableError (HashPart F)
  unfolding set_found ensure_hash_insert_capacity insert_new
  set_at max_entries t key value (some i) = set_found max_entries t i value
  set_at max_entries t key value none =
      require (ltb t.live_count max_entries) hash_limit
      >> (ensure_hash_insert_capacity t >>= (λ t'. insert_new t' key value))

  unfoldable pub set_hash : ℕ → HashPart F → Value F → Value F → Result TableError (HashPart F)
  unfolding find_hash_node set_at
  set_hash max_entries t key value =
      set_at max_entries t key value (find_hash_node t.nodes key true)

  -- `removeHash` after its search.
  unfoldable pub remove_at : HashPart F → Option ℕ → HashPart F
  remove_at t none = t
  remove_at t (some i) = record t {
    nodes = set t.nodes i (record (node t.nodes i) { value = nil; state = dead });
    live_count = t.live_count - 1;
  }

  unfoldable pub remove_hash : HashPart F → Value F → HashPart F
  unfolding find_hash_node remove_at
  remove_hash t key = remove_at t (find_hash_node t.nodes key false)
