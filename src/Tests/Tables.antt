-- ===== src/Tests/Tables.antt =====
-- Tables (src/core/table.cpp) with natural numbers for doubles.
use lua.Prelude.{
  ℕ, zero, suc, ◌<◌, ◌≡◌, ◌⊎◌, inr, refl, true, false, List, [], ◌∷◌, none, some, arith,
}
use lua.Prelude.Result.{ok, err}
use lua.Table.Border.{Apart, IsLength, length_of-IsLength}
use lua.Table.Length.{has_integer_key, length_of}
use lua.Table.Next.{next, FirstLive, next_live_hash_node-FirstLive}
use lua.Table.Counts.{count}
use lua.Table.Entries.{live_lookup, WellPlaced-Apart, lookup-live_lookup}
use lua.Table.GetSet.{IsTable, GetsFrom, remove-get}
use lua.Table.Insert.{HashPart, remove_hash}
use lua.Table.Nodes.{
  next_live_hash_node, HashNode, live, index_is_nil, index_is_nan, node, find_hash_node, rehash,
}
use lua.Table.Place.{lookup}
use lua.Table.Probe.{WellPlaced, two_pow-IsPowerOfTwo, find_complete}
use lua.Table.Ready.{IsHashPart}
use lua.Table.Rehash.{Rehashed, rehash-Rehashed}
use lua.Table.Remove.{Removed, remove_hash-Removed}
use lua.Table.SetKey.{SetOutcome, set_key-SetOutcome}
use lua.Table.Store.{Refused, Stored, set_hash-Stored}
use lua.Table.Whole.{integer_key, Table, ResourcePolicy, get, remove, set_key}
use lua.Tests.Numbers.{numbers}
use lua.Value.{Value, nil, number, string, is_nil, is_nan_value, value_eq, value_hash}

-- One node, with the key 5 and the value 50.
abbrev five : HashNode ℕ
five = record { key = number 5; value = number 50; hash = 5; state = live }

five-WellPlaced : WellPlaced (five ∷ [])
unfolding value_hash numbers
five-WellPlaced = record {
  sized = two_pow-IsPowerOfTwo 1 0 refl;
  hashed = λ i h full. only_five i h;
  path = λ i m hi hm full before.
      let e : m ≡ i = omega arith in let b = rw e at before in absurd (omega arith);
  distinct = λ i j hi hj fi fj same. omega arith;
}
  where
    only_five : (i : ℕ) → i < 1 → (node (five ∷ []) i).hash ≡ value_hash (node (five ∷ []) i).key
    only_five zero h = refl
    only_five (suc i) h = absurd (omega arith)

abbrev one_node : HashPart ℕ
one_node = record { nodes = five ∷ []; live_count = 1; used_count = 1 }

one_node-IsHashPart : IsHashPart one_node
unfolding count
one_node-IsHashPart = record {
  placed = inr five-WellPlaced;
  live_ok = refl;
  used_ok = refl;
  room = omega arith;
}

abbrev policy : ResourcePolicy
policy = record { max_table_array_slots = 1000; max_table_hash_entries = 1000 }

-- { [1] = 10, [5] = 50 }
abbrev mixed : Table ℕ
mixed = record { array = number 10 ∷ []; hash = one_node; metatable = none; flags = 3 }

mixed-IsTable : IsTable policy mixed
mixed-IsTable = record { hash_ok = one_node-IsHashPart; array_ok = omega arith }

five-found : value_eq five.key (number 5) ≡ true
unfolding value_eq numbers
five-found = refl

find_complete_example : find_hash_node (five ∷ []) (number 5) false ≡ some 0
find_complete_example =
    find_complete (five ∷ []) five-WellPlaced (number 5) false 0 (omega arith) refl five-found refl

lookup-live_lookup_example : lookup (five ∷ []) (number 5) ≡ live_lookup (five ∷ []) (number 5)
lookup-live_lookup_example = lookup-live_lookup (five ∷ []) (number 5) five-WellPlaced

rehash-Rehashed_example :
    (moved : List (HashNode ℕ)) × (rehash (five ∷ []) 16 ≡ ok moved) × Rehashed (five ∷ []) 16 moved
rehash-Rehashed_example =
    rehash-Rehashed (five ∷ []) 16 (WellPlaced-Apart (five ∷ []) five-WellPlaced) (omega arith)
      (unfold count in omega arith)

set_hash-Stored_example :
    Refused 1000 one_node (string 4) (number 40) ⊎ Stored 1000 one_node (string 4) (number 40)
set_hash-Stored_example =
    set_hash-Stored 1000 one_node (string 4) (number 40) one_node-IsHashPart (omega arith)

remove_hash-Removed_example : Removed one_node (number 5) (remove_hash one_node (number 5))
remove_hash-Removed_example = remove_hash-Removed one_node (number 5) one_node-IsHashPart

remove-get_example :
    IsTable policy (remove mixed (number 1))
    × GetsFrom mixed (number 1) nil (remove mixed (number 1))
remove-get_example = remove-get policy mixed (number 1) mixed-IsTable

abbrev two : Value ℕ
two = number 2

set_key-SetOutcome_example :
    ((is_nil two ≡ true) × (set_key policy mixed (number 2) (number 20) ≡ err index_is_nil))
    ⊎ (((is_nan_value two ≡ true)
          × (set_key policy mixed (number 2) (number 20) ≡ err index_is_nan))
        ⊎ (is_nil two ≡ false)
          × (is_nan_value two ≡ false)
          × SetOutcome policy mixed
              (number 2)
              (number 20)
              (set_key policy mixed (number 2) (number 20)))
set_key-SetOutcome_example =
    set_key-SetOutcome policy mixed (number 2) (number 20) mixed-IsTable (omega arith)

-- A key beyond the array part and its next slot is found in the hash part.
get_five : get mixed (number 5) ≡ number 50
unfolding get numbers value_hash value_eq
get_five = refl

no_one : find_hash_node (five ∷ []) (integer_key 1) false ≡ none
unfolding find_hash_node numbers value_hash
no_one = refl

mixed-Apart : Apart mixed
mixed-Apart = record {
  small = omega arith;
  no_node = λ i low high. let e : i ≡ 1 = omega arith in rw e no_one;
}

length_of-IsLength_example : IsLength (has_integer_key mixed) (length_of mixed)
length_of-IsLength_example = length_of-IsLength mixed mixed-Apart

next_live_hash_node-FirstLive_example : FirstLive (five ∷ []) 0 (next_live_hash_node (five ∷ []) 0)
next_live_hash_node-FirstLive_example = next_live_hash_node-FirstLive (five ∷ []) 0

-- { [1] = 10, [5] = 50 } has length 1, and is traversed from 1 to 5.
mixed_is_one_long : length_of mixed ≡ 1
unfolding length_of numbers value_hash
mixed_is_one_long = refl

five_comes_next : next mixed (number 1) ≡ ok (some (number 5, number 50))
unfolding next numbers
five_comes_next = refl
