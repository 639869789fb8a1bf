-- ===== src/Table/Ready.antt =====
-- The invariant of the hash part and its counters, and the room that `ensureHashInsertCapacity`
-- (src/core/table.cpp) makes for a new key.
use native.Mathlib.Decide.{ℕ_discrete, dec_lt}
use lua.Prelude.{
  ℕ, ◌+◌, ◌-◌, ◌*◌, ◌/◌, ◌^◌, ◌≤◌, ◌<◌, ◌≡◌, ◌≢◌, ◌⊎◌, inl, inr, refl, sym, ap, ◌∙◌, true, false,
  List, [], none, ltb, leb, ◌==◌, length, arith, Bool-cases,
}
use lua.Prelude.Result.{ok}
use lua.Table.Counts.{count, live_one, used_one, live-le-used}
use lua.Table.Entries.{live_lookup, Apart, WellPlaced-Apart, lookup-live_lookup}
use lua.Table.Insert.{HashPart, ensure_hash_insert_capacity, rehash_to}
use lua.Table.Nodes.{HashNode, is_empty, node, find_hash_node, usize_max}
use lua.Table.Place.{lookup, lookup-some}
use lua.Table.Probe.{WellPlaced, find_complete}
use lua.Table.Moving.{Clean}
use lua.Table.Rehash.{rehash-Rehashed}
use lua.Value.{Doubles, Value, value_eq}

==_false : (m n : ℕ) → m ≢ n → (m == n) ≡ false
==_false m n h = ground arith

leb-true : (m n : ℕ) → m ≤ n → leb m n ≡ true
leb-true m n h = ground arith

leb-false : (m n : ℕ) → n < m → leb m n ≡ false
leb-false m n h = ground arith

ltb-false : (m n : ℕ) → n ≤ m → ltb m n ≡ false
ltb-false m n h = ground arith

module _ {F : Type 0} ⦃d : Doubles F⦄ where
  -- The nodes are well placed, if there are any, the counters are right, and a quarter is free.
  pub record IsHashPart (t : HashPart F) : Type 0 where
    pub placed : (t.nodes ≡ []) ⊎ WellPlaced t.nodes
    pub live_ok : t.live_count ≡ count live_one t.nodes
    pub used_ok : t.used_count ≡ count used_one t.nodes
    pub room : t.used_count ≤ length t.nodes - length t.nodes / 4

  IsHashPart-Apart : (t : HashPart F) → IsHashPart t → Apart t.nodes
  IsHashPart-Apart t h = elim h.placed [
    | inl none_yet ↦ record {
      hashed = λ i hi alive. let hi = rw none_yet at hi in absurd (omega arith);
      distinct = λ i j hi hj li lj same. let hi = rw none_yet at hi in absurd (omega arith);
    }
    | inr w ↦ WellPlaced-Apart t.nodes w
  ]

  -- No occupied node has the key.
  unfoldable pub NoNode : List (HashNode F) → Value F → Type 0
  NoNode ns key =
      (j : ℕ)
      → j < length ns
      → is_empty (node ns j).state ≡ false
      → value_eq (node ns j).key key ≡ false

  -- A table that is ready for a new key.
  pub record Ready (t : HashPart F) (key : Value F) (t' : HashPart F) : Type 0 where
    pub placed : WellPlaced t'.nodes
    pub live_ok : t'.live_count ≡ count live_one t'.nodes
    pub used_ok : t'.used_count ≡ count used_one t'.nodes
    pub room : t'.used_count + 1 ≤ length t'.nodes - length t'.nodes / 4
    pub no_node : NoNode t'.nodes key
    pub same : (q : Value F) → lookup t'.nodes q ≡ lookup t.nodes q

  Clean-NoNode :
      (ns : List (HashNode F)) (key : Value F)
      → WellPlaced ns
      → Clean ns
      → lookup ns key ≡ none
      → NoNode ns key
  unfolding NoNode
  Clean-NoNode ns key w clean gone j hj full = elim (Bool-cases (value_eq (node ns j).key key)) [
    | inr other ↦ other
    | inl same ↦
        let found = find_complete ns w key false j hj full same (rw (clean j hj full) refl) in
        let there = lookup-some ns key j found in absurd (cc)
  ]

  find-NoNode :
      (ns : List (HashNode F)) (key : Value F)
      → WellPlaced ns
      → find_hash_node ns key true ≡ none
      → NoNode ns key
  unfolding NoNode
  find-NoNode ns key w gone j hj full = elim (Bool-cases (value_eq (node ns j).key key)) [
    | inr other ↦ other
    | inl same ↦
        let found = find_complete ns w key true j hj full same (ground arith) in absurd (cc)
  ]

  pub IsHashPart-lookup :
      (t : HashPart F) (q : Value F) → IsHashPart t → lookup t.nodes q ≡ live_lookup t.nodes q
  unfolding find_hash_node live_lookup
  IsHashPart-lookup t q h = elim h.placed [
    | inl none_yet ↦ rw none_yet refl
    | inr w ↦ lookup-live_lookup t.nodes q w
  ]

  -- A move to an array with a quarter to spare makes the table ready.
  rehash_to-Ready :
      (t : HashPart F) (key : Value F) (requested : ℕ)
      → IsHashPart t
      → lookup t.nodes key ≡ none
      → requested ≤ 2 ^ 63
      → t.live_count + 1 ≤ requested - requested / 4
      → (t' : HashPart F) × (rehash_to t requested ≡ ok t')
        × Ready t key t'
        × (t'.live_count ≡ t.live_count)
  unfolding rehash_to
  rehash_to-Ready t key requested h gone small room =
      let (moved, run, r) =
        rehash-Rehashed t.nodes requested (IsHashPart-Apart t h) small (omega (arith, h.live_ok)) in
      let same : (q : Value F) → lookup moved q ≡ lookup t.nodes q =
        λ q. r.same q ∙ sym (IsHashPart-lookup t q h) in
      (
        record t { nodes = moved; used_count = t.live_count },
        rw run refl,
        record {
          placed = r.placed;
          live_ok = h.live_ok ∙ sym r.live;
          used_ok = h.live_ok ∙ sym r.used;
          room = omega (arith, r.large);
          no_node = Clean-NoNode moved key r.placed r.clean (same key ∙ gone);
          same = same;
        },
        refl,
      )

  first_nodes :
      (t : HashPart F) → length t.nodes ≡ 0 → ensure_hash_insert_capacity t ≡ rehash_to t 8
  unfolding ensure_hash_insert_capacity
  first_nodes t e = ground arith

  enough_nodes :
      (t : HashPart F)
      → length t.nodes ≢ 0
      → t.used_count + 1 ≤ length t.nodes - length t.nodes / 4
      → ensure_hash_insert_capacity t ≡ ok t
  unfolding ensure_hash_insert_capacity
  enough_nodes t ne fits =
      rw (==_false (length t.nodes) 0 ne, leb-true (t.used_count + 1) _ fits) refl

  same_nodes :
      (t : HashPart F)
      → length t.nodes ≢ 0
      → length t.nodes - length t.nodes / 4 < t.used_count + 1
      → t.live_count * 2 < t.used_count
      → ensure_hash_insert_capacity t ≡ rehash_to t (length t.nodes)
  unfolding ensure_hash_insert_capacity
  same_nodes t ne full sparse = ground arith

  more_nodes :
      (t : HashPart F)
      → length t.nodes ≢ 0
      → length t.nodes - length t.nodes / 4 < t.used_count + 1
      → t.used_count ≤ t.live_count * 2
      → length t.nodes ≤ 2 ^ 62
      → ensure_hash_insert_capacity t ≡ rehash_to t (length t.nodes * 2)
  unfolding ensure_hash_insert_capacity
  more_nodes t ne full dense small =
      rw
        (
          ==_false (length t.nodes) 0 ne,
          leb-false (t.used_count + 1) _ full,
          ltb-false (t.live_count * 2) _ dense,
          leb-true (length t.nodes) (usize_max / 2) (omega arith),
        )
        refl

  -- What `ensureHashInsertCapacity` does for a key that has no node, on all its branches.
  pub ensure-Ready :
      (t : HashPart F) (key : Value F)
      → IsHashPart t
      → find_hash_node t.nodes key true ≡ none
      → lookup t.nodes key ≡ none
      → length t.nodes ≤ 2 ^ 62
      → (t' : HashPart F) × (ensure_hash_insert_capacity t ≡ ok t')
        × Ready t key t'
        × (t'.live_count ≡ t.live_count)
  ensure-Ready t key h new gone small =
      let counted = live-le-used t.nodes in
      let lives : t.live_count ≤ t.used_count = omega (arith, h.live_ok, h.used_ok) in
      elim (ℕ_discrete (length t.nodes) 0) [
        | yes zero_nodes ↦
            let (t', run, r, kept) =
              rehash_to-Ready t key 8 h gone (omega arith) (omega (arith, h.room)) in
            (t', first_nodes t zero_nodes ∙ run, r, kept)
        | no some_nodes ↦ elim (dec_lt (length t.nodes - length t.nodes / 4) (t.used_count + 1)) [
          | no fits ↦
              let w : WellPlaced t.nodes = elim h.placed [
                | inl none_yet ↦ absurd (some_nodes (ap length none_yet))
                | inr w ↦ w
              ] in
              (
                t,
                enough_nodes t some_nodes (omega arith),
                record {
                  placed = w;
                  live_ok = h.live_ok;
                  used_ok = h.used_ok;
                  room = omega arith;
                  no_node = find-NoNode t.nodes key w new;
                  same = λ q. refl;
                },
                refl,
              )
          | yes full ↦ elim (dec_lt (t.live_count * 2) t.used_count) [
            | yes sparse ↦
                let (t', run, r, kept) =
                  rehash_to-Ready t key (length t.nodes) h gone (omega arith)
                    (omega (arith, h.room)) in
                (t', same_nodes t some_nodes full sparse ∙ run, r, kept)
            | no dense ↦
                let (t', run, r, kept) =
                  rehash_to-Ready t key (length t.nodes * 2) h gone (omega arith)
                    (omega (arith, h.room)) in
                (t', more_nodes t some_nodes full (omega arith) small ∙ run, r, kept)
          ]
        ]
      ]
