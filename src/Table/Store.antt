-- ===== src/Table/Store.antt =====
-- `setHash` (src/core/table.cpp): when it refuses, and what it does to every lookup otherwise.
use native.Mathlib.Decide.{dec_lt}
use lua.Prelude.{
  ℕ, ◌+◌, ◌^◌, ◌≤◌, ◌<◌, ◌≡◌, ◌⊎◌, inl, inr, refl, sym, ap, ◌∙◌, Bool, true, false, List, [], none,
  some, ltb, if◌then◌else◌, length, length-set, set, arith, Bool-cases, Option-cases,
}
use lua.Prelude.Result.{ok, err}
use lua.Table.Counts.{live_one, used_one, count-set, exists_empty}
use lua.Table.Insert.{HashPart, set_hash, set_at, set_found, insert_new, live_node}
use lua.Table.Nodes.{HashNode, hash_limit, live, is_live, is_empty, node, home, find_hash_node}
use lua.Table.Place.{lookup, lookup-none, lookup-some, Fits, put-WellPlaced, put-lookup}
use lua.Table.Probe.{WellPlaced, home-lt, find_sound, find_complete}
use lua.Table.Slots.{new_slot-Slot}
use lua.Value.{Doubles, Value, value_eq, value_hash, value_eq_symm, value_eq_trans, value_eq_congr}
use lua.Table.Ready.{IsHashPart, Ready, NoNode, ensure-Ready}

ltb-false : (m n : ℕ) → n ≤ m → ltb m n ≡ false
ltb-false m n h = ground arith

ltb-true : (m n : ℕ) → m < n → ltb m n ≡ true
ltb-true m n h = ground arith

module _ {F : Type 0} ⦃d : Doubles F⦄ where
  -- A new node goes into the slot that the probe gives.
  insert_new-lem :
      (t₀ t : HashPart F) (key value : Value F)
      → Ready t₀ key t
      → (t' : HashPart F) × (insert_new t key value ≡ ok t')
        × IsHashPart t'
        × (t'.live_count ≡ t.live_count + 1)
        × ((q : Value F)
            → lookup t'.nodes q ≡ (if value_eq key q then some value else lookup t₀.nodes q))
  unfolding insert_new NoNode
  insert_new-lem t₀ t key value r =
      let w = r.placed in
      let x = live_node key value in
      let (e, he, free) = exists_empty t.nodes (omega (arith, r.room, r.used_ok)) in
      let (k, b, run, slot) =
        new_slot-Slot t.nodes w.sized (home t.nodes (value_hash key))
          (home-lt t.nodes w.sized (value_hash key)) e he free in
      let fits : Fits t.nodes k x = record {
        inside = slot.inside;
        occupied = refl;
        hash_ok = refl;
        way = slot.way;
        fresh = λ j hj ne full. r.no_node j hj full;
      } in
      let lives = count-set live_one t.nodes k x slot.inside in
      let used = count-set used_one t.nodes k x slot.inside in
      (
        record {
          nodes = set t.nodes k x;
          live_count = t.live_count + 1;
          used_count = if b then t.used_count + 1 else t.used_count;
        },
        rw run refl,
        record {
          placed = inr (put-WellPlaced t.nodes k x w fits);
          live_ok = ground (arith, r.live_ok, slot.not_live);
          used_ok = ground (arith, r.used_ok, slot.emptiness);
          room = ground (arith, r.room, length-set t.nodes k x);
        },
        refl,
        λ q.
            put-lookup t.nodes k x w fits q (λ alive. absurd (ground (arith, slot.not_live)))
            ∙ rw (r.same q) refl,
      )

  -- A node found keeps its place under another value.
  pub found-Fits :
      (t : HashPart F) (key value : Value F) (i : ℕ) (x : HashNode F)
      → WellPlaced t.nodes
      → find_hash_node t.nodes key true ≡ some i
      → x.key ≡ (node t.nodes i).key
      → x.hash ≡ (node t.nodes i).hash
      → is_empty x.state ≡ false
      → Fits t.nodes i x
  found-Fits t key value i x w e keyed hashed full =
      let (hi, there, same, allowed) = find_sound t.nodes w key true i e in
      record {
        inside = hi;
        occupied = full;
        hash_ok = hashed ∙ w.hashed i hi there ∙ ap value_hash (sym keyed);
        way = rw hashed (λ m hm before. w.path i m hi hm there before);
        fresh = λ j hj ne fj. elim (Bool-cases (value_eq (node t.nodes j).key x.key)) [
          | inr other ↦ other
          | inl equal ↦ absurd (ne (w.distinct j i hj hi fj there (rw keyed at equal)))
        ];
      }

  pub find_live :
      (ns : List (HashNode F)) (key : Value F) (i : ℕ)
      → WellPlaced ns
      → find_hash_node ns key true ≡ some i
      → is_live (node ns i).state ≡ true
      → find_hash_node ns key false ≡ some i
  find_live ns key i w e alive =
      let (hi, there, same, allowed) = find_sound ns w key true i e in
      find_complete ns w key false i hi there same (rw alive refl)

  find_dead :
      (ns : List (HashNode F)) (key : Value F) (i : ℕ)
      → WellPlaced ns
      → find_hash_node ns key true ≡ some i
      → is_live (node ns i).state ≡ false
      → lookup ns key ≡ none
  find_dead ns key i w e gone = elim (Option-cases (find_hash_node ns key false)) [
    | inl none_there ↦ lookup-none ns key none_there
    | inr (j, e') ↦
        let (hj, full, same, alive) = find_sound ns w key false j e' in
        let other = find_complete ns w key true j hj full same (ground arith) in
        let ij : some j ≡ some i = sym other ∙ e in absurd (ground arith)
  ]

  find_none :
      (ns : List (HashNode F)) (key : Value F)
      → WellPlaced ns
      → find_hash_node ns key true ≡ none
      → lookup ns key ≡ none
  find_none ns key w e = elim (Option-cases (find_hash_node ns key false)) [
    | inl none_there ↦ lookup-none ns key none_there
    | inr (j, e') ↦
        let (hj, full, same, alive) = find_sound ns w key false j e' in
        let other = find_complete ns w key true j hj full same (ground arith) in absurd (cc)
  ]

  pub nothing-found :
      (t : HashPart F) (key : Value F) (include_dead : Bool)
      → t.nodes ≡ []
      → find_hash_node t.nodes key include_dead ≡ none
  unfolding find_hash_node
  nothing-found t key include_dead e = rw e refl

  -- The two outcomes of `setHash`: the limit, for a key that is not there, or the new table.
  unfoldable pub Refused : ℕ → HashPart F → Value F → Value F → Type 0
  Refused max_entries t key value =
      (set_hash max_entries t key value ≡ err hash_limit)
      × (max_entries ≤ t.live_count)
      × (lookup t.nodes key ≡ none)

  unfoldable pub Stored : ℕ → HashPart F → Value F → Value F → Type 0
  Stored max_entries t key value =
      (t' : HashPart F) × (set_hash max_entries t key value ≡ ok t')
      × IsHashPart t'
      × (lookup t.nodes key ≡ none → t.live_count < max_entries)
      × ((q : Value F)
          → lookup t'.nodes q ≡ (if value_eq key q then some value else lookup t.nodes q))

  -- The node of the key is live: it gets the value.
  overwrite-Stored :
      (max_entries : ℕ) (t : HashPart F) (key value : Value F) (i : ℕ)
      → IsHashPart t
      → WellPlaced t.nodes
      → find_hash_node t.nodes key true ≡ some i
      → is_live (node t.nodes i).state ≡ true
      → Stored max_entries t key value
  unfolding Stored set_hash set_at set_found
  overwrite-Stored max_entries t key value i h w e alive =
      let (hi, there, same, allowed) = find_sound t.nodes w key true i e in
      let n = node t.nodes i in
      let x : HashNode F = record n { value = value } in
      let fits : Fits t.nodes i x = found-Fits t key value i x w e refl refl there in
      let equal = value_eq_trans n.key key n.key same (value_eq_symm key n.key ∙ same) in
      (
        record t { nodes = set t.nodes i x },
        rw (e, alive) refl,
        record {
          placed = inr (put-WellPlaced t.nodes i x w fits);
          live_ok = omega (arith, h.live_ok, count-set live_one t.nodes i x hi);
          used_ok = omega (arith, h.used_ok, count-set used_one t.nodes i x hi);
          room = rw (length-set t.nodes i x) h.room;
        },
        λ gone.
            let there' = lookup-some t.nodes key i (find_live t.nodes key i w e alive) in
            absurd (cc),
        λ q.
            put-lookup t.nodes i x w fits q (λ l. equal)
            ∙ rw (alive, value_eq_congr n.key key q same) refl,
      )

  -- It is dead: it comes back with the value.
  revive-Stored :
      (max_entries : ℕ) (t : HashPart F) (key value : Value F) (i : ℕ)
      → IsHashPart t
      → WellPlaced t.nodes
      → find_hash_node t.nodes key true ≡ some i
      → is_live (node t.nodes i).state ≡ false
      → t.live_count < max_entries
      → Stored max_entries t key value
  unfolding Stored set_hash set_at set_found
  revive-Stored max_entries t key value i h w e gone room =
      let (hi, there, same, allowed) = find_sound t.nodes w key true i e in
      let n = node t.nodes i in
      let x : HashNode F = record n { value = value; state = live } in
      let fits : Fits t.nodes i x = found-Fits t key value i x w e refl refl refl in
      let lives = count-set live_one t.nodes i x hi in
      let used = count-set used_one t.nodes i x hi in
      (
        record t { nodes = set t.nodes i x; live_count = t.live_count + 1 },
        rw (e, gone, ltb-true t.live_count max_entries room) refl,
        record {
          placed = inr (put-WellPlaced t.nodes i x w fits);
          live_ok = ground (arith, h.live_ok);
          used_ok = ground (arith, h.used_ok);
          room = rw (length-set t.nodes i x) h.room;
        },
        λ none_there. room,
        λ q.
            put-lookup t.nodes i x w fits q (λ l. absurd (ground arith))
            ∙ rw (value_eq_congr n.key key q same) refl,
      )

  -- There is no node: one is made.
  insert-Stored :
      (max_entries : ℕ) (t : HashPart F) (key value : Value F)
      → IsHashPart t
      → find_hash_node t.nodes key true ≡ none
      → lookup t.nodes key ≡ none
      → length t.nodes ≤ 2 ^ 62
      → t.live_count < max_entries
      → Stored max_entries t key value
  unfolding Stored set_hash set_at
  insert-Stored max_entries t key value h e gone small room =
      let (t₁, grown, ready, kept) = ensure-Ready t key h e gone small in
      let (t₂, run, h₂, one_more, same) = insert_new-lem t t₁ key value ready in
      (t₂, rw (e, ltb-true t.live_count max_entries room, grown) run, h₂, λ g. room, same)

  -- `setHash` stores the value, or it throws since the key is new and the table is full: with a value
  -- stored, the invariant holds again, the key (and any that equals it) gives the value, and every
  -- other key what it gave. No probe runs out of slots. The condition is that the machine can double
  -- the array.
  pub set_hash-Stored :
      (max_entries : ℕ) (t : HashPart F) (key value : Value F)
      → IsHashPart t
      → length t.nodes ≤ 2 ^ 62
      → Refused max_entries t key value ⊎ Stored max_entries t key value
  unfolding Refused set_hash set_at set_found
  set_hash-Stored max_entries t key value h small = elim h.placed [
    | inl none_yet ↦
        let e : find_hash_node t.nodes key true ≡ none = nothing-found t key true none_yet in
        missing e (lookup-none t.nodes key (nothing-found t key false none_yet))
    | inr w ↦ elim (Option-cases (find_hash_node t.nodes key true)) [
      | inl e ↦ missing e (find_none t.nodes key w e)
      | inr (i, e) ↦ elim (Bool-cases (is_live (node t.nodes i).state)) [
        | inl alive ↦ inr (overwrite-Stored max_entries t key value i h w e alive)
        | inr gone ↦ elim (dec_lt t.live_count max_entries) [
          | yes room ↦ inr (revive-Stored max_entries t key value i h w e gone room)
          | no full ↦ inl (
            rw (e, gone, ltb-false t.live_count max_entries (omega arith)) refl,
            omega arith,
            find_dead t.nodes key i w e gone,
          )
        ]
      ]
    ]
  ]
    where
      missing :
          find_hash_node t.nodes key true ≡ none
          → lookup t.nodes key ≡ none
          → Refused max_entries t key value ⊎ Stored max_entries t key value
      missing e gone = elim (dec_lt t.live_count max_entries) [
        | yes room ↦ inr (insert-Stored max_entries t key value h e gone small room)
        | no full ↦
            inl (rw (e, ltb-false t.live_count max_entries (omega arith)) refl, omega arith, gone)
      ]
