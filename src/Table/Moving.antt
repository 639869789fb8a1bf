-- ===== src/Table/Moving.antt =====
-- Moving nodes to an array without dead ones (src/core/table.cpp, the loop of `rehash`): it ends, and
-- lookups find what moved.
use native.Mathlib.Decide.{ℕ_discrete}
use lua.Prelude.{
  ℕ, suc, ◌+◌, ◌<◌, ◌≡◌, inl, inr, refl, sym, ap, ◌∙◌, true, false, List, [], ◌∷◌, Option, none,
  length, length-set, set, get_or-set_self, get_or-set_ne, arith, Bool-cases,
}
use lua.Prelude.Result.{ok}
use lua.Table.Counts.{count, live_one, used_one, count-set, exists_empty}
use lua.Table.Entries.{or_else, or_else_assoc, entry, live_lookup, Apart, Apart-tail, Apart-head}
use lua.Table.Nodes.{HashNode, is_empty, is_live, node, home, empty_node, move_node, move_nodes}
use lua.Table.Place.{lookup, Fits, put-WellPlaced, put-lookup}
use lua.Table.Probe.{WellPlaced, home-lt}
use lua.Table.Slots.{free_slot-Slot}
use lua.Value.{Doubles, Value, value_eq}

module _ {F : Type 0} ⦃d : Doubles F⦄ where
  -- Every occupied node is live.
  abbrev pub Clean : List (HashNode F) → Type 0
  Clean ns =
      (m : ℕ)
      → m < length ns
      → is_empty (node ns m).state ≡ false
      → is_live (node ns m).state ≡ true

  -- No occupied node has the key of a live node still to move.
  abbrev pub Fresh : List (HashNode F) → List (HashNode F) → Type 0
  Fresh ns rest =
      (j i : ℕ)
      → j < length ns
      → i < length rest
      → is_empty (node ns j).state ≡ false
      → is_live (node rest i).state ≡ true
      → value_eq (node ns j).key (node rest i).key ≡ false

  -- What a move of `rest` into `ns` gives.
  pub record Moved (ns rest moved : List (HashNode F)) : Type 0 where
    pub placed : WellPlaced moved
    pub clean : Clean moved
    pub size : length moved ≡ length ns
    pub total : count used_one moved ≡ count used_one ns + count live_one rest
    pub same : (q : Value F) → lookup moved q ≡ or_else (live_lookup rest q) (lookup ns q)

  -- One live node moves.
  move_one :
      (ns : List (HashNode F)) (old : HashNode F) (rest : List (HashNode F))
      → WellPlaced ns
      → Clean ns
      → Apart (old ∷ rest)
      → Fresh ns (old ∷ rest)
      → count used_one ns < length ns
      → is_live old.state ≡ true
      → (moved : List (HashNode F)) × (move_node ns old ≡ ok moved)
        × WellPlaced moved
        × Clean moved
        × Fresh moved rest
        × (length moved ≡ length ns)
        × (count used_one moved ≡ count used_one ns + 1)
        × ((q : Value F) → lookup moved q ≡ or_else (entry old q) (lookup ns q))
  unfolding move_node
  move_one ns old rest w clean apart fresh room alive =
      let (e, he, free) = exists_empty ns room in
      let (k, run, slot) =
        free_slot-Slot ns w.sized (home ns old.hash) (home-lt ns w.sized old.hash) e clean he
          free in
      let fits : Fits ns k old = record {
        inside = slot.inside;
        occupied = ground arith;
        hash_ok = apart.hashed 0 (omega arith) alive;
        way = slot.way;
        fresh = λ j hj ne full. fresh j 0 hj (omega arith) full alive;
      } in
      let counted = count-set used_one ns k old slot.inside in
      (
        set ns k old,
        rw (alive, run) refl,
        put-WellPlaced ns k old w fits,
        λ m hm full. elim (ℕ_discrete m k) [
          | yes e ↦ rw (e, get_or-set_self ns k old empty_node slot.inside) alive
          | no ne ↦
              let there = get_or-set_ne ns k m old empty_node (λ e. ne (sym e)) in
              rw there (clean m (rw (length-set ns k old) at hm) (rw there at full))
        ],
        λ j i hj hi full li. elim (ℕ_discrete j k) [
          | yes e ↦
              rw (e, get_or-set_self ns k old empty_node slot.inside)
                (Apart-head old rest i apart alive hi li)
          | no ne ↦
              let there = get_or-set_ne ns k j old empty_node (λ e. ne (sym e)) in
              rw there (
                fresh j (suc i) (rw (length-set ns k old) at hj) (omega arith) (rw there at full)
                  li)
        ],
        length-set ns k old,
        ground (arith, slot.emptiness),
        λ q.
            put-lookup ns k old w fits q (λ live. absurd (ground (arith, slot.not_live)))
            ∙ elim (Bool-cases (value_eq old.key q)) [
              | inl same ↦ rw (same, alive) refl
              | inr other ↦ rw (other, alive) refl
            ],
      )

  -- The other nodes stay behind.
  stay :
      (ns : List (HashNode F)) (old : HashNode F)
      → is_live old.state ≡ false
      → move_node ns old ≡ ok ns
  unfolding move_node
  stay ns old gone = rw gone refl

  pub move_nodes-run :
      (rest ns : List (HashNode F))
      → WellPlaced ns
      → Clean ns
      → Apart rest
      → Fresh ns rest
      → count used_one ns + count live_one rest < length ns
      → (moved : List (HashNode F)) × (move_nodes ns rest ≡ ok moved) × Moved ns rest moved
  unfolding move_nodes count live_lookup
  move_nodes-run [] ns w clean apart fresh room = (
    ns,
    refl,
    record { placed = w; clean = clean; size = refl; total = omega arith; same = λ q. refl },
  )
  move_nodes-run (old ∷ rest) ns w clean apart fresh room = elim (Bool-cases (is_live old.state)) [
    | inr gone ↦
        let (moved, run, m) =
          move_nodes-run rest ns w clean (Apart-tail old rest apart)
            (λ j i hj hi full alive. fresh j (suc i) hj (omega arith) full alive) (ground arith) in
        (
          moved,
          rw (stay ns old gone) run,
          record {
            placed = m.placed;
            clean = m.clean;
            size = m.size;
            total = ground (arith, m.total);
            same = λ q.
                m.same q ∙ rw gone (sym (or_else_assoc (live_lookup rest q) none (lookup ns q)));
          },
        )
    | inl alive ↦
        let (next, one, placed, cleaned, freshened, size, total, same) =
          move_one ns old rest w clean apart fresh (ground arith) alive in
        let (moved, run, m) =
          move_nodes-run rest next placed cleaned (Apart-tail old rest apart) freshened
            (ground arith) in
        (
          moved,
          rw one run,
          record {
            placed = m.placed;
            clean = m.clean;
            size = m.size ∙ size;
            total = ground (arith, m.total);
            same = λ q.
                m.same q
                ∙ ap (λ (o : Option (Value F)). or_else (live_lookup rest q) o) (same q)
                ∙ sym (or_else_assoc (live_lookup rest q) (entry old q) (lookup ns q));
          },
        )
  ]
