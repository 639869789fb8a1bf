-- ===== src/Table/Remove.antt =====
-- `removeHash` (src/core/table.cpp): the key is gone, nothing else is.
use lua.Prelude.{
  ℕ, ◌≡◌, inl, inr, refl, ◌∙◌, false, List, [], none, some, if◌then◌else◌, length-set, arith,
  Bool-cases, Option-cases,
}
use lua.Table.Counts.{live_one, used_one, count-set}
use lua.Table.Insert.{HashPart, remove_hash, remove_at}
use lua.Table.Nodes.{HashNode, dead, node, find_hash_node}
use lua.Table.Place.{lookup, lookup-none, Fits, put-WellPlaced, put-lookup}
use lua.Table.Probe.{WellPlaced, find_sound, find_complete}
use lua.Table.Ready.{IsHashPart}
use lua.Table.Store.{nothing-found}
use lua.Value.{Doubles, Value, nil, value_eq, value_eq_symm, value_eq_trans, value_eq_congr}

module _ {F : Type 0} ⦃d : Doubles F⦄ where
  -- What a removal leaves.
  pub record Removed (t : HashPart F) (key : Value F) (t' : HashPart F) : Type 0 where
    pub kept : IsHashPart t'
    pub same :
        (q : Value F) → lookup t'.nodes q ≡ (if value_eq key q then none else lookup t.nodes q)

  bury :
      (t : HashPart F) (key : Value F) (i : ℕ)
      → IsHashPart t
      → WellPlaced t.nodes
      → find_hash_node t.nodes key false ≡ some i
      → Removed t key (remove_at t (some i))
  unfolding remove_at
  bury t key i h w e =
      let (hi, there, same, alive) = find_sound t.nodes w key false i e in
      let n = node t.nodes i in
      let x : HashNode F = record n { value = nil; state = dead } in
      let fits : Fits t.nodes i x = record {
        inside = hi;
        occupied = refl;
        hash_ok = w.hashed i hi there;
        way = λ m hm before. w.path i m hi hm there before;
        fresh = λ j hj ne fj. elim (Bool-cases (value_eq (node t.nodes j).key n.key)) [
          | inr other ↦ other
          | inl equal ↦ absurd (ne (w.distinct j i hj hi fj there equal))
        ];
      } in
      let equal = value_eq_trans n.key key n.key same (value_eq_symm key n.key ∙ same) in
      let lives = count-set live_one t.nodes i x hi in
      let used = count-set used_one t.nodes i x hi in
      record {
        kept = record {
          placed = inr (put-WellPlaced t.nodes i x w fits);
          live_ok = ground (arith, h.live_ok);
          used_ok = ground (arith, h.used_ok);
          room = rw (length-set t.nodes i x) h.room;
        };
        same = λ q.
            put-lookup t.nodes i x w fits q (λ l. equal)
            ∙ rw (value_eq_congr n.key key q same) refl;
      }

  -- A key without a live node, and any that equals it, has no value.
  absent :
      (ns : List (HashNode F)) (key q : Value F)
      → WellPlaced ns
      → find_hash_node ns key false ≡ none
      → lookup ns q ≡ (if value_eq key q then none else lookup ns q)
  absent ns key q w e = elim (Bool-cases (value_eq key q)) [
    | inr other ↦ rw other refl
    | inl same ↦ elim (Option-cases (find_hash_node ns q false)) [
      | inl none_there ↦ rw (same, lookup-none ns q none_there) refl
      | inr (j, e') ↦
          let (hj, full, equal, alive) = find_sound ns w q false j e' in
          let key_too = value_eq_trans (node ns j).key q key equal (value_eq_symm q key ∙ same) in
          let found = find_complete ns w key false j hj full key_too alive in absurd (cc)
    ]
  ]

  -- After a removal the invariant holds, the key and any that equals it has no value, and every
  -- other key has the one it had, whether the key was there or not.
  pub remove_hash-Removed :
      (t : HashPart F) (key : Value F) → IsHashPart t → Removed t key (remove_hash t key)
  unfolding remove_hash remove_at
  remove_hash-Removed t key h = elim (Option-cases (find_hash_node t.nodes key false)) [
    | inl e ↦ rw e (record {
      kept = h;
      same = λ q. elim h.placed [
        | inl none_yet ↦ nothing q none_yet
        | inr w ↦ absent t.nodes key q w e
      ];
    })
    | inr (i, e) ↦ elim h.placed [
      | inl none_yet ↦ let gone = nothing-found t key false none_yet in absurd (cc)
      | inr w ↦ rw e (bury t key i h w e)
    ]
  ]
    where
      nothing :
          (q : Value F)
          → t.nodes ≡ []
          → lookup t.nodes q ≡ (if value_eq key q then none else lookup t.nodes q)
      nothing q e =
          rw (lookup-none t.nodes q (nothing-found t q false e))
            (elim (Bool-cases (value_eq key q)) [
              | inl same ↦ rw same refl
              | inr other ↦ rw other refl
            ])
