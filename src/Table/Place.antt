-- ===== src/Table/Place.antt =====
-- A node is written into a slot (src/core/table.cpp): when the invariant stays, and what every lookup
-- gives afterwards. Insertion, update and removal are instances.
use native.Mathlib.Decide.{ℕ_discrete}
use lua.Prelude.{
  ℕ, ◌<◌, ◌≡◌, ◌≢◌, inl, inr, refl, sym, ◌∙◌, true, false, List, Option, none, some, if◌then◌else◌,
  length, set, length-set, get_or-set_self, get_or-set_ne, arith, Bool-cases, Option-cases,
}
use lua.Table.Nodes.{HashNode, empty_node, is_empty, is_live, node, home, find_hash_node}
use lua.Table.Probe.{WellPlaced, dist, find_sound, find_complete}
use lua.Value.{Doubles, Value, value_eq, value_hash, value_eq_symm, value_eq_trans, value_eq_congr}

module _ {F : Type 0} ⦃d : Doubles F⦄ where
  -- The value under a key in the hash part.
  abbrev pub lookup : List (HashNode F) → Value F → Option (Value F)
  lookup ns key = elim (find_hash_node ns key false) [
    | none ↦ none
    | some i ↦ some (node ns i).value
  ]

  pub lookup-none :
      (ns : List (HashNode F)) (q : Value F) → find_hash_node ns q false ≡ none → lookup ns q ≡ none
  lookup-none ns q e = rw (e, lookup)

  pub lookup-some :
      (ns : List (HashNode F)) (q : Value F) (i : ℕ)
      → find_hash_node ns q false ≡ some i
      → lookup ns q ≡ some (node ns i).value
  lookup-some ns q i e = rw (e, lookup)

  -- The node `x` may be written into slot `k`.
  pub record Fits (ns : List (HashNode F)) (k : ℕ) (x : HashNode F) : Type 0 where
    pub inside : k < length ns
    pub occupied : is_empty x.state ≡ false
    pub hash_ok : x.hash ≡ value_hash x.key
    pub way :
        (m : ℕ)
        → m < length ns
        → dist (length ns) (home ns x.hash) m < dist (length ns) (home ns x.hash) k
        → is_empty (node ns m).state ≡ false
    pub fresh :
        (j : ℕ)
        → j < length ns
        → j ≢ k
        → is_empty (node ns j).state ≡ false
        → value_eq (node ns j).key x.key ≡ false

module _ {F : Type 0} ⦃d : Doubles F⦄ (ns : List (HashNode F)) (k : ℕ) (x : HashNode F)
    (w : WellPlaced ns) (f : Fits ns k x) where
  written : List (HashNode F)
  written = set ns k x

  at_slot : node written k ≡ x
  unfolding written
  at_slot = get_or-set_self ns k x empty_node f.inside

  elsewhere : (i : ℕ) → i ≢ k → node written i ≡ node ns i
  unfolding written
  elsewhere i ne = get_or-set_ne ns k i x empty_node (λ e. ne (sym e))

  same_length : length written ≡ length ns
  unfolding written
  same_length = length-set ns k x

  -- A slot that was occupied still is.
  still : (m : ℕ) → is_empty (node ns m).state ≡ false → is_empty (node written m).state ≡ false
  still m h = elim (ℕ_discrete m k) [
    | yes e ↦ rw (e, at_slot) f.occupied
    | no ne ↦ rw (elsewhere m ne) h
  ]

  put-path :
      (i m : ℕ)
      → i < length ns
      → m < length ns
      → is_empty (node written i).state ≡ false
      → dist (length ns) (home ns (node written i).hash) m
        < dist (length ns) (home ns (node written i).hash) i
      → is_empty (node written m).state ≡ false
  put-path i m hi hm full before = elim (ℕ_discrete i k) [
    | yes e ↦ still m (f.way m hm (rw (e, at_slot) at before))
    | no ne ↦
        still m (w.path i m hi hm (rw (elsewhere i ne) at full) (rw (elsewhere i ne) at before))
  ]

  put-distinct :
      (i j : ℕ)
      → i < length ns
      → j < length ns
      → is_empty (node written i).state ≡ false
      → is_empty (node written j).state ≡ false
      → value_eq (node written i).key (node written j).key ≡ true
      → i ≡ j
  put-distinct i j hi hj fi fj same = elim (ℕ_discrete i k) [
    | yes ei ↦ elim (ℕ_discrete j k) [
      | yes ej ↦ ei ∙ sym ej
      | no nj ↦
          let clash = f.fresh j hj nj (rw (elsewhere j nj) at fj) in
          let equal = rw (ei, at_slot, elsewhere j nj) at same in
          absurd (ground (arith, value_eq_symm x.key (node ns j).key))
    ]
    | no ni ↦ elim (ℕ_discrete j k) [
      | yes ej ↦
          let clash = f.fresh i hi ni (rw (elsewhere i ni) at fi) in
          let equal = rw (elsewhere i ni, ej, at_slot) at same in absurd (ground arith)
      | no nj ↦
          w.distinct i j hi hj (rw (elsewhere i ni) at fi) (rw (elsewhere j nj) at fj)
            (rw (elsewhere i ni, elsewhere j nj) at same)
    ]
  ]

  put-hashed :
      (i : ℕ)
      → i < length ns
      → is_empty (node written i).state ≡ false
      → (node written i).hash ≡ value_hash (node written i).key
  put-hashed i hi full = elim (ℕ_discrete i k) [
    | yes e ↦ rw (e, at_slot) f.hash_ok
    | no ne ↦ rw (elsewhere i ne) (w.hashed i hi (rw (elsewhere i ne) at full))
  ]

  -- The invariant stays.
  pub put-WellPlaced : WellPlaced (set ns k x)
  unfolding written
  put-WellPlaced = record {
    sized = rw (length-set ns k x) w.sized;
    hashed = rw (length-set ns k x) put-hashed;
    path = rw (length-set ns k x) put-path;
    distinct = rw (length-set ns k x) put-distinct;
  }

  not_here :
      (q : Value F) (j : ℕ)
      → value_eq x.key q ≡ false
      → find_hash_node ns q false ≡ some j
      → (is_live (node ns k).state ≡ true → value_eq (node ns k).key x.key ≡ true)
      → j ≢ k
  not_here q j other e replaced jk =
      let (hj, full, same, alive) = find_sound ns w q false j e in
      let here = rw jk at alive in
      let key_here = rw jk at same in
      let equal = replaced (ground arith) in
      ground (arith, value_eq_congr (node ns k).key x.key q equal)

  -- A key other than that of `x` is found where it was, if `x` takes the place of no other live key.
  put-find :
      (q : Value F)
      → value_eq x.key q ≡ false
      → (is_live (node ns k).state ≡ true → value_eq (node ns k).key x.key ≡ true)
      → find_hash_node (set ns k x) q false ≡ find_hash_node ns q false
  unfolding written
  put-find q other replaced = elim (Option-cases (find_hash_node ns q false)) [
    | inr (j, e) ↦
        let (hj, full, same, alive) = find_sound ns w q false j e in
        let ne = not_here q j other e replaced in
        find_complete (set ns k x) put-WellPlaced q false j (rw (length-set ns k x) hj)
          (rw (elsewhere j ne) full) (rw (elsewhere j ne) same) (rw (elsewhere j ne) alive)
        ∙ sym e
    | inl e ↦ elim (Option-cases (find_hash_node (set ns k x) q false)) [
      | inl e' ↦ e' ∙ sym e
      | inr (j, e') ↦
          let (hj, full, same, alive) = find_sound (set ns k x) put-WellPlaced q false j e' in
          elim (ℕ_discrete j k) [
            | yes jk ↦ let key_here = rw (jk, at_slot) at same in absurd (ground arith)
            | no ne ↦
                let found =
                  find_complete ns w q false j (rw (length-set ns k x) at hj)
                    (rw (elsewhere j ne) at full) (rw (elsewhere j ne) at same)
                    (rw (elsewhere j ne) at alive) in
                absurd (ground arith)
          ]
    ]
  ]

  -- A live node is found under its key.
  put-find_self :
      (q : Value F)
      → value_eq x.key q ≡ true
      → is_live x.state ≡ true
      → find_hash_node (set ns k x) q false ≡ some k
  unfolding written
  put-find_self q same alive =
      find_complete (set ns k x) put-WellPlaced q false k (rw (length-set ns k x) f.inside)
        (rw at_slot f.occupied) (rw at_slot same) (rw (at_slot, alive) refl)

  -- A dead node hides its key.
  put-find_dead :
      (q : Value F)
      → value_eq x.key q ≡ true
      → is_live x.state ≡ false
      → find_hash_node (set ns k x) q false ≡ none
  unfolding written
  put-find_dead q same gone = elim (Option-cases (find_hash_node (set ns k x) q false)) [
    | inl e ↦ e
    | inr (j, e) ↦
        let (hj, full, equal, alive) = find_sound (set ns k x) put-WellPlaced q false j e in
        elim (ℕ_discrete j k) [
          | yes jk ↦ let here = rw (jk, at_slot) at alive in absurd (ground arith)
          | no ne ↦
              let clash =
                f.fresh j (rw (length-set ns k x) at hj) ne (rw (elsewhere j ne) at full) in
              let equal' = rw (elsewhere j ne) at equal in
              absurd (ground (arith, value_eq_trans (node ns j).key q x.key, value_eq_symm x.key q))
        ]
  ]

  -- After the write a lookup gives the value of `x` under its key, or nothing if `x` is dead, and
  -- what it gave before under any other.
  pub put-lookup :
      (q : Value F)
      → (is_live (node ns k).state ≡ true → value_eq (node ns k).key x.key ≡ true)
      → lookup (set ns k x) q ≡ (
          if value_eq x.key q
          then (if is_live x.state then some x.value else none)
          else lookup ns q)
  unfolding written
  put-lookup q replaced = elim (Bool-cases (value_eq x.key q)) [
    | inl same ↦ elim (Bool-cases (is_live x.state)) [
      | inl alive ↦
          rw (same, alive)
            (rw at_slot at (lookup-some (set ns k x) q k (put-find_self q same alive)))
      | inr gone ↦ rw (same, gone) (lookup-none (set ns k x) q (put-find_dead q same gone))
    ]
    | inr other ↦ elim (Option-cases (find_hash_node ns q false)) [
      | inl e ↦
          rw (other, lookup-none ns q e)
            (lookup-none (set ns k x) q (put-find q other replaced ∙ e))
      | inr (j, e) ↦
          rw (other, lookup-some ns q j e, ← elsewhere j (not_here q j other e replaced))
            (lookup-some (set ns k x) q j (put-find q other replaced ∙ e))
    ]
  ]
