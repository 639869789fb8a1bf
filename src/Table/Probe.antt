-- ===== src/Table/Probe.antt =====
-- Where probing finds a key (src/core/table.cpp): cyclic distances in the node array, the invariant
-- of the nodes, and `findHashNode` against it.
use Prim.Native.Nat.{bit_and}
use native.Mathlib.Nat.{one-le-pow}
use lua.Prelude.{
  ℕ, zero, suc, ◌+◌, ◌-◌, ◌%◌, ◌^◌, ◌<◌, ◌≡◌, ◌≢◌, inl, inr, ◌∙◌, Bool, true, false, ◌||◌, List,
  some, leb, ◌==◌, if◌then◌else◌, length, arith, Bool-cases,
}
use native.Mathlib.Decide.{ℕ_discrete}
use lua.Prelude.Bits.{bit_and_mask}
use lua.Table.Nodes.{
  HashNode, is_empty, is_live, node, next_index, home, matches, probe, find_hash_node,
}
use lua.Value.{Doubles, Value, value_eq, value_hash, value_eq_symm, value_eq_trans, value_hash-eq}

-- The steps from slot `s` forward to slot `i` of `n`, and the slot behind `i`, round the end.
abbrev pub dist : ℕ → ℕ → ℕ → ℕ
dist n s i = if leb s i then i - s else i + n - s

abbrev pub following : ℕ → ℕ → ℕ
following n i = if i + 1 == n then 0 else i + 1

pub dist-following : (n s i : ℕ) → s < n → i < n → s ≢ i → dist n s i ≡ dist n (following n s) i + 1
dist-following n s i hs hi ne = ground arith

-- What lies before `j` from the slot behind `s` lies before `j` from `s`.
pub dist_before :
    (n s i j : ℕ)
    → s < n
    → i < n
    → j < n
    → s ≢ j
    → dist n (following n s) i < dist n (following n s) j
    → dist n s i < dist n s j
dist_before n s i j hs hi hj ne h = ground arith

pub following-lt : (n i : ℕ) → i < n → following n i < n
following-lt n i h = ground arith

pub IsPowerOfTwo : ℕ → Type 0
IsPowerOfTwo n = (k : ℕ) × (n ≡ 2 ^ k)

pub two_pow-IsPowerOfTwo : (n k : ℕ) → n ≡ 2 ^ k → IsPowerOfTwo n
unfolding IsPowerOfTwo
two_pow-IsPowerOfTwo n k e = (k, e)

pub IsPowerOfTwo-exponent : (n : ℕ) → IsPowerOfTwo n → (k : ℕ) × (n ≡ 2 ^ k)
unfolding IsPowerOfTwo
IsPowerOfTwo-exponent n p = p

pub mask_lem : (n x : ℕ) → IsPowerOfTwo n → bit_and x (n - 1) ≡ x % n
unfolding IsPowerOfTwo
mask_lem n x (k, e) = rw e (bit_and_mask k x)

pub IsPowerOfTwo-pos : (n : ℕ) → IsPowerOfTwo n → 0 < n
unfolding IsPowerOfTwo
IsPowerOfTwo-pos n (k, e) = omega (arith, one-le-pow k 2)

module _ {F : Type 0} (ns : List (HashNode F)) (sized : IsPowerOfTwo (length ns)) where
  pub next_index_lem : (i : ℕ) → i < length ns → next_index ns i ≡ following (length ns) i
  next_index_lem i h = mask_lem (length ns) (i + 1) sized ∙ grind arith

  pub home-lt : (h : ℕ) → home ns h < length ns
  home-lt h =
      let pos = IsPowerOfTwo-pos (length ns) sized in omega (arith, mask_lem (length ns) h sized)

-- The occupied nodes: each has the hash of its key, no slot before it from its home is empty, and no
-- two have equal keys.
pub record WellPlaced {F : Type 0} ⦃d : Doubles F⦄ (ns : List (HashNode F)) : Type 0 where
  pub sized : IsPowerOfTwo (length ns)
  pub hashed :
      (i : ℕ)
      → i < length ns
      → is_empty (node ns i).state ≡ false
      → (node ns i).hash ≡ value_hash (node ns i).key
  pub path :
      (i m : ℕ)
      → i < length ns
      → m < length ns
      → is_empty (node ns i).state ≡ false
      → dist (length ns) (home ns (node ns i).hash) m
        < dist (length ns) (home ns (node ns i).hash) i
      → is_empty (node ns m).state ≡ false
  pub distinct :
      (i j : ℕ)
      → i < length ns
      → j < length ns
      → is_empty (node ns i).state ≡ false
      → is_empty (node ns j).state ≡ false
      → value_eq (node ns i).key (node ns j).key ≡ true
      → i ≡ j

module _ {F : Type 0} ⦃d : Doubles F⦄ (ns : List (HashNode F)) (key : Value F) (inc : Bool)
    (sized : IsPowerOfTwo (length ns)) where
  -- What a probe returns is a node with the key.
  probe_sound :
      (r s j : ℕ)
      → s < length ns
      → probe ns key inc r s ≡ some j
      → (j < length ns)
        × (is_empty (node ns j).state ≡ false)
        × (matches (node ns j) key inc ≡ true)
  unfolding probe
  probe_sound zero s j h e = cc
  probe_sound (suc r) s j h e =
      let inside = following-lt (length ns) s h in
      let nexts = next_index_lem ns sized s h in ground (arith, probe_sound r (next_index ns s) j)

  -- A probe that meets no empty and no matching slot before `j` finds `j`.
  probe_complete :
      (r s j : ℕ)
      → s < length ns
      → j < length ns
      → dist (length ns) s j < r
      → is_empty (node ns j).state ≡ false
      → matches (node ns j) key inc ≡ true
      → ((m : ℕ)
          → m < length ns
          → dist (length ns) s m < dist (length ns) s j
          → (is_empty (node ns m).state ≡ false) × (matches (node ns m) key inc ≡ false))
      → probe ns key inc r s ≡ some j
  unfolding probe
  probe_complete zero s j hs hj lt full hit before = absurd (omega arith)
  probe_complete (suc r) s j hs hj lt full hit before = elim (ℕ_discrete s j) [
    | yes same ↦ rw (same, full, hit)
    | no ne ↦
        let (occupied, miss) = before s hs (ground arith) in
        rw (occupied, miss, next_index_lem ns sized s hs)
          (probe_complete r (following (length ns) s) j (following-lt (length ns) s hs) hj
            (omega (arith, dist-following (length ns) s j hs hj ne)) full hit
            (λ m hm h. before m hm (dist_before (length ns) s m j hs hm hj ne h)))
  ]

module _ {F : Type 0} ⦃d : Doubles F⦄ (ns : List (HashNode F)) (w : WellPlaced ns) where
  -- `findHashNode` returns an occupied node with an equal key, live unless dead ones are asked for.
  pub find_sound :
      (key : Value F) (inc : Bool) (j : ℕ)
      → find_hash_node ns key inc ≡ some j
      → (j < length ns)
        × (is_empty (node ns j).state ≡ false)
        × (value_eq (node ns j).key key ≡ true)
        × ((is_live (node ns j).state || inc) ≡ true)
  unfolding find_hash_node
  find_sound key inc j e =
      let (inside, full, hit) =
        probe_sound ns key inc w.sized (length ns) (home ns (value_hash key)) j
          (home-lt ns w.sized (value_hash key)) e in
      ground arith

  -- It finds the node with an equal key, wherever probing has put it.
  pub find_complete :
      (key : Value F) (inc : Bool) (j : ℕ)
      → j < length ns
      → is_empty (node ns j).state ≡ false
      → value_eq (node ns j).key key ≡ true
      → (is_live (node ns j).state || inc) ≡ true
      → find_hash_node ns key inc ≡ some j
  unfolding find_hash_node
  find_complete key inc j hj full same allowed =
      let hash : (node ns j).hash ≡ value_hash key =
        w.hashed j hj full ∙ value_hash-eq (node ns j).key key same in
      let start = home-lt ns w.sized (value_hash key) in
      probe_complete ns key inc w.sized (length ns) (home ns (value_hash key)) j start hj
        (ground arith) full (ground arith)
        (λ m hm before.
          let occupied = w.path j m hj hm full (rw hash before) in
          (
            occupied,
            elim (Bool-cases (matches (node ns m) key inc)) [
              | inr miss ↦ miss
              | inl hit ↦
                  let equal : value_eq (node ns m).key key ≡ true = ground arith in
                  let one = w.distinct m j hm hj occupied full (
                    value_eq_trans (node ns m).key key (node ns j).key equal
                      (value_eq_symm key (node ns j).key ∙ same)) in
                  absurd (ground arith)
            ],
          ))
