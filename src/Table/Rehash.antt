-- ===== src/Table/Rehash.antt =====
-- `rehash` (src/core/table.cpp): it succeeds, and no lookup tells the difference.
use native.Mathlib.Decide.{ℕ_discrete, dec_lt}
use native.Mathlib.Nat.{pow-le-pow_right, pow-succ'}
use lua.Prelude.{
  ℕ, zero, suc, ◌+◌, ◌*◌, ◌^◌, ◌≤◌, ◌<◌, ◌≡◌, inl, inr, refl, ap, ◌∙◌, true, false, List, [], ◌∷◌,
  none, length, length-replicate, replicate, get_or-replicate, arith, Bool-cases, Option-cases,
}
use lua.Prelude.Result.{ok}
use lua.Table.Counts.{count, live_one, used_one, count-replicate}
use lua.Table.Entries.{or_else-none, live_lookup, Apart}
use lua.Table.Nodes.{HashNode, is_empty, node, empty_node, rehash, double_until, find_hash_node}
use lua.Table.Place.{lookup, lookup-none}
use lua.Table.Probe.{WellPlaced, two_pow-IsPowerOfTwo, find_sound}
use lua.Value.{Doubles, Value}
use lua.Table.Moving.{Clean, move_nodes-run}

-- The capacity is a power of two that is large enough.
double_until-run :
    (fuel k requested : ℕ)
    → requested ≤ 2 ^ 63
    → k ≤ 63
    → 64 ≤ fuel + k
    → (m : ℕ) × (double_until fuel (2 ^ k) requested ≡ ok (2 ^ m)) × (requested ≤ 2 ^ m) × (k ≤ m)
unfolding double_until
double_until-run zero k requested small hk enough = absurd (omega arith)
double_until-run (suc fuel) k requested small hk enough = elim (dec_lt (2 ^ k) requested) [
  | no fits ↦ (k, ground arith, omega arith, omega arith)
  | yes short ↦
      let under : k < 63 = elim (ℕ_discrete k 63) [
        | yes top ↦ absurd (omega (arith, ap (λ (j : ℕ). 2 ^ j) top))
        | no ne ↦ omega arith
      ] in
      let half : 2 ^ k ≤ 2 ^ 62 =
        pow-le-pow_right {n = 2} (omega arith) {i = k} {j = 62} (omega arith) in
      let (m, run, large, above) =
        double_until-run fuel (suc k) requested small (omega arith) (omega arith) in
      let doubled : 2 ^ k * 2 ≡ 2 ^ suc k = omega (arith, pow-succ' 2 k) in
      (m, rw doubled (ground (arith, run)), large, omega arith)
]

pub double_until_lem :
    (requested : ℕ)
    → requested ≤ 2 ^ 63
    → (m : ℕ) × (double_until 64 8 requested ≡ ok (2 ^ m)) × (requested ≤ 2 ^ m) × (3 ≤ m)
double_until_lem requested small = double_until-run 64 3 requested small (omega arith) (omega arith)

-- An array of empty nodes.
empties_empty :
    (F : Type 0) (n i : ℕ) → is_empty (node (replicate n (empty_node {F = F})) i).state ≡ true
empties_empty F n i = rw (get_or-replicate n i (empty_node {F = F})) refl

module _ {F : Type 0} ⦃d : Doubles F⦄ where
  empties-WellPlaced : (m : ℕ) → WellPlaced (replicate (2 ^ m) (empty_node {F = F}))
  empties-WellPlaced m = record {
    sized = two_pow-IsPowerOfTwo _ m (length-replicate (2 ^ m) empty_node);
    hashed = λ i hi full. absurd (ground (arith, empties_empty F (2 ^ m) i));
    path = λ i j hi hj full before. absurd (ground (arith, empties_empty F (2 ^ m) i));
    distinct = λ i j hi hj full fj same. absurd (ground (arith, empties_empty F (2 ^ m) i));
  }

  empties-lookup : (m : ℕ) (q : Value F) → lookup (replicate (2 ^ m) (empty_node {F = F})) q ≡ none
  empties-lookup m q =
      elim (Option-cases (find_hash_node (replicate (2 ^ m) (empty_node {F = F})) q false)) [
        | inl e ↦ lookup-none _ q e
        | inr (i, e) ↦
            let (hi, full, same, alive) = find_sound _ (empties-WellPlaced m) q false i e in
            absurd (ground (arith, empties_empty F (2 ^ m) i))
      ]

  -- The outcome of a move of the nodes to an array of at least `requested` slots.
  pub record Rehashed (ns : List (HashNode F)) (requested : ℕ) (moved : List (HashNode F))
      : Type 0 where
    pub placed : WellPlaced moved
    pub clean : Clean moved
    pub large : requested ≤ length moved
    pub least : 8 ≤ length moved
    pub used : count used_one moved ≡ count live_one ns
    pub live : count live_one moved ≡ count live_one ns
    pub same : (q : Value F) → lookup moved q ≡ live_lookup ns q

  -- Without dead nodes the occupied ones are the live ones.
  Clean-count : (ns : List (HashNode F)) → Clean ns → count live_one ns ≡ count used_one ns
  unfolding count
  Clean-count [] clean = refl
  Clean-count (n ∷ ns) clean =
      let rest = Clean-count ns (λ m hm full. clean (suc m) (omega arith) full) in
      elim (Bool-cases (is_empty n.state)) [
        | inl free ↦ ground arith
        | inr full ↦ rw (full, clean 0 (omega arith) full, rest) refl
      ]

  -- When the array asked for has more slots than there are live nodes and the machine can count
  -- them, `rehash` succeeds: the new array is well placed, has no dead node and room for what was
  -- asked, and finds under every key the value of the live node that the old one had.
  pub rehash-Rehashed :
      (ns : List (HashNode F)) (requested : ℕ)
      → Apart ns
      → requested ≤ 2 ^ 63
      → count live_one ns < requested
      → (moved : List (HashNode F)) × (rehash ns requested ≡ ok moved) × Rehashed ns requested moved
  unfolding rehash
  rehash-Rehashed ns requested apart small room =
      let (m, sized, large, least) = double_until_lem requested small in
      let size = length-replicate (2 ^ m) (empty_node {F = F}) in
      let zeros = count-replicate {F = F} used_one (2 ^ m) refl in
      let (moved, run, r) =
        move_nodes-run ns (replicate (2 ^ m) empty_node) (empties-WellPlaced m)
          (λ i hi full. absurd (ground (arith, empties_empty F (2 ^ m) i))) apart
          (λ j i hj hi full alive. absurd (ground (arith, empties_empty F (2 ^ m) j)))
          (omega arith) in
      let eight : 8 ≤ 2 ^ m = pow-le-pow_right {n = 2} (omega arith) {i = 3} {j = m} least in
      (
        moved,
        rw sized run,
        record {
          placed = r.placed;
          clean = r.clean;
          large = omega (arith, r.size);
          least = omega (arith, r.size);
          used = omega (arith, r.total);
          live = omega (arith, r.total, Clean-count moved r.clean);
          same = λ q. r.same q ∙ rw (empties-lookup m q) (or_else-none (live_lookup ns q));
        },
      )
