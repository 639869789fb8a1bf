-- ===== src/Table/Counts.antt =====
-- How many nodes are live and how many are occupied (src/core/table.cpp).
use lua.Prelude.{
  ℕ, zero, suc, ◌+◌, ◌≤◌, ◌<◌, ◌≡◌, refl, true, List, [], ◌∷◌, if◌then◌else◌, length, set,
  replicate, arith, Bool-cases, inl, inr,
}
use lua.Table.Nodes.{HashNode, is_empty, is_live, node, empty_node}

module _ {F : Type 0} where
  abbrev pub live_one : HashNode F → ℕ
  live_one n = if is_live n.state then 1 else 0

  abbrev pub used_one : HashNode F → ℕ
  used_one n = if is_empty n.state then 0 else 1

  unfoldable pub count : (HashNode F → ℕ) → List (HashNode F) → ℕ
  count one [] = 0
  count one (n ∷ ns) = one n + count one ns

  pub count-set :
      (one : HashNode F → ℕ) (ns : List (HashNode F)) (k : ℕ) (x : HashNode F)
      → k < length ns
      → count one (set ns k x) + one (node ns k) ≡ count one ns + one x
  unfolding count
  count-set one [] k x h = elim h [ ]
  count-set one (n ∷ ns) zero x h = omega arith
  count-set one (n ∷ ns) (suc k) x h = omega (arith, count-set one ns k x (omega arith))

  pub count-le-length : (ns : List (HashNode F)) → count used_one ns ≤ length ns
  unfolding count
  count-le-length [] = omega arith
  count-le-length (n ∷ ns) = ground (arith, count-le-length ns)

  -- Fewer occupied nodes than slots leave an empty slot.
  pub exists_empty :
      (ns : List (HashNode F))
      → count used_one ns < length ns
      → (e : ℕ) × (e < length ns) × (is_empty (node ns e).state ≡ true)
  unfolding count
  exists_empty [] h = elim h [ ]
  exists_empty (n ∷ ns) h = elim (Bool-cases (is_empty n.state)) [
    | inl free ↦ (0, omega arith, free)
    | inr full ↦
        let (e, inside, free) = exists_empty ns (ground arith) in (suc e, omega arith, free)
  ]

  pub count-replicate :
      (one : HashNode F → ℕ) (n : ℕ) → one empty_node ≡ 0 → count one (replicate n empty_node) ≡ 0
  unfolding count
  count-replicate one zero e = refl
  count-replicate one (suc n) e = omega (arith, count-replicate one n e)

  pub live-le-used : (ns : List (HashNode F)) → count live_one ns ≤ count used_one ns
  unfolding count
  live-le-used [] = omega arith
  live-le-used (n ∷ ns) = ground (arith, live-le-used ns)
