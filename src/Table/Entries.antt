-- ===== src/Table/Entries.antt =====
-- The hash part as a list of live entries, whatever their slots (src/core/table.cpp): what a lookup
-- by probing and a move to another array have in common.
use lua.Prelude.{
  ℕ, zero, suc, ◌<◌, ◌≡◌, refl, sym, ◌∙◌, true, false, ◌&&◌, List, [], ◌∷◌, Option, none, some,
  if◌then◌else◌, length, arith, Bool-cases, Option-cases, inl, inr,
}
use lua.Table.Nodes.{HashNode, is_live, node, find_hash_node}
use lua.Table.Place.{lookup, lookup-none, lookup-some}
use lua.Table.Probe.{WellPlaced, find_sound, find_complete}
use lua.Value.{Doubles, Value, value_eq, value_hash, value_eq_symm, value_eq_congr}

-- The first of two that is there.
abbrev pub or_else : {F : Type 0} → Option (Value F) → Option (Value F) → Option (Value F)
or_else none b = b
or_else (some v) b = some v

pub or_else_assoc :
    {F : Type 0} (a b c : Option (Value F)) → or_else (or_else a b) c ≡ or_else a (or_else b c)
or_else_assoc none b c = refl
or_else_assoc (some v) b c = refl

pub or_else-none : {F : Type 0} (a : Option (Value F)) → or_else a none ≡ a
or_else-none none = refl
or_else-none (some v) = refl

module _ {F : Type 0} ⦃d : Doubles F⦄ where
  -- The value of one node under a key.
  abbrev pub entry : HashNode F → Value F → Option (Value F)
  entry n q = if is_live n.state && value_eq n.key q then some n.value else none

  unfoldable pub live_lookup : List (HashNode F) → Value F → Option (Value F)
  live_lookup [] q = none
  live_lookup (n ∷ ns) q = or_else (live_lookup ns q) (entry n q)

  -- Live nodes with equal keys are one node, and each has the hash of its key.
  pub record Apart (ns : List (HashNode F)) : Type 0 where
    pub hashed :
        (i : ℕ)
        → i < length ns
        → is_live (node ns i).state ≡ true
        → (node ns i).hash ≡ value_hash (node ns i).key
    pub distinct :
        (i j : ℕ)
        → i < length ns
        → j < length ns
        → is_live (node ns i).state ≡ true
        → is_live (node ns j).state ≡ true
        → value_eq (node ns i).key (node ns j).key ≡ true
        → i ≡ j

  pub Apart-tail : (n : HashNode F) (ns : List (HashNode F)) → Apart (n ∷ ns) → Apart ns
  Apart-tail n ns a = record {
    hashed = λ i hi alive. a.hashed (suc i) (omega arith) alive;
    distinct = λ i j hi hj li lj same.
        omega (arith, a.distinct (suc i) (suc j) (omega arith) (omega arith) li lj same);
  }

  pub Apart-head :
      (n : HashNode F) (ns : List (HashNode F)) (i : ℕ)
      → Apart (n ∷ ns)
      → is_live n.state ≡ true
      → i < length ns
      → is_live (node ns i).state ≡ true
      → value_eq n.key (node ns i).key ≡ false
  Apart-head n ns i a alive hi li = elim (Bool-cases (value_eq n.key (node ns i).key)) [
    | inr other ↦ other
    | inl same ↦
        absurd (omega (arith, a.distinct 0 (suc i) (omega arith) (omega arith) alive li same))
  ]

  pub WellPlaced-Apart : (ns : List (HashNode F)) → WellPlaced ns → Apart ns
  WellPlaced-Apart ns w = record {
    hashed = λ i hi alive. w.hashed i hi (ground arith);
    distinct = λ i j hi hj li lj same. w.distinct i j hi hj (ground arith) (ground arith) same;
  }

  -- No live node has the key.
  abbrev pub Absent : List (HashNode F) → Value F → Type 0
  Absent ns q =
      (i : ℕ)
      → i < length ns
      → is_live (node ns i).state ≡ true
      → value_eq (node ns i).key q ≡ false

  pub live_lookup-Absent :
      (ns : List (HashNode F)) (q : Value F) → Absent ns q → live_lookup ns q ≡ none
  unfolding live_lookup
  live_lookup-Absent [] q a = refl
  live_lookup-Absent (n ∷ ns) q a =
      let rest = live_lookup-Absent ns q (λ i hi alive. a (suc i) (omega arith) alive) in
      elim (Bool-cases (is_live n.state)) [
        | inr gone ↦ rw (rest, gone) refl
        | inl alive ↦ rw (rest, alive, a 0 (omega arith) alive) refl
      ]

  pub live_lookup-at :
      (ns : List (HashNode F)) (q : Value F) (i : ℕ)
      → Apart ns
      → i < length ns
      → is_live (node ns i).state ≡ true
      → value_eq (node ns i).key q ≡ true
      → live_lookup ns q ≡ some (node ns i).value
  unfolding live_lookup
  live_lookup-at [] q i a hi alive same = elim hi [ ]
  live_lookup-at (n ∷ ns) q zero a hi alive same =
      let rest = live_lookup-Absent ns q (λ j hj lj.
        value_eq_symm (node ns j).key q
        ∙ sym (value_eq_congr n.key q (node ns j).key same)
        ∙ Apart-head n ns j a alive hj lj) in
      rw (rest, alive, same) refl
  live_lookup-at (n ∷ ns) q (suc i) a hi alive same =
      rw (live_lookup-at ns q i (Apart-tail n ns a) (omega arith) alive same) refl

  -- A lookup by probing gives what the list of the live nodes gives.
  pub lookup-live_lookup :
      (ns : List (HashNode F)) (q : Value F) → WellPlaced ns → lookup ns q ≡ live_lookup ns q
  lookup-live_lookup ns q w = elim (Option-cases (find_hash_node ns q false)) [
    | inr (i, e) ↦
        let (hi, full, same, alive) = find_sound ns w q false i e in
        lookup-some ns q i e
        ∙ sym (live_lookup-at ns q i (WellPlaced-Apart ns w) hi (ground arith) same)
    | inl e ↦
        lookup-none ns q e
        ∙ sym (
            live_lookup-Absent ns q (λ i hi alive. elim (Bool-cases (value_eq (node ns i).key q)) [
              | inr other ↦ other
              | inl same ↦
                  let found = find_complete ns w q false i hi (ground arith) same (rw alive refl) in
                  absurd (ground arith)
            ]))
  ]
