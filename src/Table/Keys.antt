-- ===== src/Table/Keys.antt =====
-- The keys of the array part (src/core/table.cpp, `isPositiveIntegerKey`), and `get` on the two parts.
use lua.Prelude.{
  ℕ, ◌-◌, ◌≤◌, ◌≡◌, ◌≢◌, inl, inr, refl, sym, ◌∙◌, true, false, List, Option, none, some, leb,
  if◌then◌else◌, length, get_or, get_or_beyond, arith, Bool-cases, Option-cases,
}
use lua.Table.Nodes.{find_hash_node}
use lua.Table.Place.{lookup, lookup-none, lookup-some}
use lua.Table.Whole.{
  Table, is_positive_integer_key, integer_key, in_array, array_value, hash_value, get, get_array,
  within_array,
}
use lua.Prelude.Int.{i32_max}
use lua.Value.{Doubles, Value, nil, number, is_nil, value_eq, value_eq_symm, value_eq_trans}

module _ {F : Type 0} ⦃d : Doubles F⦄ where
  -- The key with an index is the number of the index.
  pub positive_key :
      (q : Value F) (i : ℕ)
      → is_positive_integer_key q ≡ some i
      → (1 ≤ i) × (i ≤ i32_max) × (value_eq (integer_key i) q ≡ true)
  unfolding is_positive_integer_key value_eq
  positive_key (number a) i e = elim (Bool-cases (d.less_eq a (d.of_nat 0))) [
    | inl low ↦ absurd (ground arith)
    | inr positive ↦ elim (Bool-cases (d.equal a (d.floor a))) [
      | inr fraction ↦ absurd (ground arith)
      | inl whole ↦ elim (Bool-cases (d.less_eq a (d.of_nat i32_max))) [
        | inr high ↦ absurd (ground arith)
        | inl fits ↦
            let (low, high, same) = d.to_i32_whole a positive whole fits in
            let here : d.to_i32 a ≡ i = ground arith in
            (omega arith, omega arith, rw (← here) (d.equal_symm (d.of_nat (d.to_i32 a)) a ∙ same))
      ]
    ]
  ]
  positive_key _ i e = absurd (cc)

  whole-equal : (a b : F) → d.equal a b ≡ true → d.equal a (d.floor a) ≡ d.equal b (d.floor b)
  whole-equal a b e = ground (
    arith,
    d.equal_symm a b,
    d.floor-equal a b e,
    d.equal_symm (d.floor a) (d.floor b),
    d.equal_trans a b (d.floor b),
    d.equal_trans a (d.floor b) (d.floor a),
    d.equal_trans b a (d.floor a),
    d.equal_trans b (d.floor a) (d.floor b),
  )

  -- Equal keys have one index.
  pub index-eq :
      (a b : Value F) → value_eq a b ≡ true → is_positive_integer_key a ≡ is_positive_integer_key b
  unfolding is_positive_integer_key value_eq
  index-eq (number a) (number b) e =
      let (zero_too, beyond) = d.less_eq-equal a b (d.of_nat 0) e in
      let (max_too, beyond') = d.less_eq-equal a b (d.of_nat i32_max) e in
      rw (zero_too, max_too, whole-equal a b e, d.to_i32-equal a b e) refl
  index-eq a b e = ground arith

  -- Keys that differ have different indices.
  pub index-ne :
      (a b : Value F) (i j : ℕ)
      → value_eq a b ≡ false
      → is_positive_integer_key a ≡ some i
      → is_positive_integer_key b ≡ some j
      → i ≢ j
  index-ne a b i j other ea eb same =
      let (l, h, ka) = positive_key a i ea in
      let (l', h', kb) = positive_key b j eb in
      let ki : value_eq (integer_key i) b ≡ true = rw same kb in
      let clash = value_eq_trans a (integer_key i) b (value_eq_symm a (integer_key i) ∙ ka) ki in
      absurd (ground arith)

  -- The array part at an index, and the hash part at a key.
  abbrev pub slot : List (Value F) → Option ℕ → Value F
  slot array none = nil
  slot array (some i) = get_or array (i - 1) nil

  abbrev pub or_nil : Option (Value F) → Value F
  or_nil none = nil
  or_nil (some v) = v

  array_part :
      (t : Table F) (q : Value F)
      → array_value t (in_array t q) ≡ slot t.array (is_positive_integer_key q)
  unfolding array_value in_array within_array get_array
  array_part t q = elim (Option-cases (is_positive_integer_key q)) [
    | inl e ↦ rw e refl
    | inr (i, e) ↦
        let (low, high, same) = positive_key q i e in
        elim (Bool-cases (leb i (length t.array))) [
          | inl inside ↦ rw (e, inside) (ground arith)
          | inr outside ↦ rw (e, outside) (sym (get_or_beyond t.array (i - 1) nil (ground arith)))
        ]
  ]

  hash_part :
      (t : Table F) (q : Value F)
      → hash_value t (find_hash_node t.hash.nodes q false) ≡ or_nil (lookup t.hash.nodes q)
  unfolding hash_value
  hash_part t q = elim (Option-cases (find_hash_node t.hash.nodes q false)) [
    | inl e ↦ rw (e, lookup-none t.hash.nodes q e) refl
    | inr (i, e) ↦ rw (e, lookup-some t.hash.nodes q i e) refl
  ]

  -- The guards of `get` only keep it off slots that are not there.
  pub get_lem :
      (t : Table F) (q : Value F)
      → get t q ≡ (
          if is_nil (slot t.array (is_positive_integer_key q))
          then or_nil (lookup t.hash.nodes q)
          else slot t.array (is_positive_integer_key q))
  unfolding get
  get_lem t q = rw (array_part t q, hash_part t q) refl
