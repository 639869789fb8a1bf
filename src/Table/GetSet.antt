-- ===== src/Table/GetSet.antt =====
-- `get` after `remove` (src/core/table.cpp), whichever part the key is in, and the state of a table
-- between calls.
use native.Mathlib.Decide.{dec_lt}
use lua.Prelude.{
  ℕ, ◌-◌, ◌≤◌, ◌≡◌, ◌≢◌, inl, inr, refl, sym, ◌∙◌, List, Option, none, some, leb, if◌then◌else◌,
  length, length-set, set, get_or, get_or_beyond, get_or-set_self, get_or-set_ne, arith, Bool-cases,
  Option-cases,
}
use lua.Table.Keys.{positive_key, index-eq, index-ne, slot, get_lem}
use lua.Table.Place.{lookup}
use lua.Table.Ready.{IsHashPart}
use lua.Table.Remove.{remove_hash-Removed}
use lua.Table.Whole.{
  Table, ResourcePolicy, get, remove, clear_slot, in_array, within_array, is_positive_integer_key,
}
use lua.Value.{Doubles, Value, nil, is_nil, is_nil-eq, value_eq}

module _ {F : Type 0} ⦃d : Doubles F⦄ where
  -- The state of a table between calls, under a policy.
  pub record IsTable (p : ResourcePolicy) (t : Table F) : Type 0 where
    pub hash_ok : IsHashPart t.hash
    pub array_ok : length t.array ≤ p.max_table_array_slots

  -- The values of `new` are those of `old` but under `key`, where they are `v`.
  abbrev pub GetsFrom : Table F → Value F → Value F → Table F → Type 0
  GetsFrom old key v new = (q : Value F) → get new q ≡ (if value_eq key q then v else get old q)

  -- A slot that is cleared reads as nil, and no other changes.
  cleared :
      (t : Table F) (i : ℕ) (j : Option ℕ)
      → slot (clear_slot t (some i)) j ≡ (
          if is_nil (slot t.array (some i))
          then slot t.array j
          else slot (set t.array (i - 1) nil) j)
  unfolding clear_slot
  cleared t i j = elim (Bool-cases (is_nil (get_or t.array (i - 1) nil))) [
    | inl e ↦ rw e refl
    | inr e ↦ rw e refl
  ]

  set_nil_self : (array : List (Value F)) (i : ℕ) → get_or (set array i nil) i nil ≡ nil
  set_nil_self array i = elim (dec_lt i (length array)) [
    | yes inside ↦ get_or-set_self array i nil nil inside
    | no outside ↦ get_or_beyond (set array i nil) i nil (omega (arith, length-set array i nil))
  ]

  cleared_self : (t : Table F) (i : ℕ) → slot (clear_slot t (some i)) (some i) ≡ nil
  cleared_self t i = cleared t i (some i) ∙ elim (Bool-cases (is_nil (slot t.array (some i)))) [
    | inl e ↦ rw e (is_nil-eq _ e)
    | inr e ↦ rw e (set_nil_self t.array (i - 1))
  ]

  cleared-other :
      (t : Table F) (i j : ℕ)
      → 1 ≤ i
      → 1 ≤ j
      → i ≢ j
      → slot (clear_slot t (some i)) (some j) ≡ slot t.array (some j)
  cleared-other t i j hi hj ne =
      let away = get_or-set_ne t.array (i - 1) (j - 1) nil nil (λ e. ne (omega arith)) in
      cleared t i (some j)
      ∙ elim (Bool-cases (is_nil (slot t.array (some i)))) [ inl e ↦ rw e refl | inr e ↦ rw e away ]

  remove-slot :
      (t : Table F) (key q : Value F)
      → slot (clear_slot t (in_array t key)) (is_positive_integer_key q)
        ≡ (if value_eq key q then nil else slot t.array (is_positive_integer_key q))
  unfolding in_array within_array clear_slot
  remove-slot t key q = elim (Option-cases (is_positive_integer_key key)) [
    | inl e ↦ elim (Bool-cases (value_eq key q)) [
      | inr other ↦ rw (e, other) refl
      | inl same ↦ rw (← index-eq key q same, e, same) refl
    ]
    | inr (i, e) ↦
        let (low, high, k) = positive_key key i e in
        elim (Bool-cases (value_eq key q)) [
          | inl same ↦ rw (← index-eq key q same, e, same) (gone i)
          | inr other ↦ elim (Option-cases (is_positive_integer_key q)) [
            | inl e' ↦ rw (e', other) refl
            | inr (j, e') ↦
                let (low', high', k') = positive_key q j e' in
                rw (e, e', other) (others i j low low' (index-ne key q i j other e e'))
          ]
        ]
  ]
    where
      gone : (i : ℕ) → slot (clear_slot t (within_array t (some i))) (some i) ≡ nil
      gone i = elim (Bool-cases (leb i (length t.array))) [
        | inl inside ↦ rw inside (cleared_self t i)
        | inr outside ↦ rw outside (get_or_beyond t.array (i - 1) nil (ground arith))
      ]

      others :
          (i j : ℕ)
          → 1 ≤ i
          → 1 ≤ j
          → i ≢ j
          → slot (clear_slot t (within_array t (some i))) (some j) ≡ slot t.array (some j)
      others i j hi hj ne = elim (Bool-cases (leb i (length t.array))) [
        | inl inside ↦ rw inside (cleared-other t i j hi hj ne)
        | inr outside ↦ rw outside refl
      ]

  -- The value under a key once the two parts agree on what they do to it.
  pub parts-get :
      (t t' : Table F) (key v : Value F) (q : Value F)
      → slot t'.array (is_positive_integer_key q)
        ≡ (if value_eq key q then v else slot t.array (is_positive_integer_key q))
      → lookup t'.hash.nodes q ≡ (if value_eq key q then none else lookup t.hash.nodes q)
      → get t' q ≡ (if value_eq key q then v else get t q)
  unfolding is_nil
  parts-get t t' key v q e h = elim (Bool-cases (value_eq key q)) [
    | inl same ↦
        get_lem t' q
        ∙ rw (e, h, same)
            (elim (Bool-cases (is_nil v)) [ inl n ↦ rw (is_nil-eq v n) refl | inr n ↦ rw n refl ])
    | inr other ↦ get_lem t' q ∙ rw (e, h, other) (sym (get_lem t q))
  ]

  clear_slot-length : (t : Table F) (i : Option ℕ) → length (clear_slot t i) ≡ length t.array
  unfolding clear_slot
  clear_slot-length t none = refl
  clear_slot-length t (some i) = elim (Bool-cases (is_nil (get_or t.array (i - 1) nil))) [
    | inl e ↦ rw e refl
    | inr e ↦ rw e (length-set t.array (i - 1) nil)
  ]

  -- `remove` leaves a table in which the key, and any that equals it, has the value nil, and every
  -- other key the value it had.
  pub remove-get :
      (p : ResourcePolicy) (t : Table F) (key : Value F)
      → IsTable p t
      → IsTable p (remove t key) × GetsFrom t key nil (remove t key)
  unfolding remove
  remove-get p t key h =
      let r = remove_hash-Removed t.hash key h.hash_ok in
      (
        record {
          hash_ok = r.kept;
          array_ok = omega (arith, h.array_ok, clear_slot-length t (in_array t key));
        },
        λ q. parts-get t (remove t key) key nil q (remove-slot t key q) (r.same q),
      )
