-- ===== src/Table/SetKey.antt =====
-- `set` (src/core/table.cpp): what every `get` gives afterwards, on every branch.
use lua.Prelude.{
  ℕ, zero, suc, ◌-◌, ◌^◌, ◌≤◌, ◌≡◌, ◌⊎◌, inl, inr, refl, sym, ◌∙◌, true, false, none, some,
  if◌then◌else◌, length, length-set, set, get_or_beyond, get_or-set_self, get_or-set_ne, arith,
  Bool-cases, Option-cases,
}
use lua.Prelude.Result.{Result, ok, err}
use lua.Table.Growth.{length-grown, grown-length, grown-get_or}
use lua.Table.GetSet.{IsTable, GetsFrom, parts-get, remove-get}
use lua.Table.Insert.{remove_hash}
use lua.Table.Keys.{positive_key, index-eq, index-ne, slot, get_lem}
use lua.Table.Nodes.{TableError, hash_limit, index_is_nil, index_is_nan}
use lua.Table.Place.{lookup}
use lua.Table.Remove.{remove_hash-Removed}
use lua.Table.Store.{Refused, Stored, set_hash-Stored}
use lua.Table.Whole.{
  Table, ResourcePolicy, remove, is_positive_integer_key, integer_key, set_key, store, set_hash_of,
  set_array, set_array_range, set_values, grown, should_store_in_array,
}
use lua.Prelude.Int.{i32_max}
use lua.Value.{Doubles, Value, nil, is_nil, is_nil-eq, is_nan_value, value_eq, value_eq_congr}

module _ {F : Type 0} ⦃d : Doubles F⦄ where
  -- A value in the array part.
  stored_at : Table F → ℕ → Value F → Table F
  stored_at t i value = record t {
    array = set (grown t.array i) (i - 1) value;
    hash = remove_hash t.hash (integer_key i);
    flags = 0;
  }

  set_array_lem :
      (p : ResourcePolicy) (t : Table F) (i : ℕ) (value : Value F)
      → 1 ≤ i
      → i ≤ i32_max
      → i ≤ p.max_table_array_slots
      → is_nil value ≡ false
      → set_array p t i value ≡ ok (stored_at t i value)
  unfolding set_array set_array_range set_values stored_at
  set_array_lem p t zero value low high fits v = absurd (omega arith)
  set_array_lem p t (suc i) value low high fits v = rw v (ground arith)

  stored_at-slot :
      (t : Table F) (key value : Value F) (i : ℕ) (q : Value F)
      → is_positive_integer_key key ≡ some i
      → slot (stored_at t i value).array (is_positive_integer_key q)
        ≡ (if value_eq key q then value else slot t.array (is_positive_integer_key q))
  unfolding stored_at
  stored_at-slot t key value i q e =
      let (low, high, k) = positive_key key i e in
      elim (Bool-cases (value_eq key q)) [
        | inl same ↦
            rw (← index-eq key q same, e, same)
              (get_or-set_self (grown t.array i) (i - 1) value nil
                (omega (arith, length-grown t.array i)))
        | inr other ↦ elim (Option-cases (is_positive_integer_key q)) [
          | inl e' ↦ rw (e', other) refl
          | inr (j, e') ↦
              let (low', high', k') = positive_key q j e' in
              let ne = index-ne key q i j other e e' in
              rw (e', other)
                (get_or-set_ne (grown t.array i) (i - 1) (j - 1) value nil
                    (λ same. ne (omega arith))
                  ∙ grown-get_or t.array i (j - 1))
        ]
      ]

  stored_at-get :
      (p : ResourcePolicy) (t : Table F) (key value : Value F) (i : ℕ)
      → IsTable p t
      → is_positive_integer_key key ≡ some i
      → i ≤ p.max_table_array_slots
      → IsTable p (stored_at t i value) × GetsFrom t key value (stored_at t i value)
  unfolding stored_at
  stored_at-get p t key value i h e fits =
      let (low, high, k) = positive_key key i e in
      let r = remove_hash-Removed t.hash (integer_key i) h.hash_ok in
      (
        record {
          hash_ok = r.kept;
          array_ok = omega (
            arith,
            length-set (grown t.array i) (i - 1) value,
            grown-length t.array i p.max_table_array_slots fits h.array_ok,
          );
        },
        λ q.
            parts-get t (stored_at t i value) key value q (stored_at-slot t key value i q e)
              (r.same q ∙ rw (value_eq_congr (integer_key i) key q k) refl),
      )

  -- The hash part is full and has no value under the key.
  abbrev pub Full : ResourcePolicy → Table F → Value F → Type 0
  Full p t key = (p.max_table_hash_entries ≤ t.hash.live_count) × (lookup t.hash.nodes key ≡ none)

  -- What `set` does for a key that is neither nil nor NaN.
  unfoldable pub SetOutcome :
      ResourcePolicy → Table F → Value F → Value F → Result TableError (Table F) → Type 0
  SetOutcome p t key value r =
      ((r ≡ err hash_limit) × (is_nil value ≡ false) × Full p t key)
      ⊎ ((t' : Table F) × (r ≡ ok t') × IsTable p t' × GetsFrom t key value t')

  -- Where the array part does not take the key, its slot there is nil.
  hash_of-SetOutcome :
      (p : ResourcePolicy) (t : Table F) (key value : Value F)
      → IsTable p t
      → length t.hash.nodes ≤ 2 ^ 62
      → is_nil value ≡ false
      → ((q : Value F) → value_eq key q ≡ true → slot t.array (is_positive_integer_key q) ≡ nil)
      → SetOutcome p t key value (set_hash_of p t key value)
  unfolding SetOutcome set_hash_of Refused Stored is_nil
  hash_of-SetOutcome p t key value h small v outside =
      elim (set_hash-Stored p.max_table_hash_entries t.hash key value h.hash_ok small) [
        | inl (refused, full, gone) ↦ inl (rw refused refl, v, (full, gone))
        | inr (hash, run, kept, room, same) ↦ inr (
          record t { hash = hash; flags = 0 },
          rw run refl,
          record { hash_ok = kept; array_ok = h.array_ok },
          λ q. elim (Bool-cases (value_eq key q)) [
            | inl equal ↦
                get_lem (record t { hash = hash; flags = 0 }) q
                ∙ rw (outside q equal, same q, equal) refl
            | inr other ↦
                get_lem (record t { hash = hash; flags = 0 }) q
                ∙ rw (same q, other) (sym (get_lem t q))
          ],
        )
      ]

  -- A key that `shouldStoreInArray` turns away is beyond the array part.
  outside-slot :
      (p : ResourcePolicy) (t : Table F) (key : Value F) (i : ℕ)
      → IsTable p t
      → is_positive_integer_key key ≡ some i
      → should_store_in_array p t i ≡ false
      → slot t.array (some i) ≡ nil
  unfolding should_store_in_array
  outside-slot p t key i h e away =
      let (low, high, k) = positive_key key i e in
      get_or_beyond t.array (i - 1) nil (ground (arith, h.array_ok))

  inside-fits :
      (p : ResourcePolicy) (t : Table F) (i : ℕ)
      → should_store_in_array p t i ≡ true
      → i ≤ p.max_table_array_slots
  unfolding should_store_in_array
  inside-fits p t i e = ground arith

  store-SetOutcome :
      (p : ResourcePolicy) (t : Table F) (key value : Value F)
      → IsTable p t
      → length t.hash.nodes ≤ 2 ^ 62
      → is_nil value ≡ false
      → SetOutcome p t key value (store p t key value (is_positive_integer_key key))
  unfolding SetOutcome store stored_at
  store-SetOutcome p t key value h small v = elim (Option-cases (is_positive_integer_key key)) [
    | inl e ↦
        rw e (
          hash_of-SetOutcome p t key value h small v (λ q same. rw (← index-eq key q same, e) refl))
    | inr (i, e) ↦
        let (low, high, k) = positive_key key i e in
        elim (Bool-cases (should_store_in_array p t i)) [
          | inr away ↦
              rw (e, away)
                (hash_of-SetOutcome p t key value h small v
                  (λ q same. rw (← index-eq key q same, e) (outside-slot p t key i h e away)))
          | inl inside ↦
              let (kept, same) = stored_at-get p t key value i h e (inside-fits p t i inside) in
              rw (e, inside)
                (inr (
                  stored_at t i value,
                  set_array_lem p (record t { flags = 0 }) i value low high
                      (inside-fits p t i inside) v,
                  kept,
                  same,
                ))
        ]
  ]

  removal-SetOutcome :
      (p : ResourcePolicy) (t : Table F) (key value : Value F)
      → IsTable p t
      → is_nil value ≡ true
      → SetOutcome p t key value (ok (remove t key))
  unfolding SetOutcome
  removal-SetOutcome p t key value h v =
      let (kept, same) = remove-get p t key h in
      inr (remove t key, refl, kept, rw (is_nil-eq value v) same)

  set_key-there :
      (p : ResourcePolicy) (t : Table F) (key value : Value F)
      → IsTable p t
      → length t.hash.nodes ≤ 2 ^ 62
      → is_nil key ≡ false
      → is_nan_value key ≡ false
      → SetOutcome p t key value (set_key p t key value)
  unfolding set_key
  set_key-there p t key value h small there real =
      rw (there, real)
        (elim (Bool-cases (is_nil value)) [
          | inl v ↦ rw v (removal-SetOutcome p t key value h v)
          | inr v ↦ rw v (store-SetOutcome p t key value h small v)
        ])

  -- `set` refuses the key nil and the key NaN. For any other key it throws only if the value is not
  -- nil, the key is not in the hash part and the hash part is full; else it leaves a table in which
  -- the key, and any that equals it, has the value, and every other key the value it had, whichever
  -- part they are in and whether or not nodes were moved. The condition is that the machine can
  -- double the node array.
  pub set_key-SetOutcome :
      (p : ResourcePolicy) (t : Table F) (key value : Value F)
      → IsTable p t
      → length t.hash.nodes ≤ 2 ^ 62
      → ((is_nil key ≡ true) × (set_key p t key value ≡ err index_is_nil))
        ⊎ (((is_nan_value key ≡ true) × (set_key p t key value ≡ err index_is_nan))
            ⊎ (is_nil key ≡ false)
              × (is_nan_value key ≡ false)
              × SetOutcome p t key value (set_key p t key value))
  unfolding set_key
  set_key-SetOutcome p t key value h small = elim (Bool-cases (is_nil key)) [
    | inl n ↦ inl (n, rw n refl)
    | inr there ↦ elim (Bool-cases (is_nan_value key)) [
      | inl n ↦ inr (inl (n, rw (there, n) refl))
      | inr real ↦ inr (inr (there, real, set_key-there p t key value h small there real))
    ]
  ]
