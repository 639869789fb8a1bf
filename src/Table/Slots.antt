-- ===== src/Table/Slots.antt =====
-- The loops that look for a slot for a new node (src/core/table.cpp): they end, in a slot that
-- probing reaches.
use native.Mathlib.Decide.{dec_lt}
use lua.Prelude.{
  ℕ, zero, suc, ◌+◌, ◌≤◌, ◌<◌, ◌≡◌, ◌≢◌, inl, inr, Bool, true, false, List, Option, none, some,
  length, arith, Bool-cases,
}
use lua.Prelude.Result.{ok}
use lua.Table.Nodes.{HashNode, is_empty, is_live, is_dead, node, new_slot, remember, free_slot}
use lua.Table.Probe.{dist, following, following-lt, next_index_lem, IsPowerOfTwo}

-- One step forward from `s` short of the whole round.
dist_step :
    (n h s : ℕ) → h < n → s < n → dist n h s + 1 < n → dist n h (following n s) ≡ dist n h s + 1
dist_step n h s hh hs lt = ground arith

dist_same : (n h m s : ℕ) → h < n → m < n → s < n → dist n h m ≡ dist n h s → m ≡ s
dist_same n h m s hh hm hs e = ground arith

dist-lt : (n h s : ℕ) → h < n → s < n → dist n h s < n
dist-lt n h s hh hs = ground arith

module _ {F : Type 0} (ns : List (HashNode F)) (sized : IsPowerOfTwo (length ns)) (h : ℕ)
    (hh : h < length ns) where
  -- No slot before `s` on the way from `h` is empty.
  abbrev pub FullBefore : ℕ → Type 0
  FullBefore s =
      (m : ℕ)
      → m < length ns
      → dist (length ns) h m < dist (length ns) h s
      → is_empty (node ns m).state ≡ false

  FullBefore-step :
      (s e : ℕ)
      → s < length ns
      → e < length ns
      → is_empty (node ns e).state ≡ true
      → FullBefore s
      → is_empty (node ns s).state ≡ false
      → FullBefore (following (length ns) s)
        × (dist (length ns) h (following (length ns) s) ≡ dist (length ns) h s + 1)
  FullBefore-step s e hs he free full occupied =
      let ahead : dist (length ns) h s ≤ dist (length ns) h e =
        elim (dec_lt (dist (length ns) h e) (dist (length ns) h s)) [
          | yes before ↦ let clash = full e he before in absurd (ground arith)
          | no late ↦ omega arith
        ] in
      let other : dist (length ns) h s ≢ dist (length ns) h e = λ same.
        let one = dist_same (length ns) h s e hh hs he same in
        let here = rw one at occupied in ground arith in
      let round = dist-lt (length ns) h e hh he in
      let step = dist_step (length ns) h s hh hs (omega arith) in
      (
        λ m hm before. elim (dec_lt (dist (length ns) h m) (dist (length ns) h s)) [
          | yes earlier ↦ full m hm earlier
          | no late ↦
              let one = dist_same (length ns) h m s hh hm hs (omega arith) in rw one occupied
        ],
        step,
      )

  -- A slot for a new node: not live, and every slot before it on the way is occupied.
  pub record Slot (k : ℕ) (was_empty : Bool) : Type 0 where
    pub inside : k < length ns
    pub not_live : is_live (node ns k).state ≡ false
    pub emptiness : is_empty (node ns k).state ≡ was_empty
    pub way : FullBefore k

  -- The dead slot that the loop remembers.
  abbrev Remembered : Option ℕ → ℕ → Type 0
  Remembered none s = Unit
  Remembered (some i) s =
      (i < length ns)
      × (is_dead (node ns i).state ≡ true)
      × (dist (length ns) h i < dist (length ns) h s)

  Remembered-Slot : (i s : ℕ) → FullBefore s → Remembered (some i) s → Slot i false
  Remembered-Slot i s full (hi, dead, before) = record {
    inside = hi;
    not_live = ground arith;
    emptiness = ground arith;
    way = λ m hm lt. full m hm (omega arith);
  }

  remember-Remembered :
      (first_dead : Option ℕ) (s s' : ℕ)
      → s < length ns
      → Remembered first_dead s
      → dist (length ns) h s' ≡ dist (length ns) h s + 1
      → Remembered (remember ns first_dead s) s'
  unfolding remember
  remember-Remembered none s s' hs r e = elim (Bool-cases (is_dead (node ns s).state)) [
    | inl dead ↦ rw dead (hs, dead, omega arith)
    | inr other ↦ rw other tt
  ]
  remember-Remembered (some i) s s' hs (hi, dead, before) e = (hi, dead, omega arith)

  new_slot-run :
      (fuel s : ℕ) (first_dead : Option ℕ) (e : ℕ)
      → s < length ns
      → e < length ns
      → is_empty (node ns e).state ≡ true
      → length ns ≤ fuel + dist (length ns) h s
      → FullBefore s
      → Remembered first_dead s
      → (k : ℕ) × (b : Bool) × (new_slot ns first_dead fuel s ≡ ok (k, b)) × Slot k b
  unfolding new_slot remember
  new_slot-run zero s first_dead e hs he free enough full rem =
      absurd (omega (arith, dist-lt (length ns) h s hh hs))
  new_slot-run (suc fuel) s first_dead e hs he free enough full rem =
      elim (Bool-cases (is_empty (node ns s).state)) [
        | inl here ↦ found first_dead rem here
        | inr occupied ↦
            let (full', moved) = FullBefore-step s e hs he free full occupied in
            let (k, b, run, slot) =
              new_slot-run fuel (following (length ns) s) (remember ns first_dead s) e
                (following-lt (length ns) s hs) he free (omega arith) full'
                (remember-Remembered first_dead s _ hs rem moved) in
            (k, b, rw (occupied, next_index_lem ns sized s hs) run, slot)
      ]
    where
      found :
          (first_dead : Option ℕ)
          → Remembered first_dead s
          → is_empty (node ns s).state ≡ true
          → (k : ℕ) × (b : Bool) × (new_slot ns first_dead (suc fuel) s ≡ ok (k, b)) × Slot k b
      found none r here = (
        s,
        true,
        rw here,
        record { inside = hs; not_live = ground arith; emptiness = here; way = full },
      )
      found (some i) r here = (i, false, rw here, Remembered-Slot i s full r)

  FullBefore-home : FullBefore h
  FullBefore-home m hm before = absurd (ground arith)

  -- The loop for a new key ends within one round of the nodes, if one of them is empty.
  pub new_slot-Slot :
      (e : ℕ)
      → e < length ns
      → is_empty (node ns e).state ≡ true
      → (k : ℕ) × (b : Bool) × (new_slot ns none (length ns) h ≡ ok (k, b)) × Slot k b
  new_slot-Slot e he free =
      new_slot-run (length ns) h none e hh he free (omega arith) FullBefore-home tt

  -- No node is dead.
  abbrev pub NoDead : Type 0
  NoDead =
      (m : ℕ)
      → m < length ns
      → is_empty (node ns m).state ≡ false
      → is_live (node ns m).state ≡ true

  free_slot-run :
      (fuel s e : ℕ)
      → NoDead
      → s < length ns
      → e < length ns
      → is_empty (node ns e).state ≡ true
      → length ns ≤ fuel + dist (length ns) h s
      → FullBefore s
      → (k : ℕ) × (free_slot ns fuel s ≡ ok k) × Slot k true
  unfolding free_slot
  free_slot-run zero s e clean hs he free enough full =
      absurd (omega (arith, dist-lt (length ns) h s hh hs))
  free_slot-run (suc fuel) s e clean hs he free enough full =
      elim (Bool-cases (is_empty (node ns s).state)) [
        | inl here ↦
            let not_live : is_live (node ns s).state ≡ false = ground arith in
            (
              s,
              rw not_live,
              record { inside = hs; not_live = not_live; emptiness = here; way = full },
            )
        | inr occupied ↦
            let (full', moved) = FullBefore-step s e hs he free full occupied in
            let (k, run, slot) =
              free_slot-run fuel (following (length ns) s) e clean (following-lt (length ns) s hs)
                he free (omega arith) full' in
            (k, rw (clean s hs occupied, next_index_lem ns sized s hs) run, slot)
      ]

  -- So does the loop of `rehash`, in nodes none of which is dead.
  pub free_slot-Slot :
      (e : ℕ)
      → NoDead
      → e < length ns
      → is_empty (node ns e).state ≡ true
      → (k : ℕ) × (free_slot ns (length ns) h ≡ ok k) × Slot k true
  free_slot-Slot e clean he free =
      free_slot-run (length ns) h e clean hh he free (omega arith) FullBefore-home
