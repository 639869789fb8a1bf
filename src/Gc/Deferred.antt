-- ===== src/Gc/Deferred.antt =====
-- The barrier that must not throw (src/gc/gc_mark.cpp).
use mathlib.Core.List.{Memᴰ}
use lua.Prelude.{
  ℕ, ◌≡◌, ◌⊎◌, inl, inr, refl, Bool, true, false, List, [], ◌∷◌, ◌++◌, sym, subst, Bool-cases,
}
use lua.Gc.Heap.{
  Collector, Reference, gray, pause, is_white, is_sweep, color_of, children, set_color,
}
use lua.Gc.Marking.{mark_object, needs_barrier}
use lua.Gc.Objects.{write_barrier_deferred, reset_incremental_cycle}
use lua.Gc.Shades.{mark_object-Shades}
use lua.Gc.Tricolor.{Tricolor, Shades-Tricolor}
use lua.Gc.Barriers.{assign, assign-Tricolor, needs-white, unneeded}

module _ (s : Collector) (owner child : ℕ) where
  pub data Deferred (room : Bool) : Collector → Type 0 where
    skipped : needs_barrier s owner child ≡ false → Deferred room s
    pushed :
        needs_barrier s owner child ≡ true
        → (is_sweep s.incremental_phase ≡ false) × (room ≡ true)
        → Deferred room (mark_object s child)
    abandoned :
        needs_barrier s owner child ≡ true
        → (is_sweep s.incremental_phase ≡ true) ⊎ (room ≡ false)
        → Deferred room (reset_incremental_cycle s)

  pub write_barrier_deferred-Deferred :
      (room : Bool) → Deferred room (write_barrier_deferred room s owner child)
  unfolding write_barrier_deferred mark_object
  write_barrier_deferred-Deferred room = elim (Bool-cases (needs_barrier s owner child)) [
    | inl e ↦ elim (Bool-cases (is_sweep s.incremental_phase)) [
      | inl sweeping ↦ rw (e, sweeping) (abandoned e (inl sweeping))
      | inr marking ↦ elim (Bool-cases room) [
        | inl r ↦
            rw (e, marking, r) (subst (Deferred true) (pushed_eq e) (pushed e (marking, refl)))
        | inr full ↦ rw (e, marking, full) (abandoned e (inr refl))
      ]
    ]
    | inr e ↦ rw e (skipped e)
  ]
    where
      pushed_eq :
          needs_barrier s owner child ≡ true
          → mark_object s child ≡ record s {
            gray_list = s.gray_list ++ child ∷ [];
            memory = set_color s.memory child gray;
          }
      pushed_eq e = rw (needs-white s owner child e) refl

  -- What holds of the state behind a deferred barrier and the store that follows it.
  deferred_outcome :
      {room : Bool} {d : Collector} (refs : List Reference)
      → Deferred room d
      → (s.memory owner).owned ≡ true
      → (s.memory child).owned ≡ true
      → ((b : ℕ)
          → Memᴰ b (children ((assign d owner refs).memory owner))
          → Memᴰ b (children (d.memory owner)) ⊎ (b ≡ child))
      → Memᴰ owner s.all_objects
      → Tricolor s
      → Tricolor (assign d owner refs)
          × (d.incremental_phase ≡ s.incremental_phase)
          × ((needs_barrier s owner child ≡ false)
              ⊎ (is_sweep s.incremental_phase ≡ false) × (room ≡ true))
        ⊎ (d.incremental_phase ≡ pause)
          × (d.gray_list ≡ [])
          × (needs_barrier s owner child ≡ true)
          × ((is_sweep s.incremental_phase ≡ true) ⊎ (room ≡ false))
  unfolding reset_incremental_cycle
  deferred_outcome refs (skipped e) ho hc old o h = inl (
    assign-Tricolor s owner refs h (λ b i dark. elim (old b i) [
      | inl j ↦ h.shaded owner b o dark j
      | inr same ↦
          subst (λ (x : ℕ). is_white (color_of s x) ≡ false) (sym same)
            (unneeded s owner child ho hc dark e)
    ]),
    refl,
    inl e,
  )
  deferred_outcome refs (pushed e able) ho hc old o h =
      let t = mark_object s child in
      let f = mark_object-Shades s child in
      let h' = Shades-Tricolor (child ∷ []) s t f h in
      inl (
        assign-Tricolor t owner refs h' (λ b i dark. elim (old b i) [
          | inl j ↦
              h'.shaded owner b (subst (λ (xs : List ℕ). Memᴰ owner xs) (sym f.same_objects) o) dark
                j
          | inr same ↦ f.hit b (Memᴰ.head same)
        ]),
        f.same_phase,
        inr able,
      )
  deferred_outcome refs (abandoned e why) ho hc old o h = inr (refl, refl, e, why)

-- For an owner in the list and a child, both of this collector, and a store of references that are
-- among the old ones of the owner and the child: either the deferred barrier keeps the phase and the
-- store after it keeps the invariant, and then the child needs no barrier, or the collector is not
-- sweeping and the gray list has room; or the barrier abandons the cycle, and then the child needs
-- one, and the collector is sweeping or the gray list has no room.
pub write_barrier_deferred-Tricolor :
    (room : Bool) (s : Collector) (owner child : ℕ) (refs : List Reference)
    → (s.memory owner).owned ≡ true
    → (s.memory child).owned ≡ true
    → ((b : ℕ)
        → Memᴰ b (
            children ((assign (write_barrier_deferred room s owner child) owner refs).memory owner))
        → Memᴰ b (children ((write_barrier_deferred room s owner child).memory owner))
          ⊎ (b ≡ child))
    → Memᴰ owner s.all_objects
    → Tricolor s
    → Tricolor (assign (write_barrier_deferred room s owner child) owner refs)
        × ((write_barrier_deferred room s owner child).incremental_phase ≡ s.incremental_phase)
        × ((needs_barrier s owner child ≡ false)
            ⊎ (is_sweep s.incremental_phase ≡ false) × (room ≡ true))
      ⊎ ((write_barrier_deferred room s owner child).incremental_phase ≡ pause)
        × ((write_barrier_deferred room s owner child).gray_list ≡ [])
        × (needs_barrier s owner child ≡ true)
        × ((is_sweep s.incremental_phase ≡ true) ⊎ (room ≡ false))
write_barrier_deferred-Tricolor room s owner child refs =
    deferred_outcome s owner child refs (write_barrier_deferred-Deferred s owner child room)
