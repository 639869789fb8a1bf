-- ===== src/Gc/Leaving.antt =====
-- Destructors during a cycle (src/gc/garbage_collector.cpp, src/core/upvalue.cpp).
use lua.Prelude.{
  ℕ, ◌≡◌, ◌⊎◌, inl, inr, refl, Bool, List, [], ◌∷◌, Option, none, some, ◌∙◌, Bool-cases,
}
use lua.Gc.Heap.{Collector, IncrementalPhase, pause, is_thread, children}
use lua.Gc.Objects.{
  write_barrier_deferred, reset_incremental_cycle, forget_object, release_bytes, remove_root,
}
use lua.Gc.Sweep.{announce, close_upvalue, close_upvalues, remove_hook, destroy_object}
use lua.Gc.Shades.{mark_object-Shades}
use lua.Gc.Deferred.{Deferred, skipped, pushed, abandoned, write_barrier_deferred-Deferred}

-- The destruction of an object leaves the phase alone, or abandons the cycle.
abbrev pub Leaves : IncrementalPhase → Collector → Type 0
Leaves p s = (s.incremental_phase ≡ p) ⊎ (s.incremental_phase ≡ pause)

module _ (room : List ℕ → Bool) (p : IncrementalPhase) where
  deferred-Leaves :
      {roomy : Bool} (s : Collector) (u c : ℕ) (d : Collector)
      → Leaves p s
      → Deferred s u c roomy d
      → Leaves p d
  unfolding reset_incremental_cycle
  deferred-Leaves s u c d h (skipped e) = h
  deferred-Leaves s u c d h (pushed e able) =
      let same = (mark_object-Shades s c).same_phase in
      elim h [ inl e' ↦ inl (same ∙ e') | inr e' ↦ inr (same ∙ e') ]
  deferred-Leaves s u c d h (abandoned e why) = inr refl

  announce-Leaves :
      (cs : List ℕ) (s : Collector) (u : ℕ) → Leaves p s → Leaves p (announce room s u cs)
  unfolding announce
  announce-Leaves [] s u h = h
  announce-Leaves (c ∷ rest) s u h =
      announce-Leaves rest (write_barrier_deferred (room s.gray_list) s u c) u
        (deferred-Leaves s u c _ h (write_barrier_deferred-Deferred s u c (room s.gray_list)))

  close_upvalue-Leaves : (s : Collector) (u : ℕ) → Leaves p s → Leaves p (close_upvalue room s u)
  unfolding close_upvalue children
  close_upvalue-Leaves s u h = elim (Bool-cases (s.memory u).is_open) [
    | inl e ↦ rw e (announce-Leaves (children (s.memory u)) s u h)
    | inr e ↦ rw e h
  ]

  close_upvalues-Leaves :
      (us : List ℕ) (s : Collector) → Leaves p s → Leaves p (close_upvalues room s us)
  unfolding close_upvalues
  close_upvalues-Leaves [] s h = h
  close_upvalues-Leaves (u ∷ rest) s h =
      close_upvalues-Leaves rest (close_upvalue room s u) (close_upvalue-Leaves s u h)

  hook-Leaves : (s : Collector) (hook : Option ℕ) → Leaves p s → Leaves p (remove_hook s hook)
  unfolding remove_hook remove_root
  hook-Leaves s none h = h
  hook-Leaves s (some a) h = h

  pub destroy_object-Leaves :
      (s : Collector) (a : ℕ) → Leaves p s → Leaves p (destroy_object room s a)
  unfolding destroy_object release_bytes forget_object
  destroy_object-Leaves s a h = elim (Bool-cases (is_thread (s.memory a).type_)) [
    | inl e ↦ rw e (
        hook-Leaves _ (s.memory a).debug_hook (
          close_upvalues-Leaves (s.memory a).open_upvalues (release_bytes (forget_object s a) a) h))
    | inr e ↦ rw e h
  ]
