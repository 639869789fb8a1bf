-- ===== src/Gc/AtomicStep.antt =====
-- The atomic step of the cycle keeps the list of objects (src/gc/garbage_collector.cpp).
use lua.Prelude.{ℕ, ◌≡◌, inl, inr, refl, Bool, List, [], ◌∷◌, ◌∙◌, Bool-cases, ltb}
use lua.Table.Nodes.{usize_max}
use lua.Gc.Heap.{Collector, WeakMode, is_weak, children}
use lua.Gc.Marking.{mark_roots, propagate_all}
use lua.Gc.Objects.{account_object_size_change}
use lua.Gc.Weak.{
  clear_weak_table_entries, clear_weak_tables, clear_weak_table, reconcile_table, prepare_finalizer,
  remove_weak_entries, reconcile_weak_table_modes, reconcile_tables, prepare_finalizers,
  prepare_from, is_object_dead, must_finalize,
}
use lua.Gc.Incremental.{perform_incremental_atomic}
use lua.Gc.Shades.{mark_object-Shades, mark_objects-Shades}
use lua.Gc.Tricolor.{propagate_rule}
use lua.Gc.Live.{mark_roots-Shades}

propagate_all-objects : (s : Collector) → (propagate_all s).all_objects ≡ s.all_objects
propagate_all-objects s =
    propagate_rule (λ t. t.all_objects ≡ s.all_objects) (λ obj t u r e. r.same_objects ∙ e)
      usize_max s refl

mark_roots-objects :
    (shared : List ℕ) (s : Collector) → (mark_roots shared s).all_objects ≡ s.all_objects
mark_roots-objects shared s = (mark_roots-Shades shared s).same_objects

account-objects :
    (s : Collector) (a : ℕ) → (account_object_size_change s a).all_objects ≡ s.all_objects
unfolding account_object_size_change
account-objects s a = elim (Bool-cases (s.memory a).owned) [
  | inr e ↦ rw e refl
  | inl e ↦ elim (Bool-cases (ltb (s.memory a).accounted_size (s.memory a).size)) [
    | inl e' ↦ rw (e, e') refl
    | inr e' ↦ elim (Bool-cases (ltb (s.memory a).size (s.memory a).accounted_size)) [
      | inl e'' ↦ rw (e, e', e'') refl
      | inr e'' ↦ rw (e, e', e'') refl
    ]
  ]
]

remove-objects :
    (s : Collector) (a : ℕ) (w : WeakMode) → (remove_weak_entries s a w).all_objects ≡ s.all_objects
unfolding remove_weak_entries
remove-objects s a w = elim (Bool-cases (is_weak w)) [
  | inl e ↦ rw e (account-objects _ a)
  | inr e ↦ rw e refl
]

clear_weak_table-objects :
    (s : Collector) (a : ℕ) → (clear_weak_table s a).all_objects ≡ s.all_objects
unfolding clear_weak_table
clear_weak_table-objects s a = elim (Bool-cases (is_object_dead s a)) [
  | inl e ↦ rw e refl
  | inr e ↦ rw e (remove-objects s a (s.memory a).weak_bits)
]

clear-objects : (xs : List ℕ) (s : Collector) → (clear_weak_tables s xs).all_objects ≡ s.all_objects
unfolding clear_weak_tables
clear-objects [] s = refl
clear-objects (a ∷ rest) s =
    clear-objects rest (clear_weak_table s a) ∙ clear_weak_table-objects s a

reconcile_table-objects :
    (s : Collector) (a : ℕ) → (reconcile_table s a).all_objects ≡ s.all_objects
unfolding reconcile_table
reconcile_table-objects s a = elim (Bool-cases (is_object_dead s a)) [
  | inl e ↦ rw e refl
  | inr e ↦ rw e ((mark_objects-Shades _ (children (s.memory a))).same_objects)
]

reconcile-objects :
    (xs done : List ℕ) (s : Collector) → (reconcile_tables s done xs).all_objects ≡ s.all_objects
unfolding reconcile_tables
reconcile-objects [] done s = refl
reconcile-objects (a ∷ rest) done s =
    reconcile-objects rest _ (reconcile_table s a) ∙ reconcile_table-objects s a

prepare_finalizer-objects :
    (s : Collector) (a : ℕ) → (prepare_finalizer s a).all_objects ≡ s.all_objects
unfolding prepare_finalizer
prepare_finalizer-objects s a = elim (Bool-cases (must_finalize (s.memory a))) [
  | inl e ↦ rw e ((mark_object-Shades _ a).same_objects)
  | inr e ↦ rw e refl
]

prepare-objects : (xs : List ℕ) (s : Collector) → (prepare_from s xs).all_objects ≡ s.all_objects
unfolding prepare_from
prepare-objects [] s = refl
prepare-objects (a ∷ rest) s =
    prepare-objects rest (prepare_finalizer s a) ∙ prepare_finalizer-objects s a

-- The atomic step takes the whole list as what is ahead of the sweep.
pub atomic-objects :
    (shared : List ℕ) (with_state : Bool) (s : Collector)
    → (perform_incremental_atomic shared with_state s).incremental_sweep_current ≡ s.all_objects
unfolding perform_incremental_atomic clear_weak_table_entries reconcile_weak_table_modes
    prepare_finalizers
atomic-objects shared with_state s =
    let marked = propagate_all (mark_roots shared s) in
    let one = propagate_all-objects (mark_roots shared s) ∙ mark_roots-objects shared s in
    let reconciled = propagate_all (reconcile_weak_table_modes marked) in
    let two =
      propagate_all-objects (reconcile_weak_table_modes marked)
      ∙ reconcile-objects marked.weak_tables [] marked
      ∙ one in
    elim (Bool-cases with_state) [
      | inl e ↦ rw e (
          clear-objects _ _
          ∙ propagate_all-objects (prepare_finalizers reconciled)
          ∙ prepare-objects reconciled.all_objects reconciled
          ∙ two)
      | inr e ↦ rw e (clear-objects _ _ ∙ two)
    ]
