-- ===== src/Gc/Weak.antt =====
-- Weak tables and finalizers (src/gc/gc_weak.cpp, gc_finalize.cpp, src/core/table.cpp).
use lua.Prelude.{ℕ, Bool, true, false, not, ◌&&◌, ◌||◌, List, [], ◌∷◌, ◌++◌, if◌then◌else◌}
use lua.Gc.Heap.{
  Cell, no_object, text, object, Reference, strong, element, entry, WeakMode, Object, Collector,
  is_white, is_userdata, is_weak, update, color_of, children,
}
use lua.Gc.Marking.{mark_object, mark_objects}
use lua.Gc.Objects.{contains, account_object_size_change}

abbrev pub is_object_dead : Collector → ℕ → Bool
is_object_dead s a = not (s.memory a).fixed && is_white (color_of s a)

abbrev pub is_value_dead : Collector → Cell → Bool
is_value_dead s no_object = false
is_value_dead s (text a) = false
is_value_dead s (object a) = is_object_dead s a

-- A userdata that waits for its finalizer is dead as a weak value.
abbrev pub is_weak_value_dead : Collector → Cell → Bool
is_weak_value_dead s no_object = false
is_weak_value_dead s (text a) = false
is_weak_value_dead s (object a) =
    (is_userdata (s.memory a).type_ && contains s.pending_finalizers a) || is_object_dead s a

-- What is left of a reference: a dead element is set to nil, and a node with a dead part is gone.
abbrev pub remaining_reference : Collector → WeakMode → Reference → List Reference
remaining_reference s w (strong a) = strong a ∷ []
remaining_reference s w (element v) =
    (if w.values && is_weak_value_dead s v then element no_object else element v) ∷ []
remaining_reference s w (entry k v) =
    if (w.keys && is_value_dead s k) || (w.values && is_weak_value_dead s v)
    then []
    else entry k v ∷ []

abbrev pub remaining_references : Collector → WeakMode → List Reference → List Reference
remaining_references s w [] = []
remaining_references s w (r ∷ rs) = remaining_reference s w r ++ remaining_references s w rs

unfoldable pub remove_weak_entries : Collector → ℕ → WeakMode → Collector
remove_weak_entries s a w =
    let o = s.memory a in
    if is_weak w
    then account_object_size_change
        (record s {
          memory =
              update s.memory a (record o { references = remaining_references s w o.references });
        })
        a
    else s

unfoldable pub clear_weak_table : Collector → ℕ → Collector
clear_weak_table s a =
    if is_object_dead s a then s else remove_weak_entries s a (s.memory a).weak_bits

unfoldable pub clear_weak_tables : Collector → List ℕ → Collector
clear_weak_tables s [] = s
clear_weak_tables s (a ∷ rest) = clear_weak_tables (clear_weak_table s a) rest

unfoldable pub clear_weak_table_entries : Collector → Collector
clear_weak_table_entries s = clear_weak_tables s s.weak_tables

-- A table that is not dead is marked again as its mode is now.
unfoldable pub reconcile_table : Collector → ℕ → Collector
reconcile_table s a =
    let o = s.memory a in
    let set_bits = record s { memory = update s.memory a (record o { weak_bits = o.mode }) } in
    if is_object_dead s a then s else mark_objects set_bits (children o)

-- The tables that are alive and still weak stay in the list.
unfoldable pub reconcile_tables : Collector → List ℕ → List ℕ → Collector
reconcile_tables s done [] = record s { weak_tables = done }
reconcile_tables s done (a ∷ rest) =
    let stays = not (is_object_dead s a) && is_weak (s.memory a).mode in
    reconcile_tables (reconcile_table s a) (if stays then done ++ a ∷ [] else done) rest

unfoldable pub reconcile_weak_table_modes : Collector → Collector
reconcile_weak_table_modes s = reconcile_tables s [] s.weak_tables

-- A white userdata with a finalizer that is neither fixed nor finalized
abbrev pub must_finalize : Object → Bool
must_finalize o =
    ((is_userdata o.type_ && is_white o.color) && (not o.fixed && not o.finalized))
    && o.has_finalizer

unfoldable pub prepare_finalizer : Collector → ℕ → Collector
prepare_finalizer s a =
    let queued = record s {
      pending_finalizers = s.pending_finalizers ++ a ∷ [];
      memory = update s.memory a (record (s.memory a) { finalized = true });
    } in
    if must_finalize (s.memory a) then mark_object queued a else s

unfoldable pub prepare_from : Collector → List ℕ → Collector
prepare_from s [] = s
prepare_from s (a ∷ rest) = prepare_from (prepare_finalizer s a) rest

unfoldable pub prepare_finalizers : Collector → Collector
prepare_finalizers s = prepare_from s s.all_objects
