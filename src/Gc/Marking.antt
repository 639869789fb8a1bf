-- ===== src/Gc/Marking.antt =====
-- Marking (src/gc/gc_mark.cpp, gc_weak.cpp, gc_finalize.cpp, garbage_collector.cpp). An allocation
-- that fails is not modelled.
use lua.Prelude.{
  ℕ, zero, suc, ◌-◌, Bool, false, ◌&&◌, List, [], ◌∷◌, ◌++◌, if◌then◌else◌, length, get_or, set,
  take,
}
use lua.Table.Nodes.{usize_max}
use lua.Gc.Heap.{
  Object, Store, Collector, white, gray, black, is_white, is_black, is_table, is_weak, update,
  set_color, color_of, children,
}

unfoldable pub mark_object : Collector → ℕ → Collector
mark_object s a =
    if is_white (color_of s a)
    then record s { gray_list = s.gray_list ++ a ∷ []; memory = set_color s.memory a gray }
    else s

unfoldable pub mark_objects : Collector → List ℕ → Collector
mark_objects s [] = s
mark_objects s (a ∷ rest) = mark_objects (mark_object s a) rest

-- The part of `markTable` before the contents: the bits of the weak mode, and the list of tables
-- to clear.
unfoldable pub mark_table : Collector → ℕ → Collector
mark_table s a =
    let mode = (s.memory a).mode in
    record s {
      memory = update s.memory a (record (s.memory a) { weak_bits = mode });
      weak_tables = if is_weak mode then s.weak_tables ++ a ∷ [] else s.weak_tables;
    }

-- The virtual `mark` of an object
unfoldable pub mark_children : Collector → ℕ → Collector
mark_children s a =
    mark_objects (if is_table (s.memory a).type_ then mark_table s a else s) (children (s.memory a))

-- The last entry takes the place of the one at the index.
unfoldable pub drop_at : List ℕ → ℕ → List ℕ
drop_at xs i = take (length xs - 1) (set xs i (get_or xs (length xs - 1) 0))

-- One round of the loop of `propagateMarks`
unfoldable pub propagate_one : Collector → Collector
propagate_one s =
    let object_index = length s.gray_list - 1 in
    let obj = get_or s.gray_list object_index 0 in
    let t = mark_children (record s { memory = set_color s.memory obj black }) obj in
    record t { gray_list = drop_at t.gray_list object_index }

-- The new state, and the number of objects processed
unfoldable pub propagate_marks : ℕ → Collector → Collector × ℕ
propagate_marks zero s = (s, 0)
propagate_marks (suc budget) s = elim s.gray_list [
  | [] ↦ (s, 0)
  | _ ∷ _ ↦ let (t, processed) = propagate_marks budget (propagate_one s) in (t, suc processed)
]

abbrev pub propagate_all : Collector → Collector
propagate_all s = (propagate_marks usize_max s).0

-- The preserved bits are those of fixed and of finalized objects.
abbrev pub reset_object : Object → Object
reset_object o = record o { weak_bits = record { keys = false; values = false }; color = white }

unfoldable pub reset_objects : Store → List ℕ → Store
reset_objects m [] = m
reset_objects m (a ∷ rest) = reset_objects (update m a (reset_object (m a))) rest

-- `shared` holds what `GlobalState::markRoots` marks.
unfoldable pub mark_roots : List ℕ → Collector → Collector
mark_roots shared s =
    mark_objects (mark_objects (mark_objects s s.roots) shared) s.pending_finalizers

abbrev pub whiten : Collector → Collector
whiten s = record s {
  memory = reset_objects s.memory s.all_objects;
  gray_list = [];
  weak_tables = [];
}

unfoldable pub mark : List ℕ → Collector → Collector
mark shared s = propagate_all (mark_roots shared (whiten s))

-- A barrier acts where a black owner gets a white child.
abbrev pub needs_barrier : Collector → ℕ → ℕ → Bool
needs_barrier s owner child =
    ((s.memory owner).owned && (s.memory child).owned)
    && (is_black (color_of s owner) && is_white (color_of s child))

unfoldable pub write_barrier : Collector → ℕ → ℕ → Collector
write_barrier s owner child =
    if needs_barrier s owner child then propagate_all (mark_object s child) else s

unfoldable pub write_root_barrier : Collector → ℕ → Collector
write_root_barrier s child =
    if (s.memory child).owned && is_white (color_of s child)
    then propagate_all (mark_object s child)
    else s
