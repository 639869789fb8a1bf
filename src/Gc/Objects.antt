-- ===== src/Gc/Objects.antt =====
-- Objects that enter and leave the collector, roots, and the barrier that does not throw
-- (src/gc/garbage_collector.cpp, gc_mark.cpp). Memory is returned outside the model.
use lua.Prelude.{
  ℕ, ◌+◌, ◌-◌, Bool, true, false, not, ◌&&◌, ◌||◌, List, [], ◌∷◌, ◌++◌, Option, none, some, ltb,
  ◌==◌, if◌then◌else◌, length,
}
use lua.Gc.Accounting.{add_debt, subtract_debt, add_live_bytes, subtract_live_bytes}
use lua.Gc.Heap.{
  Collector, white, gray, black, pause, is_table, is_userdata, is_pause, is_sweep, update,
  set_color,
}
use lua.Gc.Marking.{mark_children, propagate_all, needs_barrier, write_root_barrier}

unfoldable pub reset_incremental_cycle : Collector → Collector
reset_incremental_cycle s = record s {
  incremental_phase = pause;
  incremental_sweep_current = [];
  incremental_sweep_previous = none;
  incremental_collected = 0;
  step_countdown = 0;
  gray_list = [];
  weak_tables = [];
}

-- `std::find` on a vector of pointers
abbrev pub contains : List ℕ → ℕ → Bool
contains [] a = false
contains (x ∷ xs) a = (x == a) || contains xs a

-- `std::remove` and `erase`
abbrev pub erase_all : List ℕ → ℕ → List ℕ
erase_all [] a = []
erase_all (x ∷ xs) a = if x == a then erase_all xs a else x ∷ erase_all xs a

-- `erase` of the first entry found
abbrev pub erase_first : List ℕ → ℕ → List ℕ
erase_first [] a = []
erase_first (x ∷ xs) a = if x == a then xs else x ∷ erase_first xs a

abbrev is_none : Option ℕ → Bool
is_none none = true
is_none (some _) = false

-- The part of `registerObject` before the marking of the new object
unfoldable pub link_object : Collector → ℕ → Collector
link_object s a =
    let o = s.memory a in
    record s {
      memory = update s.memory a (record o {
        color = if is_pause s.incremental_phase then white else black;
        owned = true;
        accounted_size = o.size;
      });
      all_objects = a ∷ s.all_objects;
      incremental_sweep_previous =
          if is_sweep s.incremental_phase && is_none s.incremental_sweep_previous
          then some a
          else s.incremental_sweep_previous;
      object_count = s.object_count + 1;
      total_memory = add_live_bytes s.total_memory o.size;
      gc_debt_bytes = add_debt s.gc_debt_bytes o.size;
    }

unfoldable pub register_object : Collector → ℕ → Collector
register_object s a =
    let linked = link_object s a in
    let scanned = propagate_all (mark_children linked a) in
    if (s.memory a).owned
    then s
    else if is_pause s.incremental_phase
    then linked
    else if is_sweep scanned.incremental_phase
        && ltb (length s.weak_tables) (length scanned.weak_tables)
    then reset_incremental_cycle scanned
    else scanned

-- What `unregisterObject` and `destroyObject` drop beside the list of objects.
unfoldable pub forget_object : Collector → ℕ → Collector
forget_object s a =
    let kind = (s.memory a).type_ in
    record s {
      roots = erase_all s.roots a;
      gray_list = erase_all s.gray_list a;
      weak_tables = if is_table kind then erase_all s.weak_tables a else s.weak_tables;
      pending_finalizers =
          if is_userdata kind then erase_all s.pending_finalizers a else s.pending_finalizers;
    }

unfoldable pub release_bytes : Collector → ℕ → Collector
release_bytes s a =
    let o = s.memory a in
    record s {
      memory = update s.memory a (record o { accounted_size = 0; owned = false });
      object_count = if ltb 0 s.object_count then s.object_count - 1 else s.object_count;
      total_memory = subtract_live_bytes s.total_memory o.accounted_size;
      gc_debt_bytes = subtract_debt s.gc_debt_bytes o.accounted_size;
    }

-- What is ahead of the sweep once an object is unlinked: the object stays the cursor if it is, and
-- has no successor then.
abbrev pub unlink_cursor : List ℕ → ℕ → List ℕ
unlink_cursor [] a = []
unlink_cursor (x ∷ xs) a = if x == a then a ∷ [] else x ∷ erase_first xs a

unfoldable pub unregister_object : Collector → ℕ → Collector
unregister_object s a =
    let removed = contains s.all_objects a in
    let unlinked =
      release_bytes
        (record s {
          all_objects = erase_first s.all_objects a;
          incremental_sweep_current = unlink_cursor s.incremental_sweep_current a;
        })
        a in
    if removed
    then forget_object unlinked a
    else if (s.memory a).owned
    then forget_object s a
    else s

unfoldable pub account_object_size_change : Collector → ℕ → Collector
account_object_size_change s a =
    let o = s.memory a in
    let previous = o.accounted_size in
    let accounted = update s.memory a (record o { accounted_size = o.size }) in
    if not o.owned
    then s
    else if ltb previous o.size
    then record s {
      memory = accounted;
      total_memory = add_live_bytes s.total_memory (o.size - previous);
      gc_debt_bytes = add_debt s.gc_debt_bytes (o.size - previous);
    }
    else if ltb o.size previous
    then record s {
      memory = accounted;
      total_memory = subtract_live_bytes s.total_memory (previous - o.size);
      gc_debt_bytes = subtract_debt s.gc_debt_bytes (previous - o.size);
    }
    else record s { memory = accounted }

abbrev pub is_root : Collector → ℕ → Bool
is_root s a = contains s.roots a

unfoldable pub add_root : Collector → ℕ → Collector
add_root s a =
    let rooted = record s { roots = s.roots ++ a ∷ [] } in
    if is_root s a
    then s
    else if is_pause s.incremental_phase
    then rooted
    else write_root_barrier rooted a

unfoldable pub remove_root : Collector → ℕ → Collector
remove_root s a = record s { roots = erase_first s.roots a }

-- `room`: the gray list has capacity for one more entry.
unfoldable pub write_barrier_deferred : Bool → Collector → ℕ → ℕ → Collector
write_barrier_deferred room s owner child =
    if not (needs_barrier s owner child)
    then s
    else if is_sweep s.incremental_phase
    then reset_incremental_cycle s
    else if not room
    then reset_incremental_cycle s
    else record s { gray_list = s.gray_list ++ child ∷ []; memory = set_color s.memory child gray }
