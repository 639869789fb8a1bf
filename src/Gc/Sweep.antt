-- ===== src/Gc/Sweep.antt =====
-- Sweeping (src/gc/gc_sweep.cpp), and what the destruction of an object does to others
-- (src/gc/garbage_collector.cpp, src/core/upvalue.cpp, src/vm/state/lua_state.cpp). The string pool
-- and the memory itself are outside the model. `room` tells of a gray list whether its vector has
-- capacity for one more entry.
use lua.Prelude.{
  ℕ, suc, ◌+◌, Bool, false, not, ◌&&◌, List, [], ◌∷◌, Option, none, some, if◌then◌else◌,
}
use lua.Gc.Heap.{
  GcObjectType, Object, Collector, white, is_white, is_thread, is_upval, update, set_color,
  children,
}
use lua.Gc.Objects.{write_barrier_deferred, forget_object, release_bytes, remove_root}

-- The barrier for the value of an upvalue, which `children` holds if it is an object
unfoldable pub announce : (List ℕ → Bool) → Collector → ℕ → List ℕ → Collector
announce room s owner [] = s
announce room s owner (c ∷ rest) =
    announce room (write_barrier_deferred (room s.gray_list) s owner c) owner rest

-- `Upvalue::close`: the value that the upvalue reads stays the same.
unfoldable pub close_upvalue : (List ℕ → Bool) → Collector → ℕ → Collector
close_upvalue room s u =
    let t = announce room s u (children (s.memory u)) in
    if (s.memory u).is_open
    then record t { memory = update t.memory u (record (t.memory u) { is_open = false }) }
    else s

-- `closeUpvalues(0)`
unfoldable pub close_upvalues : (List ℕ → Bool) → Collector → List ℕ → Collector
close_upvalues room s [] = s
close_upvalues room s (u ∷ rest) = close_upvalues room (close_upvalue room s u) rest

unfoldable pub remove_hook : Collector → Option ℕ → Collector
remove_hook s none = s
remove_hook s (some hook) = remove_root s hook

-- The destructor of a thread closes the upvalues of its state and lets its hook go.
unfoldable pub destroy_object : (List ℕ → Bool) → Collector → ℕ → Collector
destroy_object room s a =
    let o = s.memory a in
    let released = release_bytes (forget_object s a) a in
    if is_thread o.type_
    then remove_hook (close_upvalues room released o.open_upvalues) o.debug_hook
    else released

abbrev pub is_open_upvalue : Object → Bool
is_open_upvalue o = is_upval o.type_ && o.is_open

-- What a pass does with an object: leave it, keep it and whiten it, or free it.
pub data Fate : Type 0 where
  passed kept freed : Fate

unfoldable pub fate : (GcObjectType → Bool) → Object → Fate
fate should_sweep o =
    if not (should_sweep o.type_)
    then passed
    else if is_white o.color && not o.fixed
    then (if is_open_upvalue o then passed else freed)
    else kept

unfoldable pub act : (List ℕ → Bool) → Fate → Collector → ℕ → Collector
act room passed s a = s
act room kept s a = record s { memory = set_color s.memory a white }
act room freed s a = destroy_object room s a

abbrev pub stay : Fate → ℕ → List ℕ → List ℕ
stay passed a rest = a ∷ rest
stay kept a rest = a ∷ rest
stay freed a rest = rest

abbrev pub count_freed : Fate → ℕ → ℕ
count_freed passed n = n
count_freed kept n = n
count_freed freed n = suc n

-- One pass over the list: the new state, the list that is left and the number of freed objects
unfoldable pub sweep_matching :
    (List ℕ → Bool) → (GcObjectType → Bool) → List ℕ → Collector → Collector × List ℕ × ℕ
sweep_matching room should_sweep [] s = (s, [], 0)
sweep_matching room should_sweep (a ∷ rest) s =
    let f = fate should_sweep (s.memory a) in
    let (t, left, collected) = sweep_matching room should_sweep rest (act room f s a) in
    (t, stay f a left, count_freed f collected)

abbrev pub is_other : GcObjectType → Bool
is_other t = not (is_thread t)

-- The threads first, then the other objects; the number of freed objects comes second.
unfoldable pub sweep : (List ℕ → Bool) → Collector → Collector × ℕ
sweep room s =
    let (t, left, n) = sweep_matching room is_thread s.all_objects s in
    let (u, left', m) = sweep_matching room is_other left (record t { all_objects = left }) in
    (record u { all_objects = left' }, n + m)
