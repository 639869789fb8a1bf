-- ===== src/Tests/Collector.antt =====
-- Runs of the collector.
use mathlib.Core.List.{Memᴰ}
use mathlib.Core.List.Memᴰ
use lua.Prelude.{
  ℕ, subst, sym, ◌≡◌, ◌≢◌, ◌⊎◌, inl, inr, refl, Bool, true, false, List, [], ◌∷◌, none, arith,
  if◌then◌else◌, ◌==◌, ◌≤◌,
}
use lua.Prelude.Int.{pos, negsuc}
use lua.Gc.Heap.{
  is_upval, GcObjectType, string_object, table_object, thread_object, upval_object, GcColor, white,
  gray, black, Reference, strong, element, object, Object, Store, Collector, pause, propagate,
  color_of, children, is_white,
}
use lua.Prelude.{◌+◌, ◌*◌, ◌/◌, ◌^◌, min}
use lua.Prelude.Int.{ltb_ℤ, ◌+ℤ◌, ◌-ℤ◌}
use lua.Table.Nodes.{usize_max}
use lua.Gc.Accounting.{
  isize_max, isize_min, add_debt, subtract_debt, saturated_step_bytes, debt-saturates,
  saturated_step_bytes_lem,
}
use lua.Gc.Objects.{register_object, write_barrier_deferred}
use lua.Gc.Barriers.{assign, barriers, barriers-Tricolor}
use lua.Gc.Register.{register_object-Tricolor, Registered}
use lua.Gc.Deferred.{write_barrier_deferred-Tricolor}
use lua.Gc.Heap.{is_sweep}
use lua.Prelude.{◌||◌, ltb}
use lua.Prelude.Int.{◌≤ℤ◌}
use lua.Gc.Marking.{needs_barrier, write_barrier, mark, propagate_marks, mark_roots, whiten}
use lua.Gc.Sweep.{sweep, is_open_upvalue}
use lua.Gc.Work.{Within, work, propagate_marks_ends}
use lua.Gc.Tricolor.{Tricolor}
use lua.Gc.Live.{Reach}
use lua.Gc.Marked.{WellFormed, mark_reached}
use lua.Gc.Frames.{HasUpvalues}
use lua.Gc.Collected.{mark-sweep}
use lua.Gc.Progress.{steps}
use lua.Gc.Cycle.{incremental_cycle_ends}
use lua.Gc.Passes.{Unrepeated}
use lua.Gc.Heap.{no_object}
use lua.Gc.Weak.{clear_weak_table_entries, is_object_dead}
use lua.Gc.Leftover.{Settled, weakly_held}
use lua.Gc.Cleared.{clear-no_dead}

abbrev plain : GcObjectType → GcColor → List Reference → Object
plain kind c refs = record {
  type_ = kind;
  color = c;
  fixed = false;
  finalized = false;
  weak_bits = record { keys = false; values = false };
  mode = record { keys = false; values = false };
  references = refs;
  has_finalizer = false;
  is_open = false;
  open_upvalues = [];
  debug_hook = none;
  owned = true;
  size = 16;
  accounted_size = 16;
}

-- A table holds a string. A thread and its open upvalue are garbage.
abbrev cells : Store
cells a =
    if a == 1
    then plain table_object white (element (object 2) ∷ [])
    else if a == 2
    then plain string_object white []
    else if a == 4
    then record (plain thread_object white []) { open_upvalues = 5 ∷ [] }
    else record (plain upval_object white (strong 2 ∷ [])) { is_open = true }

abbrev heap : Collector
heap = record {
  memory = cells;
  all_objects = 1 ∷ 2 ∷ 5 ∷ 4 ∷ [];
  roots = 1 ∷ [];
  gray_list = [];
  weak_tables = [];
  pending_finalizers = [];
  incremental_phase = pause;
  incremental_sweep_current = [];
  incremental_sweep_previous = none;
  incremental_collected = 0;
  last_completed_collected = 0;
  step_countdown = 0;
  object_count = 4;
  total_memory = 64;
  gc_debt_bytes = negsuc 1000;
}

abbrev roomy : List ℕ → Bool
roomy xs = true

mark-heap :
    (color_of (mark [] heap) 1 ≡ black)
    × (color_of (mark [] heap) 2 ≡ black)
    × (color_of (mark [] heap) 4 ≡ white)
unfolding mark propagate_marks mark_roots lua.Gc.Marking.mark_objects lua.Gc.Marking.mark_object
    lua.Gc.Marking.reset_objects lua.Gc.Marking.propagate_one lua.Gc.Marking.drop_at
    lua.Gc.Marking.mark_children children lua.Gc.Marking.mark_table
mark-heap = (refl, refl, refl)

-- A marked heap: a black table, and a white thread that has an open upvalue.
abbrev remains : Collector
remains = record heap {
  memory = λ a.
      if a == 4
      then record (plain thread_object white []) { open_upvalues = 5 ∷ [] }
      else if a == 5
      then record (plain upval_object white []) { is_open = true }
      else plain table_object black [];
  all_objects = 5 ∷ 1 ∷ 4 ∷ [];
}

sweep-remains : ((sweep roomy remains).0.all_objects ≡ 1 ∷ []) × ((sweep roomy remains).1 ≡ 2)
unfolding sweep lua.Gc.Sweep.sweep_matching lua.Gc.Sweep.fate lua.Gc.Sweep.act
    lua.Gc.Sweep.destroy_object lua.Gc.Sweep.remove_hook lua.Gc.Sweep.close_upvalues
    lua.Gc.Sweep.close_upvalue lua.Gc.Objects.release_bytes lua.Gc.Objects.forget_object
    lua.Gc.Sweep.announce children
sweep-remains = (refl, refl)

-- What holds of each entry of a list
abbrev All : (ℕ → Type 0) → List ℕ → Type 0
All p [] = Unit
All p (x ∷ xs) = p x × All p xs

for_each : (p : ℕ → Type 0) (xs : List ℕ) → All p xs → (a : ℕ) → Memᴰ a xs → p a
for_each p [] h a i = absurd (Memᴰ.not-nil i)
for_each p (x ∷ xs) h a i = elim (Memᴰ.cases_cons i) [
  | inl e ↦ subst p (sym e) h.0
  | inr j ↦ for_each p xs h.1 a j
]

heap-WellFormed : WellFormed [] heap
unfolding children
heap-WellFormed = record {
  rooted = λ a i. Memᴰ.head (Memᴰ.eq_of_singleton i);
  pointed = λ a b o i.
      for_each (λ x. (y : ℕ) → Memᴰ y (children (cells x)) → Memᴰ y heap.all_objects)
        heap.all_objects
        (
          λ y j. Memᴰ.tail (Memᴰ.head (Memᴰ.eq_of_singleton j)),
          (
            λ y j. absurd (Memᴰ.not-nil j),
            (
              λ y j. Memᴰ.tail (Memᴰ.head (Memᴰ.eq_of_singleton j)),
              (λ y j. absurd (Memᴰ.not-nil j), tt),
            ),
          ),
        )
        a o b i;
}

heap-HasUpvalues : HasUpvalues heap
heap-HasUpvalues a u o i =
    for_each
      (λ x.
        (y : ℕ)
        → Memᴰ y (cells x).open_upvalues
        → (is_upval (cells y).type_ ≡ true) × Memᴰ y heap.all_objects)
      heap.all_objects
      (
        λ y j. absurd (Memᴰ.not-nil j),
        (
          λ y j. absurd (Memᴰ.not-nil j),
          (
            λ y j. absurd (Memᴰ.not-nil j),
            (
              λ y j.
                  let e = Memᴰ.eq_of_singleton j in
                  (rw e refl, Memᴰ.tail (Memᴰ.tail (Memᴰ.head e))),
              tt,
            ),
          ),
        ),
      )
      a o u i

apart : (a : ℕ) (xs : List ℕ) → All (λ x. a ≢ x) xs → ¬ Memᴰ a xs
apart a xs h i = for_each (λ x. a ≢ x) xs h a i refl

heap_once : Unrepeated heap.all_objects
heap_once = (
  apart 1 (2 ∷ 5 ∷ 4 ∷ []) (λ e. omega arith, (λ e. omega arith, (λ e. omega arith, tt))),
  (
    apart 2 (5 ∷ 4 ∷ []) (λ e. omega arith, (λ e. omega arith, tt)),
    (apart 5 (4 ∷ []) (λ e. omega arith, tt), (Memᴰ.not-nil, tt)),
  ),
)

mark-sweep_example :
    Memᴰ 4 (sweep roomy (mark [] heap)).0.all_objects
      × (Reach [] heap 4 ⊎ (((cells 4).fixed ≡ true) ⊎ (is_open_upvalue (cells 4) ≡ true)))
    ⊎ (¬ Memᴰ 4 (sweep roomy (mark [] heap)).0.all_objects)
      × (¬ Reach [] heap 4)
      × ((cells 4).fixed ≡ false)
mark-sweep_example =
    mark-sweep roomy [] heap heap-WellFormed heap-HasUpvalues heap_once (omega arith) 4
      (Memᴰ.tail (Memᴰ.tail (Memᴰ.tail (Memᴰ.head refl))))

mark_reached_example :
    ((mark [] heap).gray_list ≡ [])
    × ((a : ℕ)
        → Memᴰ a heap.all_objects
        → (color_of (mark [] heap) a ≡ black) × Reach [] heap a
          ⊎ (color_of (mark [] heap) a ≡ white) × (¬ Reach [] heap a))
mark_reached_example = mark_reached [] heap heap-WellFormed (omega arith)

heap-Within : Within heap
heap-Within = record { inside = heap-WellFormed.pointed; grays = λ a i. absurd (Memᴰ.not-nil i) }

-- A black table, a white one, and a third one that is new to the collector
abbrev running : Collector
running = record heap {
  memory = λ a.
      if a == 1
      then plain table_object black []
      else if a == 2
      then plain table_object white []
      else record (plain table_object white (strong 2 ∷ [])) { owned = false };
  all_objects = 1 ∷ 2 ∷ [];
  incremental_phase = propagate;
}

running-Tricolor : Tricolor running
unfolding children
running-Tricolor = record {
  listed = λ a o.
      for_each (λ x. color_of running x ≡ gray → Memᴰ x []) (1 ∷ 2 ∷ []) (λ e. cc, (λ e. cc, tt)) a
        o;
  shaded = λ a b o e.
      for_each (λ x. Memᴰ b (children (running.memory x)) → is_white (color_of running b) ≡ false)
        (1 ∷ 2 ∷ []) (λ i. absurd (Memᴰ.not-nil i), (λ i. absurd (Memᴰ.not-nil i), tt)) a o;
}

running-Within : Within running
unfolding children
running-Within = record {
  inside = λ a b o.
      for_each (λ x. Memᴰ b (children (running.memory x)) → Memᴰ b (1 ∷ 2 ∷ [])) (1 ∷ 2 ∷ [])
        (λ i. absurd (Memᴰ.not-nil i), (λ i. absurd (Memᴰ.not-nil i), tt)) a o;
  grays = λ a i. absurd (Memᴰ.not-nil i);
}

running-HasUpvalues : HasUpvalues running
running-HasUpvalues a u o =
    for_each
      (λ x.
        Memᴰ u (running.memory x).open_upvalues
        → (is_upval (running.memory u).type_ ≡ true) × Memᴰ u (1 ∷ 2 ∷ []))
      (1 ∷ 2 ∷ []) (λ i. absurd (Memᴰ.not-nil i), (λ i. absurd (Memᴰ.not-nil i), tt)) a o

-- A gray table that holds a white string
abbrev queued : Collector
queued = record heap {
  memory = λ a.
      if a == 1
      then plain table_object gray (element (object 2) ∷ [])
      else plain string_object white [];
  all_objects = 1 ∷ 2 ∷ [];
  gray_list = 1 ∷ [];
  incremental_phase = propagate;
}

queued-Within : Within queued
unfolding children
queued-Within = record {
  inside = λ a b o.
      for_each (λ x. Memᴰ b (children (queued.memory x)) → Memᴰ b (1 ∷ 2 ∷ [])) (1 ∷ 2 ∷ [])
        (λ i. Memᴰ.tail (Memᴰ.head (Memᴰ.eq_of_singleton i)), (λ i. absurd (Memᴰ.not-nil i), tt)) a
        o;
  grays = λ a i. Memᴰ.head (Memᴰ.eq_of_singleton i);
}

propagate_marks_ends_example :
    ((propagate_marks 5 queued).0.gray_list ≡ []) × ((propagate_marks 5 queued).1 ≤ work queued)
propagate_marks_ends_example = propagate_marks_ends 5 queued queued-Within (omega arith)

barriers-Tricolor_example : Tricolor (assign (barriers running 1 (2 ∷ [])) 1 (strong 2 ∷ []))
unfolding children write_barrier
barriers-Tricolor_example =
    barriers-Tricolor running 1 (2 ∷ []) (strong 2 ∷ []) (Memᴰ.head refl) refl
      (λ b i. rw (Memᴰ.eq_of_singleton i) refl) (λ b i. inr i) running-Tricolor

write_barrier_deferred-Tricolor_example :
    Tricolor (assign (write_barrier_deferred true running 1 2) 1 (strong 2 ∷ []))
      × ((write_barrier_deferred true running 1 2).incremental_phase ≡ running.incremental_phase)
      × ((needs_barrier running 1 2 ≡ false)
          ⊎ (is_sweep running.incremental_phase ≡ false) × (true ≡ true))
    ⊎ ((write_barrier_deferred true running 1 2).incremental_phase ≡ pause)
      × ((write_barrier_deferred true running 1 2).gray_list ≡ [])
      × (needs_barrier running 1 2 ≡ true)
      × ((is_sweep running.incremental_phase ≡ true) ⊎ (true ≡ false))
unfolding children write_barrier_deferred
write_barrier_deferred-Tricolor_example =
    write_barrier_deferred-Tricolor true running 1 2 (strong 2 ∷ []) refl refl
      (λ b i. inr (Memᴰ.eq_of_singleton i)) (Memᴰ.head refl) running-Tricolor

register_object-Tricolor_example :
    ((running.memory 3).owned ≡ true) × (register_object running 3 ≡ running)
    ⊎ Registered running 3 (register_object running 3)
register_object-Tricolor_example = register_object-Tricolor running 3 refl running-Tricolor

debt-saturates_example :
    (add_debt isize_min (2 ^ 63) ≡ (
      if ltb isize_max (2 ^ 63) || ltb_ℤ (pos isize_max) (isize_min +ℤ pos (2 ^ 63))
      then pos isize_max
      else isize_min +ℤ pos (2 ^ 63)))
    × (subtract_debt isize_min (2 ^ 63) ≡ (
        if ltb isize_max (2 ^ 63) || ltb_ℤ (isize_min -ℤ pos (2 ^ 63)) isize_min
        then isize_min
        else isize_min -ℤ pos (2 ^ 63)))
    × ((isize_min ≤ℤ add_debt isize_min (2 ^ 63)) × (add_debt isize_min (2 ^ 63) ≤ℤ pos isize_max))
    × ((isize_min ≤ℤ subtract_debt isize_min (2 ^ 63))
        × (subtract_debt isize_min (2 ^ 63) ≤ℤ pos isize_max))
debt-saturates_example = debt-saturates isize_min (2 ^ 63) (omega arith) (omega arith)

saturated_step_bytes_lem_example : saturated_step_bytes 250 ≡ min (250 * 1024 / 100) usize_max
saturated_step_bytes_lem_example = saturated_step_bytes_lem 250

incremental_cycle_ends_example :
    (k : ℕ) × (1 ≤ k)
    × (k ≤ 2 * 4 + 5)
    × ((steps roomy (λ s. s) [] true 2 k heap).incremental_phase ≡ pause)
incremental_cycle_ends_example =
    incremental_cycle_ends roomy (λ s. s) [] true 2 heap refl heap-WellFormed

-- A weak table with a dead value and one that is alive
abbrev half_dead : Collector
half_dead = record heap {
  memory = λ a.
      if a == 1
      then record (plain table_object black (element (object 2) ∷ element (object 3) ∷ [])) {
        weak_bits = record { keys = false; values = true };
        mode = record { keys = false; values = true };
      }
      else if a == 2
      then plain table_object white []
      else plain table_object black [];
  all_objects = 1 ∷ 2 ∷ 3 ∷ [];
  weak_tables = 1 ∷ [];
}

clear-half_dead :
    ((clear_weak_table_entries half_dead).memory 1).references
    ≡ element no_object ∷ element (object 3) ∷ []
unfolding clear_weak_table_entries lua.Gc.Weak.clear_weak_tables lua.Gc.Weak.clear_weak_table
    lua.Gc.Weak.remove_weak_entries lua.Gc.Objects.account_object_size_change
clear-half_dead = refl

clear-no_dead_example :
    ((r : Reference)
      → Memᴰ r ((clear_weak_table_entries half_dead).memory 1).references
      → (b : ℕ) → Memᴰ b (weakly_held (half_dead.memory 1).weak_bits r)
      → is_object_dead (clear_weak_table_entries half_dead) b ≡ false)
    × ((r : Reference)
        → Settled half_dead (half_dead.memory 1).weak_bits r
        → Memᴰ r (half_dead.memory 1).references
        → Memᴰ r ((clear_weak_table_entries half_dead).memory 1).references)
clear-no_dead_example = clear-no_dead half_dead 1 (Memᴰ.head refl) refl
