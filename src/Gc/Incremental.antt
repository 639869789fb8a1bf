-- ===== src/Gc/Incremental.antt =====
-- The incremental cycle (src/gc/garbage_collector.cpp). `run_finalizers`, which calls Lua code, is a
-- parameter; `with_state` says whether the caller has a state.
use lua.Prelude.{
  ℕ, zero, suc, ◌+◌, max, Bool, true, false, List, [], ◌∷◌, ◌++◌, Option, none, some, ◌==◌,
  if◌then◌else◌,
}
use lua.Gc.Heap.{
  Collector, IncrementalPhase, white, pause, propagate, atomic, sweep_phase, finalize, is_sweep,
  set_color,
}
use lua.Gc.Marking.{mark_roots, whiten, propagate_marks, propagate_all}
use lua.Gc.Objects.{contains, reset_incremental_cycle}
use lua.Gc.Sweep.{Fate, passed, kept, freed, fate, destroy_object}
use lua.Gc.Weak.{clear_weak_table_entries, reconcile_weak_table_modes, prepare_finalizers}

unfoldable pub begin_incremental_mark : List ℕ → Collector → Collector
begin_incremental_mark shared s =
    record (mark_roots shared (record (whiten s) {
      incremental_collected = 0;
      incremental_sweep_current = [];
      incremental_sweep_previous = none;
    })) { incremental_phase = propagate }

unfoldable pub perform_incremental_atomic : List ℕ → Bool → Collector → Collector
perform_incremental_atomic shared with_state s =
    let marked = propagate_all (mark_roots shared s) in
    let reconciled = propagate_all (reconcile_weak_table_modes marked) in
    let prepared =
      if with_state then propagate_all (prepare_finalizers reconciled) else reconciled in
    let cleared = clear_weak_table_entries prepared in
    record cleared {
      incremental_sweep_current = cleared.all_objects;
      incremental_sweep_previous = none;
      incremental_phase = sweep_phase;
    }

-- The list up to an entry
abbrev pub up_to : ℕ → List ℕ → List ℕ
up_to p [] = []
up_to p (x ∷ xs) = if x == p then x ∷ [] else x ∷ up_to p xs

-- The list once the predecessor of the cursor points to `next`, which leaves it alone where the
-- predecessor has been unlinked
abbrev pub relink : Option ℕ → List ℕ → List ℕ → List ℕ
relink none next xs = next
relink (some p) next xs = if contains xs p then up_to p xs ++ next else xs

abbrev pub advance : Collector → ℕ → List ℕ → Collector
advance s a next = record s {
  incremental_sweep_previous = some a;
  incremental_sweep_current = next;
}

-- One round of the loop of `sweepStep`, up to the test of the phase
unfoldable pub sweep_one : (List ℕ → Bool) → Fate → Collector → ℕ → List ℕ → Collector
sweep_one room passed s a next = advance s a next
sweep_one room kept s a next = advance (record s { memory = set_color s.memory a white }) a next
sweep_one room freed s a next =
    destroy_object room
      (record s { all_objects = relink s.incremental_sweep_previous next s.all_objects }) a

abbrev pub is_freed : Fate → ℕ
is_freed passed = 0
is_freed kept = 0
is_freed freed = 1

-- The state, the number of freed objects, and whether a destructor has left the sweep
pub record SweepLoop : Type 0 where
  pub state : Collector
  pub collected : ℕ
  pub left_sweep : Bool

unfoldable pub sweep_loop : (List ℕ → Bool) → ℕ → Collector → SweepLoop
sweep_loop room zero s = record { state = s; collected = 0; left_sweep = false }
sweep_loop room (suc budget) s = elim s.incremental_sweep_current [
  | [] ↦ record { state = s; collected = 0; left_sweep = false }
  | obj ∷ next ↦
      let f = fate (λ _. true) (s.memory obj) in
      let t = sweep_one room f s obj next in
      let rest = sweep_loop room budget (record t { incremental_sweep_current = next }) in
      if is_sweep t.incremental_phase
      then record rest { collected = rest.collected + is_freed f }
      else record { state = t; collected = is_freed f; left_sweep = true }
]

-- What follows the loop, by the objects that are ahead
abbrev pub end_sweep : List ℕ → Collector → Collector
end_sweep [] s = record s { weak_tables = []; incremental_phase = finalize }
end_sweep (_ ∷ _) s = s

abbrev pub finish_sweep : SweepLoop → Collector
finish_sweep r =
    end_sweep r.state.incremental_sweep_current
      (record r.state { incremental_collected = r.state.incremental_collected + r.collected })

unfoldable pub sweep_step : (List ℕ → Bool) → ℕ → Collector → Collector × ℕ
sweep_step room budget s =
    let r = sweep_loop room budget s in
    (if r.left_sweep then r.state else finish_sweep r, r.collected)

abbrev pub complete_cycle : Collector → ℕ → Collector
complete_cycle s collected =
    reset_incremental_cycle (record s { last_completed_collected = collected })

-- What follows a mark step, by the gray list that it leaves
abbrev pub end_marking : List ℕ → Collector → Collector
end_marking [] t = record t { incremental_phase = atomic }
end_marking (_ ∷ _) t = t

module _ (room : List ℕ → Bool) (run_finalizers : Collector → Collector) (shared : List ℕ)
    (with_state : Bool) (budget : ℕ) where
  -- The new state, and whether the cycle is finished, by the phase
  unfoldable pub step_in : IncrementalPhase → Collector → Collector × Bool
  step_in pause s = (begin_incremental_mark shared s, false)
  step_in propagate s =
      let t = (propagate_marks (max 1 budget) s).0 in (end_marking t.gray_list t, false)
  step_in atomic s = (perform_incremental_atomic shared with_state s, false)
  step_in sweep_phase s = ((sweep_step room (max 1 budget) s).0, false)
  step_in finalize s =
      (complete_cycle (if with_state then run_finalizers s else s) s.incremental_collected, true)

  abbrev pub incremental_step : Collector → Collector × Bool
  incremental_step s = step_in s.incremental_phase s
