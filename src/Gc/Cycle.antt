-- ===== src/Gc/Cycle.antt =====
-- An incremental cycle ends (src/gc/garbage_collector.cpp).
use mathlib.Core.List.{Memᴰ}
use lua.Prelude.{
  ℕ, suc, ◌+◌, ◌*◌, ◌≤◌, ◌≡◌, Bool, List, [], ap, ◌∙◌, sym, subst, arith, length, none,
}
use lua.Gc.Heap.{Collector, pause}
use lua.Gc.Marking.{mark_roots, whiten}
use lua.Gc.Incremental.{begin_incremental_mark, step_in}
use lua.Gc.Shades.{Shades}
use lua.Gc.Live.{mark_roots-Shades, mark_roots_lem, root_set, reset-children}
use lua.Gc.Marked.{WellFormed}
use lua.Gc.Work.{Within, work, whites-length, mark_objects-work}
use lua.Gc.Ranks.{rank}
use lua.Gc.Progress.{next_state, steps, comes_to_rest}

module _ (shared : List ℕ) (s : Collector) (wf : WellFormed shared s) where
  -- The state that the roots are marked in
  abbrev blank : Collector
  blank = record (whiten s) {
    incremental_collected = 0;
    incremental_sweep_current = [];
    incremental_sweep_previous = none;
  }

  begun-Within : Within (begin_incremental_mark shared s)
  unfolding begin_incremental_mark
  begun-Within = record {
    inside = λ a b o i. back b (
        wf.pointed a b (forth a o) (
          subst (λ (xs : List ℕ). Memᴰ b xs)
            (f.same_children a ∙ reset-children s.memory s.all_objects a) i));
    grays = λ a i.
        let (ns, e, from) = f.appended in
        back a (wf.rooted a (from a (subst (λ (xs : List ℕ). Memᴰ a xs) e i)));
  }
    where
      f : Shades (root_set shared blank) blank (mark_roots shared blank)
      f = mark_roots-Shades shared blank

      back : (b : ℕ) → Memᴰ b s.all_objects → Memᴰ b (mark_roots shared blank).all_objects
      back b o = subst (λ (xs : List ℕ). Memᴰ b xs) (sym f.same_objects) o

      forth : (b : ℕ) → Memᴰ b (mark_roots shared blank).all_objects → Memᴰ b s.all_objects
      forth b o = subst (λ (xs : List ℕ). Memᴰ b xs) f.same_objects o

  begun-rank : rank (begin_incremental_mark shared s) ≤ 2 * length s.all_objects + 4
  unfolding begin_incremental_mark
  begun-rank =
      let less = mark_objects-work blank (root_set shared s) wf.rooted in
      let small = whites-length blank.memory s.all_objects in
      let same = ap work (mark_roots_lem shared blank) in
      let size = ap (length {A = ℕ}) (mark_roots-Shades shared blank).same_objects in
      omega (arith, less, small, same, size)

-- From rest, on a well-formed heap, the collector comes to rest again within two steps for each
-- object and five more, whatever the budget of a step, the upvalues that destructors close and the
-- finalizers that run at the end.
pub incremental_cycle_ends :
    (room : List ℕ → Bool) (run_finalizers : Collector → Collector) (shared : List ℕ)
    (with_state : Bool) (budget : ℕ) (s : Collector)
    → s.incremental_phase ≡ pause
    → WellFormed shared s
    → (k : ℕ) × (1 ≤ k)
      × (k ≤ 2 * length s.all_objects + 5)
      × ((steps room run_finalizers shared with_state budget k s).incremental_phase ≡ pause)
unfolding step_in
incremental_cycle_ends room run_finalizers shared with_state budget s e wf =
    let begun = begin_incremental_mark shared s in
    let (k, few, rest) =
      comes_to_rest room run_finalizers shared with_state budget (2 * length s.all_objects + 4)
        begun (λ p. begun-Within shared s wf) (begun-rank shared s wf) in
    let first : next_state room run_finalizers shared with_state budget s ≡ begun =
      ap (λ p. (step_in room run_finalizers shared with_state budget p s).0) e in
    (
      suc k,
      omega arith,
      omega (arith, few),
      ap (λ u. (steps room run_finalizers shared with_state budget k u).incremental_phase) first
          ∙ rest,
    )
