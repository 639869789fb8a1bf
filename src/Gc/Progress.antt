-- ===== src/Gc/Progress.antt =====
-- The incremental cycle makes progress and ends (src/gc/garbage_collector.cpp).
use lua.Prelude.{
  ℕ, zero, suc, ◌+◌, ◌-◌, ◌≢◌, if◌then◌else◌, ◌≤◌, ◌<◌, max, ◌≡◌, ◌⊎◌, inl, inr, refl, Bool, List,
  [], ap, ◌∙◌, sym, subst, arith, length,
}
use lua.Gc.Heap.{Collector, IncrementalPhase, pause, propagate, atomic, sweep_phase, finalize}
use lua.Gc.Marking.{propagate_marks}
use lua.Gc.Objects.{reset_incremental_cycle}
use lua.Gc.Incremental.{
  perform_incremental_atomic, SweepLoop, sweep_loop, end_sweep, finish_sweep, sweep_step, step_in,
  end_marking, incremental_step,
}
use lua.Gc.Tricolor.{propagate_rule, List-cases}
use lua.Gc.Work.{Within, Round-Within, work}
use lua.Gc.SweepSteps.{Swept, left, went, sweep_loop-Swept, sweep_loop-shorter}
use lua.Gc.AtomicStep.{atomic-objects}
use lua.Gc.Ranks.{
  propagate_marks-less, rank_at, rank, rank-eq, Marks, phase-cases, at_rest, rank_zero,
}

abbrev settled : SweepLoop → Collector
settled r = if r.left_sweep then r.state else finish_sweep r

not_propagate :
    (s : Collector) (p : IncrementalPhase) → s.incremental_phase ≡ p → p ≢ propagate → Marks s
not_propagate s p e ne h = absurd (ne (sym e ∙ h))

finish_sweep-rank :
    (n : ℕ) (r : SweepLoop)
    → r.state.incremental_phase ≡ sweep_phase
    → length r.state.incremental_sweep_current ≤ n
    → ((rank (finish_sweep r) ≤ 1) ⊎ (1 ≤ n) × (rank (finish_sweep r) ≤ n + 2))
      × Marks (finish_sweep r)
finish_sweep-rank n r p l = elim (List-cases r.state.incremental_sweep_current) [
  | inl e ↦ subst Small (ap (λ xs. end_sweep xs counted) (sym e)) (inl (omega arith), λ h. cc)
  | inr (a, rest, e) ↦
      let more = ap (length {A = ℕ}) e in
      subst Small (ap (λ xs. end_sweep xs counted) (sym e)) (
        inr (omega (arith, more), omega (arith, more, rank-eq counted sweep_phase p)),
        not_propagate counted sweep_phase p (λ h. cc),
      )
]
  where
    counted : Collector
    counted = record r.state { incremental_collected = r.state.incremental_collected + r.collected }

    Small : Collector → Type 0
    Small u = ((rank u ≤ 1) ⊎ (1 ≤ n) × (rank u ≤ n + 2)) × Marks u

settled-rank :
    (n : ℕ) (r : SweepLoop)
    → Swept n r
    → ((rank (settled r) ≤ 1) ⊎ (1 ≤ n) × (rank (settled r) ≤ n + 2)) × Marks (settled r)
settled-rank n r (left e p) =
    rw e (inl (omega (arith, rank-eq r.state pause p)), not_propagate r.state pause p (λ h. cc))
settled-rank n r (went e p l) = rw e (finish_sweep-rank n r p l)

module _ (room : List ℕ → Bool) (run_finalizers : Collector → Collector) (shared : List ℕ)
    (with_state : Bool) (budget : ℕ) where
  abbrev outcome_in : IncrementalPhase → Collector → Collector
  outcome_in p s = (step_in room run_finalizers shared with_state budget p s).0

  abbrev pub next_state : Collector → Collector
  next_state s = (incremental_step room run_finalizers shared with_state budget s).0

  -- A step in a phase lowers the rank of that phase.
  abbrev Lowers : IncrementalPhase → Collector → Type 0
  Lowers p s = (rank (outcome_in p s) < rank_at p s) × Marks (outcome_in p s)

  abbrev Fewer : Collector → Collector → Type 0
  Fewer s u = (rank u < rank_at propagate s) × Marks u

  end_marking-Lowers :
      (s t : Collector)
      → t.incremental_phase ≡ propagate
      → length t.all_objects ≡ length s.all_objects
      → Within t
      → (t.gray_list ≡ []) ⊎ (work t < work s)
      → Fewer s (end_marking t.gray_list t)
  end_marking-Lowers s t phase size within less = elim (List-cases t.gray_list) [
    | inl none_left ↦
        subst (Fewer s) (ap (λ xs. end_marking xs t) (sym none_left)) (omega (arith, size), λ p. cc)
    | inr (y, rest, some_left) ↦ elim less [
      | inl over ↦ let clash = sym over ∙ some_left in cc
      | inr l ↦
          subst (Fewer s) (ap (λ xs. end_marking xs t) (sym some_left))
            (omega (arith, rank-eq t propagate phase, size, l), λ p. within)
    ]
  ]

  propagate-Lowers :
      (s : Collector) → Within s → s.incremental_phase ≡ propagate → Lowers propagate s
  unfolding step_in
  propagate-Lowers s h e =
      let t = (propagate_marks (max 1 budget) s).0 in
      end_marking-Lowers s t
        (propagate_rule (λ u. u.incremental_phase ≡ propagate) (λ obj v u r p. r.same_phase ∙ p)
          (max 1 budget) s e)
        (ap (length {A = ℕ}) (
          propagate_rule (λ u. u.all_objects ≡ s.all_objects) (λ obj v u r p. r.same_objects ∙ p)
            (max 1 budget) s refl))
        (propagate_rule Within Round-Within (max 1 budget) s h)
        (propagate_marks-less (max 1 budget) s (omega arith) h)

  atomic-Lowers : (s : Collector) → Lowers atomic s
  unfolding step_in perform_incremental_atomic
  atomic-Lowers s =
      (omega (arith, ap (length {A = ℕ}) (atomic-objects shared with_state s)), λ p. cc)

  finalize-Lowers : (s : Collector) → Lowers finalize s
  unfolding step_in reset_incremental_cycle
  finalize-Lowers s = (omega arith, λ p. cc)

  sweep-Lowers : (s : Collector) → s.incremental_phase ≡ sweep_phase → Lowers sweep_phase s
  unfolding step_in sweep_step
  sweep-Lowers s e = elim (List-cases s.incremental_sweep_current) [
    | inl over ↦
        let r = sweep_loop room (max 1 budget) s in
        let (small, marks) = settled-rank _ r (sweep_loop-Swept room (max 1 budget) s e) in
        (omega (arith, small, ap (length {A = ℕ}) over), marks)
    | inr (obj, rest, ahead) ↦
        let r = sweep_loop room (max 1 budget) s in
        let again =
          subst (λ b. Swept (length rest) (sweep_loop room b s)) (omega arith)
            (sweep_loop-shorter room (max 1 budget - 1) s obj rest e ahead) in
        let (small, marks) = settled-rank (length rest) r again in
        (omega (arith, small, ap (length {A = ℕ}) ahead), marks)
  ]

  -- A step of a running cycle lowers the rank.
  next_state-Lowers :
      (s : Collector)
      → Marks s
      → s.incremental_phase ≢ pause
      → (rank (next_state s) < rank s) × Marks (next_state s)
  next_state-Lowers s h running = elim (phase-cases s.incremental_phase) [
    | inl e ↦ absurd (running e)
    | inr (inl e) ↦ at propagate e (propagate-Lowers s (h e) e)
    | inr (inr (inl e)) ↦ at atomic e (atomic-Lowers s)
    | inr (inr (inr (inl e))) ↦ at sweep_phase e (sweep-Lowers s e)
    | inr (inr (inr (inr e))) ↦ at finalize e (finalize-Lowers s)
  ]
    where
      at :
          (p : IncrementalPhase)
          → s.incremental_phase ≡ p
          → Lowers p s
          → (rank (next_state s) < rank s) × Marks (next_state s)
      at p e l = subst (λ q. Lowers q s) (sym e) l

  abbrev pub steps : ℕ → Collector → Collector
  steps zero s = s
  steps (suc n) s = steps n (next_state s)

  pub comes_to_rest :
      (n : ℕ) (s : Collector)
      → Marks s
      → rank s ≤ n
      → (k : ℕ) × (k ≤ n) × ((steps k s).incremental_phase ≡ pause)
  comes_to_rest zero s h small = (0, omega arith, rank_zero s small)
  comes_to_rest (suc n) s h small = elim (at_rest s.incremental_phase) [
    | inl e ↦ (0, omega arith, e)
    | inr running ↦
        let (less, h') = next_state-Lowers s h running in
        let (k, few, e) = comes_to_rest n (next_state s) h' (omega (arith, less)) in
        (suc k, omega (arith, few), e)
  ]
