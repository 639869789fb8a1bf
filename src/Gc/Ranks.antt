-- ===== src/Gc/Ranks.antt =====
-- How many steps an incremental cycle has left (src/gc/garbage_collector.cpp).
use lua.Prelude.{ℕ, zero, suc, ◌+◌, ◌≢◌, ◌≤◌, ◌<◌, ◌≡◌, ◌⊎◌, inl, inr, refl, [], ap, arith, length}
use lua.Gc.Heap.{Collector, IncrementalPhase, pause, propagate, atomic, sweep_phase, finalize}
use lua.Gc.Marking.{propagate_marks, propagate_one}
use lua.Gc.Rounds.{propagate_one-Round}
use lua.Gc.Tricolor.{List-cases}
use lua.Gc.Work.{Within, Round-Within, work, propagate_one-work}

propagate_marks-work :
    (budget : ℕ) (s : Collector) → Within s → work (propagate_marks budget s).0 ≤ work s
unfolding propagate_marks
propagate_marks-work zero s h = omega arith
propagate_marks-work (suc budget) s h = elim (List-cases s.gray_list) [
  | inl e ↦ rw (e, propagate_marks) (omega (arith, ap (length {A = ℕ}) e))
  | inr (y, rest, e) ↦
      let (obj, r) = propagate_one-Round s y rest e in
      let less = propagate_one-work s (omega (arith, ap (length {A = ℕ}) e)) h in
      let later =
        propagate_marks-work budget (propagate_one s) (Round-Within obj s (propagate_one s) r h) in
      rw (e, propagate_marks) (omega (arith, less, later, ap (length {A = ℕ}) e))
]

-- With a budget, marking either ends or has done some work.
pub propagate_marks-less :
    (budget : ℕ) (s : Collector)
    → 1 ≤ budget
    → Within s
    → ((propagate_marks budget s).0.gray_list ≡ []) ⊎ (work (propagate_marks budget s).0 < work s)
unfolding propagate_marks
propagate_marks-less zero s b h = absurd (omega arith)
propagate_marks-less (suc budget) s b h = elim (List-cases s.gray_list) [
  | inl e ↦ inl (rw (e, propagate_marks) e)
  | inr (y, rest, e) ↦
      let (obj, r) = propagate_one-Round s y rest e in
      let less = propagate_one-work s (omega (arith, ap (length {A = ℕ}) e)) h in
      let later =
        propagate_marks-work budget (propagate_one s) (Round-Within obj s (propagate_one s) r h) in
      inr (rw (e, propagate_marks) (omega (arith, less, later, ap (length {A = ℕ}) e)))
]

-- The number of steps that are left, at most, before the collector is at rest
abbrev pub rank_at : IncrementalPhase → Collector → ℕ
rank_at pause s = 0
rank_at propagate s = work s + length s.all_objects + 4
rank_at atomic s = length s.all_objects + 3
rank_at sweep_phase s = length s.incremental_sweep_current + 2
rank_at finalize s = 1

abbrev pub rank : Collector → ℕ
rank s = rank_at s.incremental_phase s

pub rank-eq :
    (s : Collector) (p : IncrementalPhase) → s.incremental_phase ≡ p → rank s ≡ rank_at p s
rank-eq s p e = ap (λ (q : IncrementalPhase). rank_at q s) e

-- While the collector marks, its pointers stay within the heap.
abbrev pub Marks : Collector → Type 0
Marks s = s.incremental_phase ≡ propagate → Within s

pub phase-cases :
    (p : IncrementalPhase)
    → (p ≡ pause) ⊎ ((p ≡ propagate) ⊎ ((p ≡ atomic) ⊎ ((p ≡ sweep_phase) ⊎ (p ≡ finalize))))
phase-cases pause = inl refl
phase-cases propagate = inr (inl refl)
phase-cases atomic = inr (inr (inl refl))
phase-cases sweep_phase = inr (inr (inr (inl refl)))
phase-cases finalize = inr (inr (inr (inr refl)))

pub at_rest : (p : IncrementalPhase) → (p ≡ pause) ⊎ (p ≢ pause)
at_rest pause = inl refl
at_rest propagate = inr (λ e. cc)
at_rest atomic = inr (λ e. cc)
at_rest sweep_phase = inr (λ e. cc)
at_rest finalize = inr (λ e. cc)

pub rank_zero : (s : Collector) → rank s ≤ 0 → s.incremental_phase ≡ pause
rank_zero s h = elim (phase-cases s.incremental_phase) [
  | inl e ↦ e
  | inr (inl e) ↦ absurd (omega (arith, rank-eq s propagate e))
  | inr (inr (inl e)) ↦ absurd (omega (arith, rank-eq s atomic e))
  | inr (inr (inr (inl e))) ↦ absurd (omega (arith, rank-eq s sweep_phase e))
  | inr (inr (inr (inr e))) ↦ absurd (omega (arith, rank-eq s finalize e))
]
