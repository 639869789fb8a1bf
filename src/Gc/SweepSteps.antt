-- ===== src/Gc/SweepSteps.antt =====
-- A step of the incremental sweep (src/gc/garbage_collector.cpp).
use lua.Prelude.{
  ℕ, zero, suc, ◌≤◌, ◌≡◌, inl, inr, refl, Bool, true, false, List, ◌∷◌, ap, Bool-cases, arith,
  length,
}
use lua.Gc.Heap.{
  Collector, IncrementalPhase, pause, propagate, atomic, sweep_phase, finalize, is_sweep,
}
use lua.Gc.Sweep.{Fate, passed, kept, freed, fate}
use lua.Gc.Incremental.{sweep_one, SweepLoop, sweep_loop}
use lua.Gc.Tricolor.{List-cases}
use lua.Gc.Leaving.{Leaves, destroy_object-Leaves}

-- What the loop of a sweep step comes to: it has left the sweep, or at most `n` objects are ahead.
pub data Swept (n : ℕ) (r : SweepLoop) : Type 0 where
  left : r.left_sweep ≡ true → r.state.incremental_phase ≡ pause → Swept n r
  went :
      r.left_sweep ≡ false
      → r.state.incremental_phase ≡ sweep_phase
      → length r.state.incremental_sweep_current ≤ n
      → Swept n r

is_sweep-eq : (p : IncrementalPhase) → is_sweep p ≡ true → p ≡ sweep_phase
is_sweep-eq sweep_phase e = refl
is_sweep-eq pause e = cc
is_sweep-eq propagate e = cc
is_sweep-eq atomic e = cc
is_sweep-eq finalize e = cc

sweep_one-Leaves :
    (room : List ℕ → Bool) (f : Fate) (s : Collector) (a : ℕ) (next : List ℕ)
    → Leaves sweep_phase s
    → Leaves sweep_phase (sweep_one room f s a next)
unfolding sweep_one
sweep_one-Leaves room passed s a next h = h
sweep_one-Leaves room kept s a next h = h
sweep_one-Leaves room freed s a next h = destroy_object-Leaves room sweep_phase _ a h

recount : (n c : ℕ) (r : SweepLoop) → Swept n r → Swept n (record r { collected = c })
recount n c r (left e p) = left e p
recount n c r (went e p l) = went e p l

weaken : (n m : ℕ) (r : SweepLoop) → n ≤ m → Swept n r → Swept m r
weaken n m r h (left e p) = left e p
weaken n m r h (went e p l) = went e p (omega arith)

gone_pause :
    (s : Collector)
    → Leaves sweep_phase s
    → is_sweep s.incremental_phase ≡ false
    → s.incremental_phase ≡ pause
gone_pause s (inl e) n = let y = ap is_sweep e in cc
gone_pause s (inr e) n = e

module _ (room : List ℕ → Bool) where
  abbrev swept_one : Collector → ℕ → List ℕ → Collector
  swept_one s obj next = sweep_one room (fate (λ _. true) (s.memory obj)) s obj next

  after_one :
      (budget : ℕ) (s : Collector) (obj : ℕ) (next : List ℕ)
      → s.incremental_phase ≡ sweep_phase
      → s.incremental_sweep_current ≡ obj ∷ next
      → (is_sweep (swept_one s obj next).incremental_phase ≡ true
          → Swept (length next) (
              sweep_loop room budget
                (record (swept_one s obj next) { incremental_sweep_current = next })))
      → Swept (length next) (sweep_loop room (suc budget) s)
  unfolding sweep_loop
  after_one budget s obj next h e rest =
      elim (Bool-cases (is_sweep (swept_one s obj next).incremental_phase)) [
        | inl y ↦ rw (e, sweep_loop, y) (recount (length next) _ _ (rest y))
        | inr n ↦
            rw (e, sweep_loop, n)
              (left refl (
                gone_pause (swept_one s obj next)
                  (sweep_one-Leaves room (fate (λ _. true) (s.memory obj)) s obj next (inl h)) n))
      ]

  pub sweep_loop-Swept :
      (budget : ℕ) (s : Collector)
      → s.incremental_phase ≡ sweep_phase
      → Swept (length s.incremental_sweep_current) (sweep_loop room budget s)
  unfolding sweep_loop
  sweep_loop-Swept zero s h = went refl h (omega arith)
  sweep_loop-Swept (suc budget) s h = elim (List-cases s.incremental_sweep_current) [
    | inl e ↦
        weaken 0 (length s.incremental_sweep_current) _ (omega arith)
          (rw (e, sweep_loop) (went refl h (omega (arith, ap (length {A = ℕ}) e))))
    | inr (obj, next, e) ↦
        weaken (length next) (length s.incremental_sweep_current) _
          (omega (arith, ap (length {A = ℕ}) e))
          (after_one budget s obj next h e (λ y. sweep_loop-Swept budget _ (is_sweep-eq _ y)))
  ]

  -- With a budget, a sweep step shortens what is ahead.
  pub sweep_loop-shorter :
      (budget : ℕ) (s : Collector) (obj : ℕ) (next : List ℕ)
      → s.incremental_phase ≡ sweep_phase
      → s.incremental_sweep_current ≡ obj ∷ next
      → Swept (length next) (sweep_loop room (suc budget) s)
  sweep_loop-shorter budget s obj next h e =
      after_one budget s obj next h e (λ y. sweep_loop-Swept budget _ (is_sweep-eq _ y))
