-- ===== src/Registers/Bounds.antt =====
-- When the frame size covers the registers that are handed out
-- (src/compiler/register_allocator.hpp).
use lua.Prelude.{max, ◌%◌, ℕ, zero, suc, ◌+◌, ◌-◌, ◌≤◌, ◌<◌, ◌≡◌, arith, ◌↔◌}
use lua.Registers.{RegisterAllocator, alloc, free_regs}

-- The frame has room for every register below the free one.
abbrev pub Covers : RegisterAllocator → Type 0
Covers r = (r.freereg ≤ r.max_stack_size) × (r.max_stack_size < 256)

-- `alloc` hands out the free register. The frame grows to cover it, modulo 256, and so covers the
-- registers in use exactly when the register is below 255: register 255 makes the frame size 0.
pub alloc-Covers :
    (r : RegisterAllocator)
    → Covers r
    → ((alloc r).1 ≡ r.freereg)
      × ((alloc r).0.freereg ≡ r.freereg + 1)
      × (Covers (alloc r).0 ↔ (r.freereg < 255))
      × ((alloc r).0.max_stack_size ≡ max r.max_stack_size (r.freereg + 1) % 256)
unfolding alloc
alloc-Covers r c = ground arith

-- `n` registers are taken, one after the other.
pub allocs : RegisterAllocator → ℕ → RegisterAllocator
allocs r zero = r
allocs r (suc n) = allocs (alloc r).0 n

allocs_lem :
    (r : RegisterAllocator) (n : ℕ)
    → Covers r
    → r.freereg + n ≤ 255
    → ((allocs r n).freereg ≡ r.freereg + n)
      × Covers (allocs r n)
      × (r.max_stack_size ≤ (allocs r n).max_stack_size)
unfolding allocs
allocs_lem r zero c h = omega arith
allocs_lem r (suc n) c h =
    let step : ((alloc r).0.freereg ≡ r.freereg + 1)
        × Covers (alloc r).0
        × (r.max_stack_size ≤ (alloc r).0.max_stack_size) =
      unfold alloc in ground arith in
    let rest = allocs_lem (alloc r).0 n (step.1) (omega arith) in omega arith

free_regs_lem :
    (r : RegisterAllocator) (n : ℕ)
    → n ≤ r.freereg
    → ((free_regs r n).freereg ≡ r.freereg - n)
      × ((free_regs r n).max_stack_size ≡ r.max_stack_size)
unfolding free_regs
free_regs_lem r zero h = omega arith
free_regs_lem r (suc n) h =
    omega (arith, free_regs_lem (record r { freereg = r.freereg - 1 }) n (omega arith))

-- While the registers in use stay below 256, freeing as many registers as were taken brings the free
-- register back; the frame covers the registers in use, and its size does not shrink.
pub free_regs-allocs :
    (r : RegisterAllocator) (n : ℕ)
    → Covers r
    → r.freereg + n ≤ 255
    → ((free_regs (allocs r n) n).freereg ≡ r.freereg)
      × Covers (free_regs (allocs r n) n)
      × (r.max_stack_size ≤ (free_regs (allocs r n) n).max_stack_size)
free_regs-allocs r n c h =
    let up = allocs_lem r n c h in
    let down = free_regs_lem (allocs r n) n (omega arith) in omega arith
