-- ===== src/Registers.antt =====
-- The register allocator of the code generator (src/compiler/register_allocator.hpp), over the frame
-- size of the function being compiled, a `u8`.
pub mod Bounds
use lua.Prelude.{ℕ, zero, suc, ◌+◌, ◌-◌, ◌%◌, Bool, ◌&&◌, ltb, leb, ◌==◌, if◌then◌else◌}

-- `freereg_`, and `maxStackSize_` of the bound prototype. The source's `i32` counter is not negative
-- here: `freeRegs` is called for registers that are in use.
pub record RegisterAllocator : Type 0 where
  pub freereg : ℕ
  pub max_stack_size : ℕ

-- `setMaxStackSize(static_cast<u8>(n))`, if `n` is beyond the size
abbrev pub raise : RegisterAllocator → ℕ → RegisterAllocator
raise r n = if ltb r.max_stack_size n then record r { max_stack_size = n % 256 } else r

unfoldable pub alloc : RegisterAllocator → RegisterAllocator × ℕ
alloc r = (raise (record r { freereg = r.freereg + 1 }) (r.freereg + 1), r.freereg)

unfoldable pub free_reg : RegisterAllocator → ℕ → ℕ → RegisterAllocator
free_reg r reg active_locals =
    if leb active_locals reg && (reg + 1 == r.freereg)
    then record r { freereg = r.freereg - 1 }
    else r

unfoldable pub free_regs : RegisterAllocator → ℕ → RegisterAllocator
free_regs r zero = r
free_regs r (suc n) = free_regs (record r { freereg = r.freereg - 1 }) n

unfoldable pub check_stack : RegisterAllocator → ℕ → RegisterAllocator
check_stack r n = raise r (r.freereg + n)

unfoldable pub set_free_reg : RegisterAllocator → ℕ → RegisterAllocator
set_free_reg r reg = record r { freereg = reg }

unfoldable pub reset_to_locals : RegisterAllocator → ℕ → RegisterAllocator
reset_to_locals r active_locals = record r { freereg = active_locals }

unfoldable pub restore : RegisterAllocator → ℕ → RegisterAllocator
restore r saved = record r { freereg = saved }

unfoldable pub reset : RegisterAllocator → ℕ → RegisterAllocator
reset r start = record r { freereg = start }

-- `bind`, with the frame size of the prototype bound
unfoldable pub bind : RegisterAllocator → ℕ → RegisterAllocator
bind r size = record r { max_stack_size = size }

unfoldable pub reserve : RegisterAllocator → ℕ → RegisterAllocator
reserve r count = record r { freereg = r.freereg + count }

unfoldable pub ensure_at_least : RegisterAllocator → ℕ → RegisterAllocator
ensure_at_least r reg = if ltb r.freereg reg then record r { freereg = reg } else r
